-- ===== src/Hlc/Bounds.antt =====
-- What one exchange of the hybrid logical clock promises.
use cart.Prelude.{ℕ, ◌+◌, ◌%◌, ◌≤◌, ◌<◌, ◌≡◌, Option, none, some, arith}
use cart.Hlc.{TimeSpec, u64_mod, crt_hlc_localtime_get, get_round, get_msg_round}

-- The physical time has its low 16 bits clear, and fits the word.
pub localtime_aligned :
    (now : Option TimeSpec) (hlc : ℕ)
    → hlc < u64_mod
    → (crt_hlc_localtime_get now hlc % 65536 ≡ 0) × (crt_hlc_localtime_get now hlc < u64_mod)
unfolding crt_hlc_localtime_get
localtime_aligned none hlc h = omega arith
localtime_aligned (some t) hlc h = omega arith

module _ (pt hlc : ℕ) (Aligned : pt % 65536 ≡ 0) (room : hlc + 1 < u64_mod) where
  pub get_round-lt : (hlc < get_round pt hlc) × (pt ≤ get_round pt hlc)
  unfolding get_round
  get_round-lt = ground arith

  pub get_msg_round-lt :
      (msg : ℕ)
      → msg + 1 < u64_mod
      → (hlc < get_msg_round msg pt hlc)
        × (msg < get_msg_round msg pt hlc)
        × (pt ≤ get_msg_round msg pt hlc)
  unfolding get_msg_round
  get_msg_round-lt msg h = ground arith
