-- ===== src/Hlc.antt =====
-- The hybrid logical clock, src/cart/crt_hlc.c. The shared `crt_hlc` is a 64-bit word that several
-- threads read and exchange atomically; `Hlc.Threads` has their interleavings.
pub mod Bounds
pub mod Threads
pub mod Tests
use cart.Prelude.{ℕ, ◌+◌, ◌-◌, ◌*◌, ◌/◌, ◌%◌, ◌^◌, Option, none, some, ltb, leb, if◌then◌else◌}

abbrev pub u64_mod : ℕ
u64_mod = 2 ^ 64

-- NSEC_PER_SEC of include/gurt/common.h
abbrev pub nsec_per_sec : ℕ
nsec_per_sec = 1000000000

-- `x & ~CRT_HLC_MASK`, with the mask 0xFFFF
abbrev pub unmasked : ℕ → ℕ
unmasked x = x / 65536 * 65536

-- `struct timespec`, as `clock_gettime` fills it
pub record TimeSpec : Type 0 where
  pub tv_sec : ℕ
  pub tv_nsec : ℕ

-- `none` is a failure of `clock_gettime`.
unfoldable pub crt_hlc_localtime_get : Option TimeSpec → ℕ → ℕ
crt_hlc_localtime_get none hlc = unmasked hlc
crt_hlc_localtime_get (some t) hlc = unmasked ((t.tv_sec * nsec_per_sec + t.tv_nsec) % u64_mod)

-- `hlc + 1` on uint64_t
abbrev pub succ64 : ℕ → ℕ
succ64 x = (x + 1) % u64_mod

-- One round of the loop of `crt_hlc_get`: the value that it tries to exchange for `hlc`.
unfoldable pub get_round : ℕ → ℕ → ℕ
get_round pt hlc = if ltb (unmasked hlc) pt then pt else succ64 hlc

-- One round of the loop of `crt_hlc_get_msg`.
unfoldable pub get_msg_round : ℕ → ℕ → ℕ → ℕ
get_msg_round msg pt hlc =
    let ml = unmasked msg in
    if ltb (unmasked hlc) ml
    then if ltb ml pt then pt else succ64 msg
    else if ltb (unmasked hlc) pt
    then pt
    else if leb pt ml
    then succ64 (if ltb hlc msg then msg else hlc)
    else succ64 hlc

unfoldable pub crt_hlc2sec : ℕ → ℕ
crt_hlc2sec hlc = unmasked hlc / nsec_per_sec
