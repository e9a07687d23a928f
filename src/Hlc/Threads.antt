-- ===== src/Hlc/Threads.antt =====
-- The interleavings of the threads that call `crt_hlc_get` and `crt_hlc_get_msg`
-- (src/cart/crt_hlc.c): a thread reads the time, loads `crt_hlc`, and exchanges it if no other
-- thread has changed it since; otherwise it loads again.
use cart.Prelude.{
  ℕ, ◌+◌, ◌%◌, ◌≤◌, ◌<◌, ◌≡◌, ◌≢◌, Option, List, [], ◌∷◌, All, ◌==◌, if◌then◌else◌, arith,
  Bool-cases, inl, inr,
}
use cart.Hlc.{TimeSpec, u64_mod, crt_hlc_localtime_get, get_round, get_msg_round}
use cart.Hlc.Bounds.{localtime_aligned, get_round-lt, get_msg_round-lt}

-- The two calls, the second with the timestamp of the message received.
pub data Call : Type 0 where
  get : Call
  get_msg : ℕ → Call

-- Where a thread stands in a call: with its physical time, and with the value that it loaded.
pub data Pc : Type 0 where
  idle : Pc
  ready : Call → ℕ → Pc
  loaded : Call → ℕ → ℕ → Pc

-- What a call returned.
pub record Stamp : Type 0 where
  pub call : Call
  pub pt : ℕ
  pub value : ℕ

pub record State : Type 0 where
  pub crt_hlc : ℕ
  pub pc : ℕ → Pc
  pub issued : List Stamp

unfoldable pub round : Call → ℕ → ℕ → ℕ
unfolding get_round get_msg_round
round get pt hlc = get_round pt hlc
round (get_msg m) pt hlc = get_msg_round m pt hlc

abbrev pub at : (ℕ → Pc) → ℕ → Pc → ℕ → Pc
at f t p u = if t == u then p else f u

pub data Step (s : State) : State → Type 0 where
  enter :
      (t : ℕ) (c : Call) (now : Option TimeSpec)
      → s.pc t ≡ idle
      → Step s (record s { pc = at s.pc t (ready c (crt_hlc_localtime_get now s.crt_hlc)) })
  load :
      (t : ℕ) (c : Call) (pt : ℕ)
      → s.pc t ≡ ready c pt
      → Step s (record s { pc = at s.pc t (loaded c pt s.crt_hlc) })
  exchange :
      (t : ℕ) (c : Call) (pt hlc : ℕ)
      → s.pc t ≡ loaded c pt hlc
      → s.crt_hlc ≡ hlc
      → Step s (record {
        crt_hlc = round c pt hlc;
        pc = at s.pc t idle;
        issued = record { call = c; pt = pt; value = round c pt hlc } ∷ s.issued;
      })
  retry :
      (t : ℕ) (c : Call) (pt hlc : ℕ)
      → s.pc t ≡ loaded c pt hlc
      → s.crt_hlc ≢ hlc
      → Step s (record s { pc = at s.pc t (ready c pt) })

pub data Run (s : State) : State → Type 0 where
  here : Run s s
  next : {t u : State} → Run s t → Step t u → Run s u

abbrev pub MessageRoom : Call → Type 0
MessageRoom get = Unit
MessageRoom (get_msg m) = m + 1 < u64_mod

-- The exchange does not wrap round: neither the clock nor the message has reached the last value.
abbrev pub HasRoom : {s t : State} → Step s t → Type 0
HasRoom (enter t c now p) = Unit
HasRoom (load t c pt p) = Unit
HasRoom (exchange t c pt hlc p e) = (hlc + 1 < u64_mod) × MessageRoom c
HasRoom (retry t c pt hlc p e) = Unit

abbrev pub NeverWraps : {s t : State} → Run s t → Type 0
NeverWraps here = Unit
NeverWraps (next r st) = NeverWraps r × HasRoom st

-- Newest first: each stamp is above all those before it.
abbrev pub Descends : List Stamp → Type 0
Descends [] = Unit
Descends (x ∷ xs) = All (λ (y : Stamp). y.value < x.value) xs × Descends xs

-- A stamp is at least the physical time, and above the timestamp of the message received.
abbrev pub AboveMessage : Call → ℕ → Type 0
AboveMessage get v = Unit
AboveMessage (get_msg m) v = m < v

abbrev pub IsLater : Stamp → Type 0
IsLater x = (x.pt ≤ x.value) × AboveMessage x.call x.value

abbrev Aligned : Pc → Type 0
Aligned idle = Unit
Aligned (ready c pt) = (pt % 65536 ≡ 0) × (pt < u64_mod)
Aligned (loaded c pt hlc) = (pt % 65536 ≡ 0) × (pt < u64_mod)

record IsGood (s : State) : Type 0 where
  fits : s.crt_hlc < u64_mod
  times : (t : ℕ) → Aligned (s.pc t)
  ordered : Descends s.issued
  below : All (λ (y : Stamp). y.value ≤ s.crt_hlc) s.issued
  later : All IsLater s.issued

round-lt :
    (c : Call) (pt hlc : ℕ)
    → pt % 65536 ≡ 0
    → hlc + 1 < u64_mod
    → MessageRoom c
    → (hlc < round c pt hlc) × (pt ≤ round c pt hlc) × AboveMessage c (round c pt hlc)
unfolding round
round-lt get pt hlc a r m = ground (arith, get_round-lt pt hlc a r)
round-lt (get_msg msg) pt hlc a r m = ground (arith, get_msg_round-lt pt hlc a r msg m)

round_fits : (c : Call) (pt hlc : ℕ) → pt < u64_mod → round c pt hlc < u64_mod
unfolding round
round_fits get pt hlc h = ground arith
round_fits (get_msg msg) pt hlc h = ground arith

raise :
    {a b : ℕ} (xs : List Stamp)
    → a < b
    → All (λ (y : Stamp). y.value ≤ a) xs
    → All (λ (y : Stamp). y.value < b) xs × All (λ (y : Stamp). y.value ≤ b) xs
raise [] h l = (tt, tt)
raise (x ∷ xs) h l = let r = raise xs h l.1 in ((omega arith, r.0), (omega arith, r.1))

at-Aligned :
    (f : ℕ → Pc) (t : ℕ) (p : Pc)
    → ((u : ℕ) → Aligned (f u))
    → Aligned p
    → (u : ℕ) → Aligned (at f t p u)
at-Aligned f t p h k u = elim (Bool-cases (t == u)) [ inl e ↦ rw e k | inr e ↦ rw e (h u) ]

loaded_time :
    (f : ℕ → Pc) (t : ℕ) (c : Call) (pt hlc : ℕ)
    → ((u : ℕ) → Aligned (f u))
    → f t ≡ loaded c pt hlc
    → (pt % 65536 ≡ 0) × (pt < u64_mod)
loaded_time f t c pt hlc h e = rw e at (h t)

ready_time :
    (f : ℕ → Pc) (t : ℕ) (c : Call) (pt : ℕ)
    → ((u : ℕ) → Aligned (f u))
    → f t ≡ ready c pt
    → (pt % 65536 ≡ 0) × (pt < u64_mod)
ready_time f t c pt h e = rw e at (h t)

Step-IsGood : {s t : State} (st : Step s t) → HasRoom st → IsGood s → IsGood t
Step-IsGood {s} (enter t c now p) r g = record {
  fits = g.fits;
  times = at-Aligned s.pc t _ g.times (localtime_aligned now s.crt_hlc g.fits);
  ordered = g.ordered;
  below = g.below;
  later = g.later;
}
Step-IsGood {s} (load t c pt p) r g = record {
  fits = g.fits;
  times = at-Aligned s.pc t _ g.times (ready_time s.pc t c pt g.times p);
  ordered = g.ordered;
  below = g.below;
  later = g.later;
}
Step-IsGood {s} (exchange t c pt hlc p e) r g =
    let time = loaded_time s.pc t c pt hlc g.times p in
    let rise = round-lt c pt hlc time.0 r.0 r.1 in
    let up : s.crt_hlc < round c pt hlc = omega arith in
    let past = raise s.issued up g.below in
    record {
      fits = round_fits c pt hlc time.1;
      times = at-Aligned s.pc t idle g.times tt;
      ordered = (past.0, g.ordered);
      below = (omega arith, past.1);
      later = ((rise.1, rise.2), g.later);
    }
Step-IsGood {s} (retry t c pt hlc p e) r g = record {
  fits = g.fits;
  times = at-Aligned s.pc t _ g.times (loaded_time s.pc t c pt hlc g.times p);
  ordered = g.ordered;
  below = g.below;
  later = g.later;
}

Run-IsGood : {s t : State} (r : Run s t) → NeverWraps r → IsGood s → IsGood t
Run-IsGood here w g = g
Run-IsGood (next r st) w g = Step-IsGood st w.1 (Run-IsGood r w.0 g)

-- The state before the first call.
abbrev pub start : ℕ → State
start hlc = record { crt_hlc = hlc; pc = λ _. idle; issued = [] }

-- Whatever the interleaving of the threads, as long as no exchange wraps round: the timestamps
-- that the calls return strictly increase in the order of their exchanges, so no two are equal;
-- each is at least the physical time that its call read; and one that `crt_hlc_get_msg` returns
-- is above the timestamp of the message.
pub stamps_increase :
    (hlc : ℕ) {t : State} (r : Run (start hlc) t)
    → hlc < u64_mod
    → NeverWraps r
    → Descends t.issued × All IsLater t.issued
stamps_increase hlc r h w =
    let g =
      Run-IsGood r w (record { fits = h; times = λ _. tt; ordered = tt; below = tt; later = tt }) in
    (g.ordered, g.later)
