-- ===== src/Prelude/Results.antt =====
-- Return codes. A function of the source returns 0 or a negative error number; the model keeps
-- the number without its sign, so 0 is success and n stands for -n.
use Prim.Native.Nat.{ℕ}
use mathlib.Core.Bool.{Bool, true, false}

-- The DER_ numbers of include/gurt/errno.h, and those of errno.h that the code returns.
abbrev pub der_no_perm : ℕ
der_no_perm = 1001

abbrev pub der_inval : ℕ
der_inval = 1003

abbrev pub der_exist : ℕ
der_exist = 1004

abbrev pub der_nonexist : ℕ
der_nonexist = 1005

abbrev pub der_unreach : ℕ
der_unreach = 1006

abbrev pub der_already : ℕ
der_already = 1008

abbrev pub der_nomem : ℕ
der_nomem = 1009

abbrev pub der_timedout : ℕ
der_timedout = 1011

abbrev pub der_busy : ℕ
der_busy = 1012

abbrev pub der_canceled : ℕ
der_canceled = 1018

abbrev pub der_oog : ℕ
der_oog = 1019

abbrev pub der_grpver : ℕ
der_grpver = 1036

-- A value that a function hands back through a pointer when its return code is 0.
pub data Result {ℓ} (A : Type ℓ) : Type ℓ where
  ok : A → Result A
  err : ℕ → Result A

infixl 5 ◌>>=◌
abbrev pub ◌>>=◌ {ℓ κ} : {A : Type ℓ} {B : Type κ} → Result A → (A → Result B) → Result B
ok a >>= f = f a
err e >>= f = err e

-- A test of the code that ends the call with an error where it fails.
abbrev pub check {ℓ} : {A : Type ℓ} → Bool → ℕ → Result A → Result A
check true e r = r
check false e r = err e
