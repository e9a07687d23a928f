-- ===== src/Hlc/Tests.antt =====
-- The clock at concrete inputs (src/cart/crt_hlc.c).
use cart.Prelude.{ℕ, ◌≡◌, refl, none, All, [], ◌∷◌, arith}
use cart.Hlc.{get_round, get_msg_round, crt_hlc2sec, crt_hlc_localtime_get}
use cart.Hlc.Threads.{
  State, Step, Run, start, get_msg, idle, ready, loaded, enter, load, exchange, here, next, at,
  round, Descends, IsLater, stamps_increase,
}

abbrev message : ℕ
message = 0x50003

rounds :
    (get_round 0x20000 0x10005 ≡ 0x20000)
    × (get_round 0x10000 0x10005 ≡ 0x10006)
    × (get_msg_round message 0x20000 0x10005 ≡ 0x50004)
unfolding get_round get_msg_round
rounds = (refl, refl, refl)

seconds : crt_hlc2sec 5000050000 ≡ 5
unfolding crt_hlc2sec
seconds = refl

-- A thread enters `crt_hlc_get_msg` with no system time, loads and exchanges.
abbrev entered : State
entered = record {
  crt_hlc = 0x10005;
  pc = at (λ _. idle) 0 (ready (get_msg message) (crt_hlc_localtime_get none 0x10005));
  issued = [];
}

abbrev read : State
read = record {
  crt_hlc = 0x10005;
  pc = at entered.pc 0 (loaded (get_msg message) (crt_hlc_localtime_get none 0x10005) 0x10005);
  issued = [];
}

abbrev pt : ℕ
pt = crt_hlc_localtime_get none 0x10005

abbrev exchanged : State
exchanged = record {
  crt_hlc = round (get_msg message) pt 0x10005;
  pc = at read.pc 0 idle;
  issued =
      record { call = get_msg message; pt = pt; value = round (get_msg message) pt 0x10005 } ∷ [];
}

abbrev enter_step : Step (start 0x10005) entered
enter_step = enter 0 (get_msg message) none refl

abbrev load_step : Step entered read
load_step = load 0 (get_msg message) pt refl

abbrev exchange_step : Step read exchanged
exchange_step = exchange 0 (get_msg message) pt 0x10005 refl refl

abbrev one_call : Run (start 0x10005) exchanged
one_call = next (next (next here enter_step) load_step) exchange_step

stamps_increase_example : Descends exchanged.issued × All IsLater exchanged.issued
stamps_increase_example =
    stamps_increase 0x10005 one_call (omega arith) (((tt, tt), tt), (omega arith, omega arith))
