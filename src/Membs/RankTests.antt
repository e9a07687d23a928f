-- ===== src/Membs/RankTests.antt =====
-- Ranks that join and leave at concrete inputs (src/cart/crt_swim.c), the theorems at such inputs,
-- and the start of SWIM (src/swim/swim.c) over them.
use cart.Prelude.{
  der_already, ℕ, ◌+◌, ◌≡◌, refl, true, false, [], ◌∷◌, ok, err, if◌then◌else◌, ◌==◌, arith,
  der_nonexist,
}
use cart.Swim.{alive, inactive, is_suspect, MemberState}
use cart.Membs.{
  Target, Below, CrtSwimMembs, find_state, is_member, crt_swim_get_member_state, crt_swim_ops,
}
use cart.Membs.Ranks.{crt_swim_rank_add, crt_swim_rank_del, join}
use cart.Membs.Ring.{IsRing, ranks-IsRing}
use cart.Membs.Known.{known_with, rank_add-known, rank_del-known}

abbrev plenty : Below ℕ
plenty = record {
  send = λ e self to acked upds. record { after = e + 1; rc = 0; failed = false };
  now = λ e. (e, e);
  alloc = λ e. (e, true);
}

abbrev target : ℕ → MemberState → Target
target id st = record { cst_id = id; cst_state = st }

abbrev two : CrtSwimMembs ℕ
two = record {
  csm_head =
      target 1 (record { sms_incarnation = 2; sms_status = alive })
      ∷ target 5 (record { sms_incarnation = 0; sms_status = inactive })
      ∷ [];
  csm_target = 1;
  gp_size = 3;
  below = 0;
}

two-IsRing : IsRing two
two-IsRing = record { once = λ q. ground arith; within = omega arith }

ranks-IsRing_example :
    IsRing (crt_swim_rank_add plenty true 4 two 1 1 7).csm
    × IsRing (crt_swim_rank_del plenty true two 1 7).csm
ranks-IsRing_example = ranks-IsRing plenty true 4 two 1 1 7 two-IsRing

rank_del-known_example :
    (find_state (crt_swim_rank_del plenty true two 1 5).csm.csm_head 1
      ≡ (if 1 == 5 then err der_nonexist else find_state two.csm_head 1))
    × ((crt_swim_rank_del plenty true two 1 5).rc
        ≡ (if is_member two.csm_head 5 then 0 else der_nonexist))
rank_del-known_example = rank_del-known plenty two 1 5 1 two-IsRing

rank_add-known_example :
    (find_state (crt_swim_rank_add plenty true 4 two 1 1 7).csm.csm_head 7
      ≡ known_with two.csm_head 1 7 7)
    × ((crt_swim_rank_add plenty true 4 two 1 1 7).rc
        ≡ (if is_member two.csm_head 7 then der_already else 0))
    × ((crt_swim_rank_add plenty true 4 two 1 1 7).sc_self ≡ 1)
rank_add-known_example = rank_add-known plenty (λ e. refl) 4 two 1 1 7 7 (omega arith)

-- The rank that joins comes behind the current target, which moves on two places then.
join_run : crt_swim_rank_add plenty true 5 two 1 1 7 ≡ record {
  csm = record two {
    csm_head =
        target 1 (record { sms_incarnation = 2; sms_status = alive })
        ∷ target 5 (record { sms_incarnation = 0; sms_status = inactive })
        ∷ target 7 (record { sms_incarnation = 0; sms_status = inactive })
        ∷ [];
    csm_target = 0;
  };
  sc_self = 1;
  rc = 0;
}
unfolding crt_swim_rank_add join is_member
join_run = refl

calm :
    (q : ℕ) (st : MemberState)
    → (crt_swim_ops plenty).get_member_state two q ≡ ok st
    → is_suspect st.sms_status ≡ false
unfolding crt_swim_ops crt_swim_get_member_state find_state
calm q st h = ground (arith, h)
