-- ===== src/Accuser/Tests.antt =====
-- The theorems about accuser/accuser.go at concrete inputs.
use ofgp_core.Base.{ℕ_eq, ◌*◌, ◌≡◌, refl, true, some, [], ◌∷◌, arith}
use ofgp_core.Accuser.Defs.{
  second, Accuser, new_accuser, accuse, on_timer, step, run, bs_trigger, heatbeat_fail, new_term,
  heartbeat_timer,
}
use ofgp_core.Accuser.Pace.{run_after_accuse}

-- A node that has accused the leader of the term 4 at the second 1000.
abbrev accused : Accuser
accused = record (new_accuser (900 * second) 180) {
  last_accuse_time = 1000 * second;
  last_accuse_term = some 4;
  term_to_accuse = 4;
}

accuses_at_1180 : (step true (1180 * second) accused (bs_trigger 5)).1 ≡ some 5
unfolding step accuse new_accuser
accuses_at_1180 = refl

run_after_accuse_example :
    (run true accused (
      (1180 * second, bs_trigger 5)
      ∷ (1200 * second, bs_trigger 6)
      ∷ (1300 * second, heatbeat_fail)
      ∷ (1359 * second, heartbeat_timer)
      ∷ [])).1
    ≡ 5 ∷ []
unfolding new_accuser
run_after_accuse_example =
    run_after_accuse true (1180 * second) 5 accused (bs_trigger 5)
      ((1200 * second, bs_trigger 6)
        ∷ (1300 * second, heatbeat_fail)
        ∷ (1359 * second, heartbeat_timer)
        ∷ [])
      accuses_at_1180 (omega arith, (omega arith, (omega arith, tt)))

-- Without the heartbeat the tolerance doubles.
tolerance_doubles :
    (run true accused (
      (1030 * second, new_term 5)
      ∷ (1300 * second, heartbeat_timer)
      ∷ [])).0.heartbeat_interval_tolerance
    ≡ 120 * second
unfolding run step accuse on_timer new_accuser
tolerance_doubles = refl
