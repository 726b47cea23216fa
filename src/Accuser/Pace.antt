-- ===== src/Accuser/Pace.antt =====
-- accuser/accuser.go: how often accuses leave a node.
use ofgp_core.Base.{
  some, ℕ_eq, All, ℕ, ◌+◌, ◌/◌, ◌<◌, ◌≡◌, refl, Bool, true, none, List, [], ◌∷◌, arith, ltb,
  if◌then◌else◌, ◌*◌, false, not, ◌&&◌, Option,
}
use ofgp_core.Accuser.Defs.{
  second, Accuser, accuse, Input, on_timer, step, run, bs_trigger, ts_trigger, heatbeat_fail,
  heatbeat_suc, new_term, heartbeat_timer, is_above, min_tolerance, with_default,
}

-- Inputs that all come before the second `limit`.
abbrev pub Before : ℕ → List (ℕ × Input) → Type 0
Before limit = All (λ entry. entry.0 / second < limit)

accuse_quiet :
    (signed : Bool) (now term : ℕ) (ac : Accuser)
    → 0 < ac.accuse_interval
    → now / second < ac.last_accuse_time / second + ac.accuse_interval
    → accuse signed now ac term ≡ (ac, none)
unfolding accuse
accuse_quiet signed now term ac pos l = ground arith

-- The fields that the pace of the accuses depends on.
record SamePace (ac ac' : Accuser) : Type 0 where
  time : ac'.last_accuse_time ≡ ac.last_accuse_time
  interval : ac'.accuse_interval ≡ ac.accuse_interval

on_timer_quiet :
    (signed : Bool) (now : ℕ) (ac : Accuser)
    → 0 < ac.accuse_interval
    → now / second < ac.last_accuse_time / second + ac.accuse_interval
    → ((on_timer signed now ac).1 ≡ none) × SamePace ac (on_timer signed now ac).0
unfolding on_timer
on_timer_quiet signed now ac pos l =
    by_cases (ltb (ac.last_heatbeat_time + ac.heartbeat_interval_tolerance) now)
      (not ac.has_heatbeat_in_current_term && is_above ac.term_to_accuse ac.last_accuse_term)
  where
    doubled : Accuser
    doubled = record ac {
      heartbeat_interval_tolerance = min_tolerance (ac.heartbeat_interval_tolerance * 2);
    }

    by_cases :
        (late first : Bool)
        → ((if late
              then accuse signed now (if first then doubled else ac) ac.term_to_accuse
              else (ac, none)).1
            ≡ none)
          × SamePace ac
              (if late
                then accuse signed now (if first then doubled else ac) ac.term_to_accuse
                else (ac, none)).0
    by_cases false first = (refl, record { time = refl; interval = refl })
    by_cases true true =
        rw (accuse_quiet signed now ac.term_to_accuse doubled pos l)
          (refl, record { time = refl; interval = refl })
    by_cases true false =
        rw (accuse_quiet signed now ac.term_to_accuse ac pos l)
          (refl, record { time = refl; interval = refl })

step_quiet :
    (signed : Bool) (now : ℕ) (ac : Accuser) (input : Input)
    → 0 < ac.accuse_interval
    → now / second < ac.last_accuse_time / second + ac.accuse_interval
    → ((step signed now ac input).1 ≡ none) × SamePace ac (step signed now ac input).0
unfolding step
step_quiet signed now ac (bs_trigger term) pos l =
    rw (accuse_quiet signed now term ac pos l) (refl, record { time = refl; interval = refl })
step_quiet signed now ac (ts_trigger term) pos l =
    rw (accuse_quiet signed now term ac pos l) (refl, record { time = refl; interval = refl })
step_quiet signed now ac heatbeat_fail pos l =
    rw (accuse_quiet signed now ac.term_to_accuse ac pos l)
      (refl, record { time = refl; interval = refl })
step_quiet signed now ac (heatbeat_suc term) pos l = (refl, record { time = refl; interval = refl })
step_quiet signed now ac (new_term term) pos l = (refl, record { time = refl; interval = refl })
step_quiet signed now ac heartbeat_timer pos l = on_timer_quiet signed now ac pos l

run_quiet :
    (signed : Bool) (ac : Accuser) (inputs : List (ℕ × Input))
    → 0 < ac.accuse_interval
    → Before (ac.last_accuse_time / second + ac.accuse_interval) inputs
    → (run signed ac inputs).1 ≡ []
unfolding run
run_quiet signed ac [] pos b = refl
run_quiet signed ac ((now, input) ∷ inputs) pos b =
    let (silent, pace) = step_quiet signed now ac input pos b.0 in
    let rest =
      run_quiet signed (step signed now ac input).0 inputs (omega (arith, pos, pace.interval))
        (rw (pace.time, pace.interval) b.1) in
    ground (arith, silent, rest)

-- An accuse is recorded with its time, and has an interval.
record Recorded (now : ℕ) (ac ac' : Accuser) : Type 0 where
  time : ac'.last_accuse_time ≡ now
  interval : ac'.accuse_interval ≡ with_default ac.accuse_interval

accuse-Recorded :
    (signed : Bool) (now term sent : ℕ) (ac : Accuser)
    → (accuse signed now ac term).1 ≡ some sent
    → Recorded now ac (accuse signed now ac term).0
unfolding accuse
accuse-Recorded signed now term sent ac e = record {
  time = ground (arith, e);
  interval = ground (arith, e);
}

on_timer-Recorded :
    (signed : Bool) (now sent : ℕ) (ac : Accuser)
    → (on_timer signed now ac).1 ≡ some sent
    → Recorded now ac (on_timer signed now ac).0
unfolding on_timer
on_timer-Recorded signed now sent ac e =
    by_cases (ltb (ac.last_heatbeat_time + ac.heartbeat_interval_tolerance) now)
      (not ac.has_heatbeat_in_current_term && is_above ac.term_to_accuse ac.last_accuse_term) e
  where
    doubled : Accuser
    doubled = record ac {
      heartbeat_interval_tolerance = min_tolerance (ac.heartbeat_interval_tolerance * 2);
    }

    timed : Bool → Bool → Accuser × Option ℕ
    timed late first =
        if late
        then accuse signed now (if first then doubled else ac) ac.term_to_accuse
        else (ac, none)

    as_ac : (ac' : Accuser) → Recorded now doubled ac' → Recorded now ac ac'
    as_ac ac' r = record { time = r.time; interval = r.interval }

    by_cases :
        (late first : Bool)
        → (timed late first).1 ≡ some sent
        → Recorded now ac (timed late first).0
    by_cases false first e' = absurd (ground (arith, e'))
    by_cases true true e' =
        as_ac (accuse signed now doubled ac.term_to_accuse).0
          (accuse-Recorded signed now ac.term_to_accuse sent doubled e')
    by_cases true false e' = accuse-Recorded signed now ac.term_to_accuse sent ac e'

step-Recorded :
    (signed : Bool) (now sent : ℕ) (ac : Accuser) (input : Input)
    → (step signed now ac input).1 ≡ some sent
    → Recorded now ac (step signed now ac input).0
unfolding step
step-Recorded signed now sent ac (bs_trigger term) e = accuse-Recorded signed now term sent ac e
step-Recorded signed now sent ac (ts_trigger term) e = accuse-Recorded signed now term sent ac e
step-Recorded signed now sent ac heatbeat_fail e =
    accuse-Recorded signed now ac.term_to_accuse sent ac e
step-Recorded signed now sent ac (heatbeat_suc term) e = absurd (ground (arith, e))
step-Recorded signed now sent ac (new_term term) e = absurd (ground (arith, e))
step-Recorded signed now sent ac heartbeat_timer e = on_timer-Recorded signed now sent ac e

-- After an accuse that a node broadcasts, it broadcasts none at the inputs that come before as many seconds
-- have passed as the interval, in whole seconds of the clock, and 180 where the interval is not set, whatever the inputs are: triggers, failed heartbeats and
-- timeouts, for old terms or new.
pub run_after_accuse :
    (signed : Bool) (now sent : ℕ) (ac : Accuser) (input : Input) (inputs : List (ℕ × Input))
    → (step signed now ac input).1 ≡ some sent
    → Before (now / second + with_default ac.accuse_interval) inputs
    → (run signed ac ((now, input) ∷ inputs)).1 ≡ sent ∷ []
unfolding run
run_after_accuse signed now sent ac input inputs e b =
    let r = step-Recorded signed now sent ac input e in
    let silent =
      run_quiet signed (step signed now ac input).0 inputs (ground (arith, r.interval))
        (rw (r.time, r.interval) b) in
    ground (arith, e, silent)
