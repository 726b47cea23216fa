-- ===== src/Accuser/Defs.antt =====
-- accuser/accuser.go. The loop `Run` is a step for each message of its channels, with the time in
-- nanoseconds; an accuse that is broadcast is the term of it.
use ofgp_core.Base.{
  ℕ_eq, ltb, nat_eq, if◌then◌else◌, ℕ, ◌+◌, ◌-◌, ◌*◌, ◌/◌, Bool, true, false, not, ◌&&◌, Option,
  none, some, List, [], ◌∷◌,
}

abbrev pub second : ℕ
second = 1000000000

abbrev pub accuse_cooldown : ℕ
accuse_cooldown = 10 * second

abbrev pub default_heatbeat_interval_tolerance : ℕ
default_heatbeat_interval_tolerance = 60 * second

abbrev pub max_heatbeat_interval_tolerance : ℕ
max_heatbeat_interval_tolerance = 3 * 60 * second

-- `none` is the last accused term -1 of the start. The package's `AccuseInterval` is in seconds.
pub record Accuser : Type 0 where
  pub last_accuse_time : ℕ
  pub last_accuse_term : Option ℕ
  pub term_to_accuse : ℕ
  pub has_heatbeat_in_current_term : Bool
  pub last_heatbeat_time : ℕ
  pub heartbeat_interval_tolerance : ℕ
  pub accuse_interval : ℕ

-- The start is later than 20 seconds after the epoch of the clock.
unfoldable pub new_accuser : ℕ → ℕ → Accuser
new_accuser now interval = record {
  last_accuse_time = now - 2 * accuse_cooldown;
  last_accuse_term = none;
  term_to_accuse = 0;
  has_heatbeat_in_current_term = false;
  last_heatbeat_time = now;
  heartbeat_interval_tolerance = default_heatbeat_interval_tolerance;
  accuse_interval = interval;
}

abbrev is_below : ℕ → Option ℕ → Bool
is_below term none = false
is_below term (some last) = ltb term last

abbrev is_same : ℕ → Option ℕ → Bool
is_same term none = false
is_same term (some last) = nat_eq term last

abbrev pub is_above : ℕ → Option ℕ → Bool
is_above term none = true
is_above term (some last) = ltb last term

abbrev pub with_default : ℕ → ℕ
with_default interval = if nat_eq interval 0 then 180 else interval

-- `signed` tells whether `MakeWeakAccuse` gets its signature.
unfoldable pub accuse : Bool → ℕ → Accuser → ℕ → Accuser × Option ℕ
accuse signed now ac term =
    if is_below term ac.last_accuse_term
    then (ac, none)
    else if is_same term ac.last_accuse_term && ltb now (ac.last_accuse_time + accuse_cooldown)
    then (ac, none)
    else (let interval = with_default ac.accuse_interval in
        let ac' = record ac { accuse_interval = interval } in
        if ltb (now / second) (ac.last_accuse_time / second + interval) then (ac', none) else (
          record ac' { last_accuse_term = some term; last_accuse_time = now },
          (if signed then some term else none),
        ))

-- The cases of the loop of `Run`: the two triggers, the two results of a heartbeat's check, a new term,
-- and the timer.
pub data Input : Type 0 where
  bs_trigger ts_trigger : ℕ → Input
  heatbeat_fail : Input
  heatbeat_suc : ℕ → Input
  new_term : ℕ → Input
  heartbeat_timer : Input

abbrev pub min_tolerance : ℕ → ℕ
min_tolerance t =
    if ltb max_heatbeat_interval_tolerance t then max_heatbeat_interval_tolerance else t

unfoldable pub on_timer : Bool → ℕ → Accuser → Accuser × Option ℕ
unfolding accuse
on_timer signed now ac =
    if ltb (ac.last_heatbeat_time + ac.heartbeat_interval_tolerance) now
    then accuse signed now
        (if not ac.has_heatbeat_in_current_term && is_above ac.term_to_accuse ac.last_accuse_term
          then record ac {
            heartbeat_interval_tolerance = min_tolerance (ac.heartbeat_interval_tolerance * 2);
          }
          else ac)
        ac.term_to_accuse
    else (ac, none)

unfoldable pub step : Bool → ℕ → Accuser → Input → Accuser × Option ℕ
unfolding accuse on_timer
step signed now ac (bs_trigger term) = accuse signed now ac term
step signed now ac (ts_trigger term) = accuse signed now ac term
step signed now ac heatbeat_fail = accuse signed now ac ac.term_to_accuse
step signed now ac (heatbeat_suc term) = (
  record ac {
    term_to_accuse = term;
    last_heatbeat_time = now;
    has_heatbeat_in_current_term = true;
  },
  none,
)
step signed now ac (new_term term) = (record ac { term_to_accuse = term }, none)
step signed now ac heartbeat_timer = on_timer signed now ac

-- The loop of `Run` over the inputs with their times: the state, and what is broadcast.
unfoldable pub run : Bool → Accuser → List (ℕ × Input) → Accuser × List ℕ
unfolding step
run signed ac [] = (ac, [])
run signed ac ((now, input) ∷ inputs) =
    let stepped = step signed now ac input in
    let rest = run signed stepped.0 inputs in
    (rest.0, elim stepped.1 [ none ↦ rest.1 | some term ↦ term ∷ rest.1 ])
