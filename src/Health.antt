-- ===== src/Health.antt =====
-- src/transport_health.c: the debounced health of the shared-memory transport. `unsigned` counters
-- wrap at 2 ^ 32. The comparisons of a sample are made once, into a `Band`, and the branches that the
-- code takes on them are the clauses of `react`.
pub mod Laws
pub mod Debounce
mod Tests
use adaptipc.Base.{ℕ, Bool, true, false, ◌&&◌, ◌||◌, ltb, leb, ◌==◌, if◌then◌else◌, inc32}
use adaptipc.Double.{Double, ◌⊗◌, ◌⊘◌, ◌≺◌, ◌≼◌, real}

-- `adapt_health_state_t`.
pub data State : Type 0 where
  unavailable healthy degraded blocked recovering : State

-- The value of the enumerator, which also indexes the penalties.
abbrev pub code : State → ℕ
code unavailable = 0
code healthy = 1
code degraded = 2
code blocked = 3
code recovering = 4

abbrev pub same : State → State → Bool
same s t = code s == code t

pub record Health : Type 0 where
  pub state : State
  pub bad_streak : ℕ
  pub good_streak : ℕ
  pub transitions : ℕ
  pub debounce : ℕ

unfoldable pub init : ℕ → Health
init debounce = record {
  state = unavailable;
  bad_streak = 0;
  good_streak = 0;
  transitions = 0;
  debounce = if debounce == 0 then 8 else debounce;
}

-- The result says whether the state changed.
set_state : Health → State → Health × Bool
set_state h s = if same h.state s then (h, false) else (
  record h { state = s; transitions = inc32 h.transitions; bad_streak = 0; good_streak = 0 },
  true,
)

-- Where a sample falls: at or above BLOCKED_OCC_FRAC, at or above DEGRADED_OCC_FRAC, below it with a
-- consumer that drains too slowly, at or below RECOVERED_OCC_FRAC, or in between.
pub data Band : Type 0 where
  full high slow low middle : Band

on_full : Health → Health × Bool
unfolding set_state
on_full h =
    let h' = record h { good_streak = 0; bad_streak = inc32 h.bad_streak } in
    if leb h'.debounce h'.bad_streak || same h'.state degraded
    then set_state h' blocked
    else (h', false)

-- `++bad_streak >= debounce`, and then DEGRADED.
count_bad : Health → Health × Bool
unfolding set_state
count_bad h =
    let h' = record h { bad_streak = inc32 h.bad_streak } in
    if leb h'.debounce h'.bad_streak then set_state h' degraded else (h', false)

on_high : Health → Bool → Health × Bool
unfolding count_bad
on_high h at_level =
    let h' = record h { good_streak = 0 } in
    if same h'.state blocked then (if at_level then count_bad h' else (h', false)) else count_bad h'

-- `++good_streak >= debounce`, and then the next better state.
count_good : Health → Health × Bool
unfolding set_state
count_good h =
    let h' = record h { good_streak = inc32 h.good_streak } in
    if leb h'.debounce h'.good_streak
    then set_state h' (if same h'.state blocked then recovering else healthy)
    else (h', false)

on_low : Health → Health × Bool
unfolding set_state count_good
on_low h =
    let h' = record h { bad_streak = 0 } in
    if same h'.state unavailable
    then set_state h' healthy
    else if same h'.state healthy
    then (h', false)
    else count_good h'

unfoldable pub react : Health → Band → Health × Bool
unfolding on_full on_high on_low
react h full = on_full h
react h high = on_high h true
react h slow = on_high h false
react h low = on_low h
react h middle = (h, false)

module _ {ℓ} {D : Type ℓ} ⦃d : Double D⦄ where
  unfoldable pub band_of : ℕ → ℕ → Bool → D → D → Band
  band_of occ_bytes capacity drain_valid arrival_bps drain_bps =
      let occ_frac : D = real occ_bytes ⊘ real capacity in
      if d.num 95 100 ≼ occ_frac
      then full
      else if d.num 80 100 ≼ occ_frac
      then high
      else if ltb 0 occ_bytes
          && drain_valid
          && (real 0 ≺ arrival_bps)
          && (drain_bps ≺ d.num 5 10 ⊗ arrival_bps)
      then slow
      else if occ_frac ≼ d.num 20 100
      then low
      else middle

  unfoldable pub update_shm : Health → ℕ → ℕ → Bool → D → D → Health × Bool
  unfolding react band_of
  update_shm h occ_bytes capacity drain_valid arrival_bps drain_bps =
      if capacity == 0
      then (h, false)
      else react h (band_of occ_bytes capacity drain_valid arrival_bps drain_bps)
