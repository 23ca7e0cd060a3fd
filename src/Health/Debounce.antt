-- ===== src/Health/Debounce.antt =====
-- How many samples it takes to change the health state.
use adaptipc.Base.{
  ℕ, zero, suc, ◌+◌, ◌-◌, ◌≤◌, ◌<◌, ◌*◌, ◌^◌, ◌≡◌, ◌≢◌, ◌⊎◌, inl, inr, ◌↔◌, true, List, [], ◌∷◌,
  arith, length,
}
use adaptipc.Health.{
  State, unavailable, healthy, degraded, blocked, recovering, Health, Band, full, high, slow, low,
  middle, react,
}

-- The samples of successive sends.
unfoldable pub run : Health → List Band → Health
run h [] = h
run h (b ∷ bs) = run (react h b).0 bs

abbrev pub replicate : ℕ → Band → List Band
replicate zero b = []
replicate (suc n) b = b ∷ replicate n b

-- The streaks that count towards a change are short of the debounce length. (In DEGRADED and BLOCKED
-- the bad streak may go on growing.)
pub record IsValid (h : Health) : Type 0 where
  pub debounced : 0 < h.debounce
  pub word : h.debounce < 2 ^ 32
  pub good_short : h.good_streak < h.debounce
  pub bad_short : (h.bad_streak < h.debounce) ⊎ (h.state ≡ degraded) ⊎ (h.state ≡ blocked)

-- A sample keeps the streaks short of the debounce length: the good one always, the bad one wherever
-- the transport is unmapped, healthy or recovering.
pub react-IsValid : (h : Health) (b : Band) → IsValid h → IsValid (react h b).0
unfolding react
react-IsValid h full v = ground arith
react-IsValid h high v = ground arith
react-IsValid h slow v = ground arith
react-IsValid h low v = ground arith
react-IsValid h middle v = ground arith

healthy_step :
    (h : Health) (b : Band)
    → h.state ≡ healthy
    → h.debounce < 2 ^ 32
    → h.bad_streak + 1 < h.debounce
    → ((react h b).0.state ≡ healthy)
      × ((react h b).0.debounce ≡ h.debounce)
      × ((react h b).0.bad_streak ≤ h.bad_streak + 1)
unfolding react
healthy_step h full e w l = ground arith
healthy_step h high e w l = ground arith
healthy_step h slow e w l = ground arith
healthy_step h low e w l = ground arith
healthy_step h middle e w l = ground arith

-- A healthy transport stays healthy through any samples that, with the bad ones counted before, are
-- fewer than the debounce length.
pub healthy_through :
    (bands : List Band) (h : Health)
    → h.state ≡ healthy
    → h.debounce < 2 ^ 32
    → h.bad_streak + length bands < h.debounce
    → (run h bands).state ≡ healthy
unfolding run
healthy_through [] h e w l = e
healthy_through (b ∷ bands) h e w l =
    let (e', same, more) = healthy_step h b e w (omega arith) in
    healthy_through bands (react h b).0 e' (omega arith) (omega arith)

-- With both streaks at zero and a debounce length of at least two, one sample changes the state in
-- two cases only: a drained ring makes an unmapped transport healthy, and a full ring blocks a
-- degraded one.
pub single_sample_iff :
    (h : Health) (b : Band)
    → h.bad_streak ≡ 0
    → h.good_streak ≡ 0
    → 2 ≤ h.debounce
    → ((react h b).1 ≡ true)
      ↔ (((h.state ≡ unavailable) × (b ≡ low)) ⊎ ((h.state ≡ degraded) × (b ≡ full)))
unfolding react
single_sample_iff h full b g d = ground arith
single_sample_iff h high b g d = ground arith
single_sample_iff h slow b g d = ground arith
single_sample_iff h low b g d = ground arith
single_sample_iff h middle b g d = ground arith

-- Towards BLOCKED: a full sample that does not block lengthens the bad streak.
full_step :
    (h : Health)
    → IsValid h
    → ((react h full).0.state ≡ blocked)
      ⊎ (((react h full).0.bad_streak ≡ h.bad_streak + 1)
          × (h.bad_streak + 1 < h.debounce)
          × (h.state ≢ blocked))
unfolding react
full_step h v = ground arith

blocked_stays : (h : Health) → h.state ≡ blocked → (react h full).0.state ≡ blocked
unfolding react
blocked_stays h e = ground arith

debounce_full : (h : Health) → (react h full).0.debounce ≡ h.debounce
unfolding react
debounce_full h = ground arith

sustained :
    (n : ℕ) (h : Health)
    → IsValid h
    → (h.state ≡ blocked) ⊎ ((0 < n) × (h.debounce ≤ h.bad_streak + n))
    → (run h (replicate n full)).state ≡ blocked
unfolding run
sustained zero h v (inl e) = e
sustained zero h v (inr (pos, enough)) = absurd (omega arith)
sustained (suc n) h v (inl e) =
    sustained n (react h full).0 (react-IsValid h full v) (inl (blocked_stays h e))
sustained (suc n) h v (inr (pos, enough)) = elim (full_step h v) [
  | inl e ↦ sustained n (react h full).0 (react-IsValid h full v) (inl e)
  | inr (more, short, other) ↦
      sustained n (react h full).0 (react-IsValid h full v)
        (inr (omega arith, omega (arith, debounce_full h)))
]

-- A ring that stays full blocks the transport, from any state, within as many samples as the debounce
-- length has.
pub full_blocks :
    (n : ℕ) (h : Health) → IsValid h → h.debounce ≤ n → (run h (replicate n full)).state ≡ blocked
full_blocks n h v enough = sustained n h v (inr (let p = v.debounced in omega arith, omega arith))

-- The drained samples that are still wanted before HEALTHY.
remaining_from : State → ℕ → ℕ → ℕ
remaining_from unavailable d g = 1
remaining_from healthy d g = 0
remaining_from degraded d g = d - g
remaining_from blocked d g = d - g + d
remaining_from recovering d g = d - g

remaining : Health → ℕ
unfolding remaining_from
remaining h = remaining_from h.state h.debounce h.good_streak

low_step : (h : Health) → IsValid h → remaining (react h low).0 ≤ remaining h - 1
unfolding react remaining
low_step h v = ground arith

remaining-le : (h : Health) → IsValid h → remaining h ≤ 2 * h.debounce
unfolding remaining
remaining-le h v = ground arith

none_left : (h : Health) → IsValid h → remaining h ≤ 0 → h.state ≡ healthy
unfolding remaining
none_left h v l = ground arith

drained_run :
    (n : ℕ) (h : Health) → IsValid h → remaining h ≤ n → (run h (replicate n low)).state ≡ healthy
unfolding run
drained_run zero h v enough = none_left h v (omega arith)
drained_run (suc n) h v enough =
    drained_run n (react h low).0 (react-IsValid h low v) (omega (arith, low_step h v))

-- A ring that stays drained makes the transport healthy, from any state, within twice as many samples
-- as the debounce length has.
pub low_heals :
    (n : ℕ) (h : Health)
    → IsValid h
    → 2 * h.debounce ≤ n
    → (run h (replicate n low)).state ≡ healthy
low_heals n h v enough = drained_run n h v (omega (arith, remaining-le h v))
