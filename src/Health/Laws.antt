-- ===== src/Health/Laws.antt =====
-- What one sample can do to the health record.
use adaptipc.Base.{Bool-cases, inl, inr, ◌⊎◌, ◌≡◌, ◌≢◌, Bool, true, false, arith, inc32, not}
use adaptipc.Health.{
  same, State, unavailable, healthy, degraded, blocked, recovering, Health, Band, full, high, slow,
  low, middle, react,
}

-- The arrows of the state machine.
infix 40 ◌⟶◌
pub data ◌⟶◌ : State → State → Type 0 where
  mapped : unavailable ⟶ healthy
  degrade : {s : State} → s ≢ degraded → s ⟶ degraded
  block : {s : State} → s ≢ blocked → s ⟶ blocked
  drained : blocked ⟶ recovering
  recovered : recovering ⟶ healthy
  cleared : degraded ⟶ healthy

-- The same as a test, on which the case analysis runs.
abbrev has_arrow : State → State → Bool
has_arrow s degraded = not (same s degraded)
has_arrow s blocked = not (same s blocked)
has_arrow unavailable healthy = true
has_arrow blocked recovering = true
has_arrow recovering healthy = true
has_arrow degraded healthy = true
has_arrow _ _ = false

arrow_of : (s t : State) → has_arrow s t ≡ true → s ⟶ t
arrow_of unavailable healthy e = mapped
arrow_of blocked recovering e = drained
arrow_of recovering healthy e = recovered
arrow_of degraded healthy e = cleared
arrow_of s degraded e = degrade (ground arith)
arrow_of s blocked e = block (ground arith)
arrow_of _ _ e = absurd (ground arith)

-- What one sample did, given by its result: a change along an arrow, which is counted and clears both
-- streaks, or no change and no count.
pub record IsStep (h : Health) (out : Health × Bool) : Type 0 where
  pub outcome :
      ((out.1 ≡ true)
        × (h.state ⟶ out.0.state)
        × (out.0.transitions ≡ inc32 h.transitions)
        × (out.0.bad_streak ≡ 0)
        × (out.0.good_streak ≡ 0))
      ⊎ ((out.1 ≡ false) × (out.0.state ≡ h.state) × (out.0.transitions ≡ h.transitions))
  pub debounce_kept : out.0.debounce ≡ h.debounce

changes :
    (h : Health) (b : Band)
    → (react h b).1 ≡ true
    → (has_arrow h.state (react h b).0.state ≡ true)
      × ((react h b).0.transitions ≡ inc32 h.transitions)
      × ((react h b).0.bad_streak ≡ 0)
      × ((react h b).0.good_streak ≡ 0)
unfolding react
changes h full e = ground arith
changes h high e = ground arith
changes h slow e = ground arith
changes h low e = ground arith
changes h middle e = ground arith

keeps :
    (h : Health) (b : Band)
    → (react h b).1 ≡ false
    → ((react h b).0.state ≡ h.state) × ((react h b).0.transitions ≡ h.transitions)
unfolding react
keeps h full e = ground arith
keeps h high e = ground arith
keeps h slow e = ground arith
keeps h low e = ground arith
keeps h middle e = ground arith

same_debounce : (h : Health) (b : Band) → (react h b).0.debounce ≡ h.debounce
unfolding react
same_debounce h full = ground arith
same_debounce h high = ground arith
same_debounce h slow = ground arith
same_debounce h low = ground arith
same_debounce h middle = ground arith

-- A sample that returns 1 moves the state along an arrow of the machine, counts one transition and
-- clears both streaks; a sample that returns 0 leaves the state and that count alone. The debounce
-- length never changes.
pub react-IsStep : (h : Health) (b : Band) → IsStep h (react h b)
react-IsStep h b = record {
  outcome = elim (Bool-cases (react h b).1) [
    | inl e ↦
        let (a, t, x, y) = changes h b e in inl (e, arrow_of h.state (react h b).0.state a, t, x, y)
    | inr e ↦ inr (e, (keeps h b e).0, (keeps h b e).1)
  ];
  debounce_kept = same_debounce h b;
}
