-- ===== src/Health/Tests.antt =====
-- The theorems about the transport's health, on a monitor with the debounce length 8.
use adaptipc.Base.{◌≡◌, refl, List, [], ◌∷◌, arith}
use adaptipc.Health.{
  State, healthy, degraded, blocked, recovering, Health, Band, full, high, slow, low, middle, react,
}
use adaptipc.Health.Laws.{IsStep, react-IsStep}
use adaptipc.Health.Debounce.{run, replicate, IsValid, healthy_through, full_blocks, low_heals}

abbrev monitor : State → Health
monitor s = record { state = s; bad_streak = 0; good_streak = 0; transitions = 0; debounce = 8 }

monitor-IsValid : (s : State) → IsValid (monitor s)
monitor-IsValid s = ground arith

react-IsStep_example : IsStep (monitor degraded) (react (monitor degraded) full)
react-IsStep_example = react-IsStep (monitor degraded) full

abbrev mixed : List Band
mixed = full ∷ middle ∷ slow ∷ low ∷ high ∷ []

healthy_through_example : (run (monitor healthy) mixed).state ≡ healthy
healthy_through_example = healthy_through mixed (monitor healthy) refl (omega arith) (omega arith)

full_blocks_example : (run (monitor recovering) (replicate 8 full)).state ≡ blocked
full_blocks_example = full_blocks 8 (monitor recovering) (monitor-IsValid recovering) (omega arith)

low_heals_example : (run (monitor blocked) (replicate 16 low)).state ≡ healthy
low_heals_example = low_heals 16 (monitor blocked) (monitor-IsValid blocked) (omega arith)
