-- ===== src/Showcase/Recorded/Files.antt =====
-- showcase/decision_log.c: the rows of the demonstrator's file, its exit code and the messages accepted.
use adaptipc.Base.{
  ℕ, ◌+◌, ◌≤◌, ◌<◌, ◌≡◌, ◌≢◌, Bool, true, false, Option, none, some, List, [], ◌∷◌, ◌++◌, length,
  ◌⊎◌,
}
use adaptipc.Double.{Double}
use adaptipc.Cost.Types.{Route}
use adaptipc.Showcase.{Row, Outcome}
use adaptipc.Showcase.Recorded.{payloads}

-- Whether a row is marked as a switch, by the route of the row before it, if there is one.
abbrev pub Marked : Option Route → Route → Bool → Type 0
Marked none route switched = switched ≡ false
Marked (some before) route switched =
    ((route ≡ before) × (switched ≡ false)) ⊎ ((route ≢ before) × (switched ≡ true))

-- The rows are numbered from `i` on, have the sizes of the small or of the large messages, and are marked
-- by the row before.
abbrev pub Rows : {D : Type 0} → ℕ → Option Route → List (Row D) → Type 0
Rows i prev [] = Unit
Rows i prev (row ∷ rows) =
    (row.seq ≡ i)
    × (((512 ≤ row.payload) × (row.payload < 576))
        ⊎ ((16384 ≤ row.payload) × (row.payload < 16448)))
    × Marked prev row.route row.switched
    × Rows (i + 1) (some row.route) rows

-- The exit code, by the number of messages, the rows, and the sizes that were accepted.
abbrev pub Exits : {D : Type 0} → ℕ → Outcome D → List ℕ → Type 0
Exits msgs out log =
    ((out.exit ≡ 0) × (length out.rows ≡ msgs) × (log ≡ payloads out.rows))
    ⊎ ((out.exit ≡ 5) × (length out.rows < msgs) × (log ≡ payloads out.rows))
    ⊎ ((out.exit ≡ 6) × (length out.rows < msgs) × (n : ℕ) × (log ≡ payloads out.rows ++ (n ∷ [])))
