-- ===== src/Showcase/Consistency.antt =====
-- showcase/decision_log.c: what the rows of the demonstrator's file say of one another.
use adaptipc.Base.{
  ℕ, zero, suc, ◌+◌, ◌≤◌, ◌<◌, ◌≡◌, refl, ap, Bool, true, false, Option, none, some, List, [], ◌∷◌,
  ◌==◌, if◌then◌else◌, length, arith, ◌⊎◌, inl, inr,
}
use adaptipc.Base.Errno.{Rc, done, fail}
use adaptipc.Double.{Double}
use adaptipc.Cost.Types.{Route}
use adaptipc.Showcase.{
  Endpoints, Row, Outcome, payload_size, tx, is_switch, rx_size, send_all, row_of, stopped,
  with_row, received, sent, messages, demonstrate,
}

abbrev pub switched_rows : {D : Type 0} → List (Row D) → ℕ
switched_rows [] = 0
switched_rows (row ∷ rows) = if row.switched then suc (switched_rows rows) else switched_rows rows

-- The rows are numbered from `i` on, hold the sizes of the messages, and each says whether its route is
-- another than the one before.
abbrev pub Chained : {D : Type 0} → (ℕ → ℕ) → ℕ → ℕ → Option Route → List (Row D) → Type 0
Chained rand msgs i prev [] = Unit
Chained rand msgs i prev (row ∷ rows) =
    (row.seq ≡ i)
    × (row.payload ≡ payload_size rand msgs i)
    × (row.switched ≡ is_switch prev row.route)
    × Chained rand msgs (i + 1) (some row.route) rows

-- What the loop leaves, from `left` messages on.
abbrev pub Logged : {D : Type 0} → (ℕ → ℕ) → ℕ → ℕ → ℕ → Option Route → ℕ → Outcome D → Type 0
Logged rand msgs left i prev switches out =
    Chained rand msgs i prev out.rows
    × (out.switches ≡ switches + switched_rows out.rows)
    × (((out.exit ≡ 0) × (length out.rows ≡ left)) ⊎ ((5 ≤ out.exit) × (length out.rows < left)))

abbrev pub LoggedOr :
    {D S : Type 0} → (ℕ → ℕ) → ℕ → ℕ → ℕ → Option Route → ℕ → Option (Outcome D × S) → Type 0
LoggedOr rand msgs left i prev switches none = Unit
LoggedOr rand msgs left i prev switches (some (out, s)) = Logged rand msgs left i prev switches out

module _ {D : Type 0} ⦃dbl : Double D⦄ {S : Type 0} (lib : Endpoints D S) (rand : ℕ → ℕ)
    (msgs attempts : ℕ) where
  stopped-Logged :
      (left i : ℕ) (prev : Option Route) (switches code : ℕ) (s : S)
      → 5 ≤ code
      → LoggedOr rand msgs (suc left) i prev switches (stopped lib code switches s)
  stopped-Logged left i prev switches code s high = (tt, omega arith, inr (high, omega arith))

  -- A message, in front of a loop that leaves what it should.
  sent-Logged :
      (next : Option Route → ℕ → S → Option (Outcome D × S)) (left i : ℕ) (prev : Option Route)
      (switches : ℕ)
      → ((p : Option Route) (n : ℕ) (s : S) → LoggedOr rand msgs left (i + 1) p n (next p n s))
      → (o : Option (Rc × S))
      → LoggedOr rand msgs
          (suc left)
          i
          prev
          switches
          (sent lib next prev switches i (payload_size rand msgs i) o)
  sent-Logged next left i prev switches go o = by_send o
    where
      size : ℕ
      size = payload_size rand msgs i

      -- A row, in front of what the rest of the loop leaves.
      by_rest :
          (row : Row D) (o : Option (Outcome D × S))
          → row.seq ≡ i
          → row.payload ≡ size
          → row.switched ≡ is_switch prev row.route
          → LoggedOr rand msgs left
              (i + 1)
              (some row.route)
              (if row.switched then switches + 1 else switches)
              o
          → LoggedOr rand msgs (suc left) i prev switches (with_row lib row o)
      by_rest row none e f g rest = tt
      by_rest row (some (out, s')) e f g (chain, count, ended) =
          ((e, f, g, chain), counted row.switched count, longer ended)
        where
          counted :
              (b : Bool)
              → out.switches ≡ (if b then switches + 1 else switches) + switched_rows out.rows
              → out.switches
                ≡ switches + (if b then suc (switched_rows out.rows) else switched_rows out.rows)
          counted true k = omega (arith, k)
          counted false k = k

          longer :
              ((out.exit ≡ 0) × (length out.rows ≡ left))
                ⊎ ((5 ≤ out.exit) × (length out.rows < left))
              → ((out.exit ≡ 0) × (suc (length out.rows) ≡ suc left))
                ⊎ ((5 ≤ out.exit) × (suc (length out.rows) < suc left))
          longer (inl (ok, all)) = inl (ok, ap suc all)
          longer (inr (bad, few)) = inr (bad, omega (arith, few))

      by_length :
          (same : Bool) (s' : S)
          → LoggedOr rand msgs (suc left) i prev switches (
              let row = row_of lib prev i size s' in
              if same
              then with_row lib row
                  (next (some row.route) (if row.switched then switches + 1 else switches) s')
              else stopped lib 6 switches s')
      by_length true s' =
          let row = row_of lib prev i size s' in
          by_rest row _ refl refl refl
            (go (some row.route) (if row.switched then switches + 1 else switches) s')
      by_length false s' = stopped-Logged left i prev switches 6 s' (omega arith)

      by_receipt :
          (o : Option ((Rc × List ℕ) × S))
          → LoggedOr rand msgs (suc left) i prev switches (received lib next prev switches i size o)
      by_receipt none = tt
      by_receipt (some ((fail e, bytes), s')) =
          stopped-Logged left i prev switches 6 s' (omega arith)
      by_receipt (some ((done n, bytes), s')) = by_length (n == size) s'

      by_code :
          (ok : Bool) (s' : S)
          → LoggedOr rand msgs (suc left) i prev switches (
              if ok
              then received lib next prev switches i size (lib.recv rx_size s')
              else stopped lib 5 switches s')
      by_code true s' = by_receipt (lib.recv rx_size s')
      by_code false s' = stopped-Logged left i prev switches 5 s' (omega arith)

      by_send :
          (o : Option (Rc × S))
          → LoggedOr rand msgs (suc left) i prev switches (sent lib next prev switches i size o)
      by_send none = tt
      by_send (some (fail e, s')) = stopped-Logged left i prev switches 5 s' (omega arith)
      by_send (some (done n, s')) = by_code (n == 0) s'

  messages-Logged :
      (left i : ℕ) (prev : Option Route) (switches : ℕ) (s : S)
      → LoggedOr rand msgs left i prev switches
          (messages lib rand msgs attempts left i prev switches s)
  unfolding messages
  messages-Logged zero i prev switches s = (tt, omega arith, inl (refl, refl))
  messages-Logged (suc left) i prev switches s =
      sent-Logged (messages lib rand msgs attempts left (i + 1)) left i prev switches
        (messages-Logged left (i + 1)) (send_all lib attempts (tx i (payload_size rand msgs i)) s)

  pub loop-Logged :
      (s : S) → LoggedOr rand msgs msgs 0 none 0 (demonstrate lib rand msgs attempts s)
  unfolding demonstrate
  loop-Logged s = messages-Logged msgs 0 none 0 s
