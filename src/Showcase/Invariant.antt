-- ===== src/Showcase/Invariant.antt =====
-- showcase/decision_log.c: what the calls of the library keep, the loop keeps.
use adaptipc.Base.{
  ℕ, zero, suc, ◌+◌, Bool, true, false, Option, none, some, List, ◌==◌, if◌then◌else◌,
}
use adaptipc.Base.Errno.{Rc, done, fail, eagain}
use adaptipc.Double.{Double}
use adaptipc.Cost.Types.{Route}
use adaptipc.Showcase.{
  Endpoints, Row, Outcome, payload_size, tx, rx_size, send_all, row_of, stopped, with_row, received,
  sent, messages, demonstrate,
}

-- The state that comes back, if any does, is as `I` says.
abbrev pub Leaves : {A S : Type 0} → (S → Type 0) → Option (A × S) → Type 0
Leaves I none = Unit
Leaves I (some (x, s)) = I s

module _ {D : Type 0} ⦃dbl : Double D⦄ {S : Type 0} (lib : Endpoints D S) (I : S → Type 0)
    (send_keeps : (bytes : List ℕ) (s : S) → I s → Leaves I (lib.send bytes s))
    (recv_keeps : (max_size : ℕ) (s : S) → I s → Leaves I (lib.recv max_size s)) where
  send_all_keeps :
      (attempts : ℕ) (bytes : List ℕ) (s : S) → I s → Leaves I (send_all lib attempts bytes s)
  unfolding send_all
  send_all_keeps zero bytes s h = tt
  send_all_keeps (suc attempts) bytes s h =
      by_answer (lib.send bytes s) (send_keeps bytes s h) (send_all_keeps attempts bytes)
    where
      by_code :
          (again : Bool) (e : ℕ) (s' : S)
          → I s'
          → ((s : S) → I s → Leaves I (send_all lib attempts bytes s))
          → Leaves I (if again then send_all lib attempts bytes s' else some (Rc.fail e, s'))
      by_code true e s' h go = go s' h
      by_code false e s' h go = h

      by_answer :
          (o : Option (Rc × S))
          → Leaves I o
          → ((s : S) → I s → Leaves I (send_all lib attempts bytes s))
          → Leaves I (elim o as (λ o. Option (Rc × S)) [
            | none ↦ none
            | some (done n, s') ↦ some (done n, s')
            | some (fail e, s') ↦
                let again = send_all lib attempts bytes s' in
                if e == eagain then again else some (fail e, s')
          ])
      by_answer none h go = tt
      by_answer (some (done n, s')) h go = h
      by_answer (some (fail e, s')) h go = by_code (e == eagain) e s' h go

  sent_keeps :
      (next : Option Route → ℕ → S → Option (Outcome D × S)) (prev : Option Route)
      (switches i size : ℕ)
      → ((p : Option Route) (n : ℕ) (s : S) → I s → Leaves I (next p n s))
      → (o : Option (Rc × S)) → Leaves I o
      → Leaves I (sent lib next prev switches i size o)
  sent_keeps next prev switches i size go o h = by_send o h
    where
      by_rest :
          (row : Row D) (o : Option (Outcome D × S)) → Leaves I o → Leaves I (with_row lib row o)
      by_rest row none h = tt
      by_rest row (some (out, s)) h = h

      by_length :
          (same : Bool) (s : S)
          → I s
          → Leaves I (
              let row = row_of lib prev i size s in
              if same
              then with_row lib row
                  (next (some row.route) (if row.switched then switches + 1 else switches) s)
              else stopped lib 6 switches s)
      by_length true s h =
          let row = row_of lib prev i size s in
          by_rest row _ (go (some row.route) (if row.switched then switches + 1 else switches) s h)
      by_length false s h = h

      by_receipt :
          (o : Option ((Rc × List ℕ) × S))
          → Leaves I o
          → Leaves I (received lib next prev switches i size o)
      by_receipt none h = tt
      by_receipt (some ((fail e, bytes), s)) h = h
      by_receipt (some ((done n, bytes), s)) h = by_length (n == size) s h

      by_code :
          (ok : Bool) (s : S)
          → I s
          → Leaves I (
              if ok
              then received lib next prev switches i size (lib.recv rx_size s)
              else stopped lib 5 switches s)
      by_code true s h = by_receipt (lib.recv rx_size s) (recv_keeps rx_size s h)
      by_code false s h = h

      by_send : (o : Option (Rc × S)) → Leaves I o → Leaves I (sent lib next prev switches i size o)
      by_send none h = tt
      by_send (some (fail e, s)) h = h
      by_send (some (done n, s)) h = by_code (n == 0) s h

  module _ (rand : ℕ → ℕ) (msgs attempts : ℕ) where
    messages_keep :
        (left i : ℕ) (prev : Option Route) (switches : ℕ) (s : S)
        → I s
        → Leaves I (messages lib rand msgs attempts left i prev switches s)
    unfolding messages
    messages_keep zero i prev switches s h = h
    messages_keep (suc left) i prev switches s h =
        let size = payload_size rand msgs i in
        sent_keeps (messages lib rand msgs attempts left (i + 1)) prev switches i size
          (messages_keep left (i + 1)) (send_all lib attempts (tx i size) s)
          (send_all_keeps attempts (tx i size) s h)

    pub demonstrate_keeps : (s : S) → I s → Leaves I (demonstrate lib rand msgs attempts s)
    unfolding demonstrate
    demonstrate_keeps s h = messages_keep msgs 0 none 0 s h
