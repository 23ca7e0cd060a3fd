-- ===== src/Showcase/Recorded.antt =====
-- showcase/decision_log.c: the rows of the demonstrator's file against the calls that it made, by
-- endpoints that also record the size of every message that they accept.
pub mod Files
use adaptipc.Base.{
  ℕ, zero, suc, ◌+◌, ◌-◌, ◌/◌, ◌%◌, ◌^◌, ◌≤◌, ◌<◌, ◌≡◌, refl, sym, ap, ◌∙◌, Bool, true, false,
  Option, none, some, List, [], ◌∷◌, ◌++◌, ◌==◌, if◌then◌else◌, length, length-append, tabulate,
  arith, ◌⊎◌, inl, inr,
}
use mathlib.Core.Path.{subst}
use mathlib.Core.List.{append-nil, append_assoc}
use adaptipc.Base.Bytes.{u32_bytes}
use adaptipc.Base.Errno.{Rc, done, fail, eagain}
use adaptipc.Double.{Double}
use adaptipc.Cost.Types.{Route}
use adaptipc.Showcase.{
  Endpoints, Row, Outcome, payload_size, tx, rx_size, send_all, row_of, stopped, with_row, received,
  sent, messages,
}

-- What an answer to a send adds to the record: the size, where the message was accepted.
abbrev pub recorded : Rc → ℕ → List ℕ → List ℕ
recorded (done n) size log = if n == 0 then log ++ (size ∷ []) else log
recorded (fail e) size log = log

-- The same endpoints, with the record beside their state.
abbrev pub recording : {D S : Type 0} → Endpoints D S → Endpoints D (S × List ℕ)
recording lib = record {
  send = λ bytes (s, log). elim (lib.send bytes s) [
    | none ↦ none
    | some (rc, s') ↦ some (rc, (s', recorded rc (length bytes) log))
  ];
  recv = λ max_size (s, log). elim (lib.recv max_size s) [
    | none ↦ none
    | some (got, s') ↦ some (got, (s', log))
  ];
  last_route = λ b. lib.last_route b.0;
  get_ewma = λ b. lib.get_ewma b.0;
  shm_used_bytes = λ b. lib.shm_used_bytes b.0;
  shm_capacity = λ b. lib.shm_capacity b.0;
}

abbrev pub payloads : {D : Type 0} → List (Row D) → List ℕ
payloads [] = []
payloads (row ∷ rows) = row.payload ∷ payloads rows

length-tabulate : (f : ℕ → ℕ) (k n : ℕ) → length (tabulate f k n) ≡ n
length-tabulate f k zero = refl
length-tabulate f k (suc n) = ap suc (length-tabulate f (k + 1) n)

-- A message of the demonstrator has the size that was asked for.
length-tx : (i size : ℕ) → 8 ≤ size → length (tx i size) ≡ size
unfolding u32_bytes
length-tx i size h =
    let t = length-tabulate (λ k. 0x5a) 0 (size - 8) in
    omega (
      arith,
      t,
      length-append {0} (u32_bytes (i % 2 ^ 32) ++ u32_bytes (i / 2 ^ 32 % 2 ^ 32))
          (tabulate (λ k. 0x5a) 0 (size - 8)),
    )

pub payload_range :
    (rand : ℕ → ℕ) (msgs i : ℕ)
    → let p = payload_size rand msgs i in ((512 ≤ p) × (p < 576)) ⊎ ((16384 ≤ p) × (p < 16448))
payload_range rand msgs i = ground arith

-- What a send leaves of the record.
abbrev Accepts : {S : Type 0} → ℕ → List ℕ → Option (Rc × (S × List ℕ)) → Type 0
Accepts size log none = Unit
Accepts size log (some (done n, (s, l))) = l ≡ (if n == 0 then log ++ (size ∷ []) else log)
Accepts size log (some (fail e, (s, l))) = l ≡ log

-- What the loop leaves of the record: the sizes of the rows, and with exit code 6, where a message was
-- accepted and not received back, the size of that message.
abbrev pub Traced : {D S : Type 0} → List ℕ → Option (Outcome D × (S × List ℕ)) → Type 0
Traced log none = Unit
Traced log (some (out, (s, l))) =
    (((out.exit ≡ 0) ⊎ (out.exit ≡ 5)) × (l ≡ log ++ payloads out.rows))
    ⊎ ((out.exit ≡ 6) × (n : ℕ) × (l ≡ log ++ (payloads out.rows ++ (n ∷ []))))

module _ {D : Type 0} ⦃dbl : Double D⦄ {S : Type 0} (lib : Endpoints D S) where
  send_all-Accepts :
      (attempts : ℕ) (bytes : List ℕ) (s : S) (log : List ℕ)
      → Accepts (length bytes) log (send_all (recording lib) attempts bytes (s, log))
  unfolding send_all
  send_all-Accepts zero bytes s log = tt
  send_all-Accepts (suc attempts) bytes s log =
      by_answer (lib.send bytes s) (λ s'. send_all-Accepts attempts bytes s' log)
    where
      by_code :
          (again : Bool) (e : ℕ) (s' : S)
          → Accepts (length bytes) log (send_all (recording lib) attempts bytes (s', log))
          → Accepts (length bytes) log (
              if again
              then send_all (recording lib) attempts bytes (s', log)
              else some (Rc.fail e, (s', log)))
      by_code true e s' go = go
      by_code false e s' go = refl

      by_answer :
          (o : Option (Rc × S))
          → ((s' : S)
              → Accepts (length bytes) log (send_all (recording lib) attempts bytes (s', log)))
          → Accepts
              (length bytes)
              log
              (elim (elim o as (λ o. Option (Rc × (S × List ℕ))) [
                | none ↦ none
                | some (rc, s') ↦ some (rc, (s', recorded rc (length bytes) log))
              ])
                as (λ o. Option (Rc × (S × List ℕ))) [
                  | none ↦ none
                  | some (done n, s') ↦ some (done n, s')
                  | some (fail e, s') ↦
                      let again = send_all (recording lib) attempts bytes s' in
                      if e == eagain then again else some (fail e, s')
                ])
      by_answer none go = tt
      by_answer (some (done n, s')) go = refl
      by_answer (some (fail e, s')) go = by_code (e == eagain) e s' (go s')

  module _ (rand : ℕ → ℕ) (msgs attempts : ℕ) where
    sent-Traced :
        (next : Option Route → ℕ → S × List ℕ → Option (Outcome D × (S × List ℕ)))
        (prev : Option Route) (switches i size : ℕ) (log : List ℕ)
        → ((p : Option Route) (n : ℕ) (s : S) (l : List ℕ) → Traced l (next p n (s, l)))
        → (o : Option (Rc × (S × List ℕ))) → Accepts size log o
        → Traced log (sent (recording lib) next prev switches i size o)
    sent-Traced next prev switches i size log go o h = by_send o h
      where
        more : List ℕ
        more = log ++ (size ∷ [])

        by_rest :
            (row : Row D) (o : Option (Outcome D × (S × List ℕ)))
            → row.payload ≡ size
            → Traced more o
            → Traced log (with_row (recording lib) row o)
        by_rest row none e t = tt
        by_rest row (some (out, (s, l))) e (inl (k, t)) = inl (
          k,
          t
              ∙ append_assoc log (size ∷ []) (payloads out.rows)
              ∙ ap (λ p. log ++ (p ∷ payloads out.rows)) (sym e),
        )
        by_rest row (some (out, (s, l))) e (inr (k, n, t)) = inr (
          k,
          n,
          t
              ∙ append_assoc log (size ∷ []) (payloads out.rows ++ (n ∷ []))
              ∙ ap (λ p. log ++ (p ∷ (payloads out.rows ++ (n ∷ [])))) (sym e),
        )

        by_length :
            (same : Bool) (s : S)
            → Traced log (
                let row = row_of (recording lib) prev i size (s, more) in
                if same
                then with_row (recording lib) row (
                    next
                      (some row.route)
                      (if row.switched then switches + 1 else switches)
                      (s, more))
                else stopped (recording lib) 6 switches (s, more))
        by_length true s =
            let row = row_of (recording lib) prev i size (s, more) in
            by_rest row _ refl
              (go (some row.route) (if row.switched then switches + 1 else switches) s more)
        by_length false s = inr (refl, size, refl)

        by_receipt :
            (o : Option ((Rc × List ℕ) × S))
            → Traced log (
                received
                  (recording lib)
                  next
                  prev
                  switches
                  i
                  size
                  (elim o as (λ o. Option ((Rc × List ℕ) × (S × List ℕ))) [
                    | none ↦ none
                    | some (got, s') ↦ some (got, (s', more))
                  ]))
        by_receipt none = tt
        by_receipt (some ((fail e, bytes), s)) = inr (refl, size, refl)
        by_receipt (some ((done n, bytes), s)) = by_length (n == size) s

        by_code :
            (ok : Bool) (s : S) (l : List ℕ)
            → l ≡ (if ok then more else log)
            → Traced log (
                if ok
                then received
                    (recording lib)
                    next
                    prev
                    switches
                    i
                    size
                    ((recording lib).recv rx_size (s, l))
                else stopped (recording lib) 5 switches (s, l))
        by_code true s l e =
            subst
              (λ l. Traced log (
                received (recording lib) next prev switches i size
                  ((recording lib).recv rx_size (s, l))))
              (sym e) (by_receipt (lib.recv rx_size s))
        by_code false s l e = inl (inr refl, e ∙ sym (append-nil log))

        by_send :
            (o : Option (Rc × (S × List ℕ)))
            → Accepts size log o
            → Traced log (sent (recording lib) next prev switches i size o)
        by_send none h = tt
        by_send (some (fail e, (s, l))) h = inl (inr refl, h ∙ sym (append-nil log))
        by_send (some (done n, (s, l))) h = by_code (n == 0) s l h

    pub messages-Traced :
        (left i : ℕ) (prev : Option Route) (switches : ℕ) (s : S) (log : List ℕ)
        → Traced log (messages (recording lib) rand msgs attempts left i prev switches (s, log))
    unfolding messages
    messages-Traced zero i prev switches s log = inl (inl refl, sym (append-nil log))
    messages-Traced (suc left) i prev switches s log =
        let size = payload_size rand msgs i in
        sent-Traced (messages (recording lib) rand msgs attempts left (i + 1)) prev switches i size
          log (messages-Traced left (i + 1))
          (send_all (recording lib) attempts (tx i size) (s, log))
          (subst (λ n. Accepts n log (send_all (recording lib) attempts (tx i size) (s, log)))
            (length-tx i size (omega (arith, payload_range rand msgs i)))
            (send_all-Accepts attempts (tx i size) s log))
