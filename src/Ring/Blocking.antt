-- ===== src/Ring/Blocking.antt =====
-- src/shm_ringbuffer.c: `shm_ring_push_scatter_blocking` and the queue that the ring holds, while a
-- consumer takes messages from it.
pub mod Room
use adaptipc.Base.{
  ℕ, zero, suc, ◌^◌, ◌<◌, ◌≡◌, refl, sym, ap, ◌∙◌, ◌≢◌, ◌⊎◌, inl, inr, Bool, true, false, Option,
  none, some, List, [], ◌∷◌, ◌++◌, arith, length, ltb, ◌==◌, if◌then◌else◌,
}
use mathlib.Core.Path.{subst}
use adaptipc.Base.Errno.{Rc, done, fail, eagain, einval}
use adaptipc.Ring.{Ring, used, Segment, push_scatter}
use adaptipc.Ring.Inv.{Holds}
use adaptipc.Ring.Scatter.{flat, IsGood, push_scatter_refines}
use adaptipc.Ring.Flow.{Round, hw_bytes, parked, wait_writable, resume, pass, retry, push_blocking}

-- A ring with the bytes and the head of another.
abbrev pub Like : Ring → Ring → Type 0
Like a r = (r.mem ≡ a.mem) × (r.head ≡ a.head) × (r.capacity ≡ a.capacity)

Holds-Like :
    (a r : Ring) {q : List (List ℕ)} → Like a r → Holds (record a { tail = r.tail }) q → Holds r q
Holds-Like a r {q} (mem, head, size) h = record {
  shape = rw size h.shape;
  head_word = rw head h.head_word;
  tail_word = h.tail_word;
  filled = rw (head, size) h.filled;
  records = rw (mem, head, size) h.records;
}

-- What is left where a consumer has taken some messages, and its tail stands there.
abbrev pub Drains : Ring → List (List ℕ) → ℕ → List (List ℕ) → Type 0
Drains a q t q' = (gone : List (List ℕ)) × (q ≡ gone ++ q') × Holds (record a { tail = t }) q'

-- The rounds are what a consumer that only takes messages lets the producer see: each tail stands
-- behind some more of them.
abbrev pub Honest : Ring → List (List ℕ) → List Round → Type 0
Honest a q [] = Unit
Honest a q (w ∷ ws) =
    (q1 : List (List ℕ)) × (q2 : List (List ℕ)) × Drains a q w.tail q1
    × Drains a q1 w.tail2 q2
    × Honest a q1 ws
    × Honest a q2 ws

append_assoc : (xs ys zs : List (List ℕ)) → xs ++ (ys ++ zs) ≡ (xs ++ ys) ++ zs
append_assoc [] ys zs = refl
append_assoc (x ∷ xs) ys zs = ap (◌∷◌ x) (append_assoc xs ys zs)

-- The ring behind a wait: it holds a later part of the queue.
abbrev pub Waited : Ring → List (List ℕ) → Option (Rc × Ring × List Round) → Type 0
Waited a q none = Unit
Waited a q (some (rc, r, ws)) =
    (gone : List (List ℕ)) × (q' : List (List ℕ)) × (q ≡ gone ++ q')
    × Holds r q'
    × Like a r
    × Honest a q' ws

Waited-trans :
    (a : Ring) (q gone q' : List (List ℕ)) (o : Option (Rc × Ring × List Round))
    → q ≡ gone ++ q'
    → Waited a q' o
    → Waited a q o
Waited-trans a q gone q' none e h = tt
Waited-trans a q gone q' (some (rc, r, ws)) e (more, q'', f, holds, like, honest) =
    (gone ++ more, q'', e ∙ ap (λ x. gone ++ x) f ∙ append_assoc gone more q'', holds, like, honest)

pub wait-Waited :
    (a : Ring) (q : List (List ℕ)) (ws : List Round) (r : Ring)
    → Like a r
    → Honest a q ws
    → Waited a q (wait_writable ws r)
unfolding wait_writable
wait-Waited a q [] r like honest = tt
wait-Waited a q (w ∷ ws) r like (q1, q2, (g1, e1, h1), (g2, e2, h2), on1, on2) =
    by_tests (ltb (used seen) (hw_bytes r)) (ltb (used armed) (hw_bytes r)) w.wait (
      Waited-trans a q (g1 ++ g2) q2 (wait_writable ws (parked r w)) left
        (wait-Waited a q2 ws (parked r w) like on2))
  where
    seen : Ring
    seen = record r { tail = w.tail }

    armed : Ring
    armed = record r { tail = w.tail2; flow_flag = 1 }

    left : q ≡ (g1 ++ g2) ++ q2
    left = e1 ∙ ap (λ x. g1 ++ x) e2 ∙ append_assoc g1 g2 q2

    by_code :
        (again : Bool) (e : ℕ)
        → Waited a q (wait_writable ws (parked r w))
        → Waited a q
            (if again then wait_writable ws (parked r w) else some (Rc.fail e, parked r w, ws))
    by_code true e go = go
    by_code false e go = (g1 ++ g2, q2, left, Holds-Like a _ like h2, like, on2)

    by_tests :
        (fast slow : Bool) (wait : Rc)
        → Waited a q (wait_writable ws (parked r w))
        → Waited a q (
            if fast
            then some (done 0, seen, ws)
            else if slow
            then some (done 0, record armed { flow_flag = 0 }, ws)
            else elim wait [
              | done n ↦ wait_writable ws (parked r w)
              | fail e ↦
                  if e == eagain
                  then wait_writable ws (parked r w)
                  else some (fail e, parked r w, ws)
            ])
    by_tests true slow wait go = (g1, q1, e1, Holds-Like a _ like h1, like, on1)
    by_tests false true wait go = (g1 ++ g2, q2, left, Holds-Like a _ like h2, like, on2)
    by_tests false false (done n) go = go
    by_tests false false (fail e) go = by_code (e == eagain) e go

-- The outcome of a push that may block: what the consumer has left, and the message behind it, or not.
abbrev pub Blocked : List (List ℕ) → List Segment → Option (Rc × Ring × List Round) → Type 0
Blocked q segs none = Unit
Blocked q segs (some (rc, r, ws)) =
    (gone : List (List ℕ)) × (q' : List (List ℕ)) × (q ≡ gone ++ q')
    × (((rc ≡ done 0) × Holds r (q' ++ (flat segs ∷ []))) ⊎ ((rc ≢ done 0) × Holds r q'))

Blocked-trans :
    (q gone q' : List (List ℕ)) (segs : List Segment) (o : Option (Rc × Ring × List Round))
    → q ≡ gone ++ q'
    → Blocked q' segs o
    → Blocked q segs o
Blocked-trans q gone q' segs none e h = tt
Blocked-trans q gone q' segs (some (rc, r, ws)) e (more, q'', f, out) =
    (gone ++ more, q'', e ∙ ap (λ x. gone ++ x) f ∙ append_assoc gone more q'', out)

-- A push that does not wait.
abbrev Pushed : Ring → List (List ℕ) → List Segment → Rc × Ring → Type 0
Pushed r q segs (rc, r') =
    ((rc ≡ done 0) × Holds r' (q ++ (flat segs ∷ []))) ⊎ ((rc ≢ done 0) × (r' ≡ r))

module _ (a : Ring) (segs : List Segment) (good : IsGood segs)
    (small : length (flat segs) < 2 ^ 63) where
  push-Pushed : {r : Ring} {q : List (List ℕ)} → Holds r q → Pushed r q segs (push_scatter r segs)
  push-Pushed {r} {q} holds =
      elim (push_scatter_refines segs holds good small)
        as (λ x. Pushed r q segs (push_scatter r segs)) [
          | inl (fits, ok, held) ↦ inl (ok, held)
          | inr (over, bad, same) ↦ inr (bad, same)
        ]

  retry-Blocked :
      (fuel : ℕ) (ws : List Round) (r : Ring) (q : List (List ℕ))
      → Like a r
      → Holds r q
      → Honest a q ws
      → Blocked q segs (retry fuel segs ws r)
  unfolding retry
  retry-Blocked zero ws r q like holds honest = tt
  retry-Blocked (suc fuel) ws r q like holds honest =
      by_push (push_scatter r segs) (push-Pushed holds)
        (by_wait (wait_writable ws r) (wait-Waited a q ws r like honest) (retry-Blocked fuel))
    where
      by_wait :
          (o : Option (Rc × Ring × List Round))
          → Waited a q o
          → ((ws : List Round) (r : Ring) (q : List (List ℕ))
              → Like a r
              → Holds r q
              → Honest a q ws
              → Blocked q segs (retry fuel segs ws r))
          → Blocked q segs (resume (retry fuel segs) o)
      by_wait none h go = tt
      by_wait (some (done n, r', ws')) (gone, q', e, held, like', on) go =
          Blocked-trans q gone q' segs (retry fuel segs ws' r') e (go ws' r' q' like' held on)
      by_wait (some (fail x, r', ws')) (gone, q', e, held, like', on) go =
          (gone, q', e, inr (ground arith, held))

      by_code :
          (again : Bool) (e : ℕ) (o : Option (Rc × Ring × List Round))
          → Blocked q segs o
          → Blocked q segs (if again then o else some (fail e, r, ws))
      by_code true e o h = h
      by_code false e o h = ([], q, refl, inr (ground arith, holds))

      by_push :
          (pushed : Rc × Ring)
          → Pushed r q segs pushed
          → Blocked q segs (resume (retry fuel segs) (wait_writable ws r))
          → Blocked q segs (pass (retry fuel segs) ws pushed)
      by_push (done n, r') (inl (ok, held)) go = ([], q, refl, inl (ok, held))
      by_push (done n, r') (inr (bad, same)) go =
          ([], q, refl, inr (bad, subst (λ x. Holds x q) (sym same) holds))
      by_push (fail e, r') (inl (ok, held)) go = absurd (ground arith)
      by_push (fail e, r') (inr (bad, same)) go =
          subst (λ x. Blocked q segs (pass (retry fuel segs) ws (fail e, x))) (sym same)
            (by_code (e == eagain) e (resume (retry fuel segs) (wait_writable ws r)) go)

  -- A push that may block, against a consumer that only takes messages: where the ring holds `q`, and
  -- the rounds that the producer sees show such a consumer, it either has not returned when the rounds
  -- end; or the consumer has taken a first part of `q`, and the ring holds what is left, with the
  -- joined bytes behind it exactly if the result is 0.
  pub push_blocking_refines :
      (q : List (List ℕ)) (ws : List Round)
      → Holds a q
      → Honest a q ws
      → Blocked q segs (push_blocking segs ws a)
  unfolding push_blocking
  push_blocking_refines q ws holds honest =
      by_wait (wait_writable ws a) (wait-Waited a q ws a (refl, refl, refl) honest)
    where
      by_code :
          (bad : Bool) (e : ℕ) (r' : Ring) (ws' : List Round) (q' gone : List (List ℕ))
          → q ≡ gone ++ q'
          → Holds r' q'
          → Like a r'
          → Honest a q' ws'
          → Blocked q segs
              (if bad then retry (suc (length ws')) segs ws' r' else some (fail e, r', ws'))
      by_code true e r' ws' q' gone f held like on =
          Blocked-trans q gone q' segs _ f (retry-Blocked (suc (length ws')) ws' r' q' like held on)
      by_code false e r' ws' q' gone f held like on = (gone, q', f, inr (ground arith, held))

      by_wait :
          (o : Option (Rc × Ring × List Round))
          → Waited a q o
          → Blocked q segs (elim o as (λ o. Option (Rc × Ring × List Round)) [
            | none ↦ none
            | some (rc, r', ws') ↦
                let go = retry (suc (length ws')) segs ws' r' in
                elim rc [
                  | done n ↦ go
                  | fail e ↦ if e == einval then go else some (fail e, r', ws')
                ]
          ])
      by_wait none h = tt
      by_wait (some (done n, r', ws')) (gone, q', f, held, like, on) =
          Blocked-trans q gone q' segs _ f (retry-Blocked (suc (length ws')) ws' r' q' like held on)
      by_wait (some (fail e, r', ws')) (gone, q', f, held, like, on) =
          by_code (e == einval) e r' ws' q' gone f held like on
