-- ===== src/Ring/Fifo.antt =====
-- Any sequence of calls on the ring: what was accepted comes out once, whole and in order.
use adaptipc.Base.{
  ℕ, ◌^◌, ◌<◌, ◌≡◌, refl, sym, ap, ◌∙◌, ◌⊎◌, ◌≢◌, inl, inr, zero, suc, ltb, Bool-cases, Option,
  none, some, List, [], ◌∷◌, ◌++◌, arith, length,
}
use mathlib.Core.List.{append_assoc}
use adaptipc.Base.Errno.{Rc, done, fail}
use adaptipc.Ring.{Ring, Segment, push, push_scatter, pop}
use adaptipc.Ring.Inv.{Holds}
use adaptipc.Ring.Push.{push_refines}
use adaptipc.Ring.Pop.{pop_refines, fifo_pop}
use adaptipc.Ring.Scatter.{flat, IsGood, push_scatter_refines}

-- The calls that the two sides make.
pub data Call : Type 0 where
  send : List ℕ → Call
  send_segments : List Segment → Call
  receive : ℕ → Call

-- A ring with what its pushes accepted and its pops handed over so far.
pub record Trace : Type 0 where
  pub ring : Ring
  pub accepted : List (List ℕ)
  pub delivered : List (List ℕ)

-- A push answers 0 when it accepts, a pop the length when it hands over.
abbrev accept : Rc → List ℕ → List (List ℕ) → List (List ℕ)
accept (done zero) m ms = ms ++ (m ∷ [])
accept (done (suc n)) m ms = ms
accept (fail e) m ms = ms

abbrev deliver : Rc → List ℕ → List (List ℕ) → List (List ℕ)
deliver (done n) m ms = ms ++ (m ∷ [])
deliver (fail e) m ms = ms

unfoldable pub after_pop : Trace → Option (Rc × List ℕ × Ring) → Option Trace
after_pop t none = none
after_pop t (some (rc, out, r')) =
    some (record t { ring = r'; delivered = deliver rc out t.delivered })

unfoldable pub step : Trace → Call → Option Trace
step t (send m) =
    let (rc, r') = push t.ring m in some (record t { ring = r'; accepted = accept rc m t.accepted })
step t (send_segments segs) =
    let (rc, r') = push_scatter t.ring segs in
    some (record t { ring = r'; accepted = accept rc (flat segs) t.accepted })
step t (receive n) = after_pop t (pop t.ring n)

unfoldable pub run : Trace → List Call → Option Trace
run t [] = some t
run t (c ∷ calls) = elim (step t c) [ none ↦ none | some t' ↦ run t' calls ]

-- A call whose segments are real ones, of a total length below 2 ^ 63.
abbrev pub IsSound : Call → Type 0
IsSound (send m) = Unit
IsSound (send_segments segs) = IsGood segs × (length (flat segs) < 2 ^ 63)
IsSound (receive n) = Unit

abbrev pub AllSound : List Call → Type 0
AllSound [] = Unit
AllSound (c ∷ calls) = IsSound c × AllSound calls

-- What is accepted is what is delivered, and then what the ring still holds.
pub record IsFifo (t : Trace) : Type 0 where
  pub queue : List (List ℕ)
  pub holds : Holds t.ring queue
  pub in_order : t.accepted ≡ t.delivered ++ queue

abbrev Sent : Ring → List (List ℕ) → List ℕ → Type 0 → Rc × Ring → Type 0
Sent r q m Fit (rc, r') =
    (Fit × (rc ≡ done 0) × Holds r' (q ++ (m ∷ []))) ⊎ ((¬ Fit) × (rc ≢ done 0) × (r' ≡ r))

Sent-IsFifo :
    (t : Trace) (m : List ℕ) (Fit : Type 0) (rc : Rc) (r' : Ring)
    → (f : IsFifo t) → Sent t.ring f.queue m Fit (rc, r')
    → IsFifo (record t { ring = r'; accepted = accept rc m t.accepted })
Sent-IsFifo t m Fit (done zero) r' f (inl (fits, e, h)) = record {
  queue = f.queue ++ (m ∷ []);
  holds = h;
  in_order = ap (λ l. l ++ (m ∷ [])) f.in_order ∙ append_assoc t.delivered f.queue (m ∷ []);
}
Sent-IsFifo t m Fit (done (suc n)) r' f (inl (fits, e, h)) = absurd (ground arith)
Sent-IsFifo t m Fit (fail x) r' f (inl (fits, e, h)) = absurd (ground arith)
Sent-IsFifo t m Fit (done zero) r' f (inr (unfit, e, same)) = absurd (e refl)
Sent-IsFifo t m Fit (done (suc n)) r' f (inr (unfit, e, same)) = record {
  queue = f.queue;
  holds = rw same f.holds;
  in_order = f.in_order;
}
Sent-IsFifo t m Fit (fail x) r' f (inr (unfit, e, same)) = record {
  queue = f.queue;
  holds = rw same f.holds;
  in_order = f.in_order;
}

after_pop-IsFifo :
    (t : Trace) (f : IsFifo t) (q : List (List ℕ)) (n : ℕ) (o : Option (Rc × List ℕ × Ring))
    (r' : Ring)
    → f.queue ≡ q
    → (let (rc, out, q') = fifo_pop q n in (o ≡ some (rc, out, r')) × Holds r' q')
    → (t' : Trace) × (after_pop t o ≡ some t') × IsFifo t'
unfolding after_pop
after_pop-IsFifo t f [] n o r' e (p, h) = (
  record t { ring = r' },
  rw p,
  record { queue = []; holds = h; in_order = f.in_order ∙ ap (◌++◌ t.delivered) e },
)
after_pop-IsFifo t f (m ∷ q) n o r' e (p, h) = elim (Bool-cases (ltb n (length m))) [
  | inl short ↦ (
    record t { ring = r' },
    rw (p, short),
    record {
      queue = m ∷ q;
      holds = rw short at h;
      in_order = f.in_order ∙ ap (◌++◌ t.delivered) e;
    },
  )
  | inr fits ↦ (
    record t { ring = r'; delivered = t.delivered ++ (m ∷ []) },
    rw (p, fits),
    record {
      queue = q;
      holds = rw fits at h;
      in_order = f.in_order ∙ ap (◌++◌ t.delivered) e ∙ sym (append_assoc t.delivered (m ∷ []) q);
    },
  )
]

-- A call keeps the order, and always returns.
step-IsFifo :
    (t : Trace) (c : Call) → IsSound c → IsFifo t → (t' : Trace) × (step t c ≡ some t') × IsFifo t'
unfolding step
step-IsFifo t (send m) g f = (_, refl, Sent-IsFifo t m _ _ _ f (push_refines m f.holds))
step-IsFifo t (send_segments segs) (g, small) f =
    (_, refl, Sent-IsFifo t (flat segs) _ _ _ f (push_scatter_refines segs f.holds g small))
step-IsFifo t (receive n) g f =
    let (r', e, h) = pop_refines f.queue n f.holds in
    after_pop-IsFifo t f f.queue n (pop t.ring n) r' refl (e, h)

run-IsFifo_from :
    (calls : List Call) (t : Trace)
    → AllSound calls
    → IsFifo t
    → (t' : Trace) × (run t calls ≡ some t') × IsFifo t'
unfolding run
run-IsFifo_from [] t g f = (t, refl, f)
run-IsFifo_from (c ∷ calls) t g f =
    let (t', e, f') = step-IsFifo t c g.0 f in
    let (u, e', f'') = run-IsFifo_from calls t' g.1 f' in (u, rw (e, run) e', f'')

-- From a ring that holds nothing, any sequence of pushes, scatter pushes (of segments with no null base,
-- below 2^63 bytes in all) and pops returns, and what the pushes accepted is, in order, what the pops
-- delivered followed by the queue that the ring holds at the end: no record is lost, made up, changed,
-- repeated or overtaken.
pub run-IsFifo :
    (r : Ring) (calls : List Call)
    → Holds r []
    → AllSound calls
    → (t : Trace) × (run (record { ring = r; accepted = []; delivered = [] }) calls ≡ some t)
      × IsFifo t
run-IsFifo r calls h g =
    run-IsFifo_from calls _ g (record { queue = []; holds = h; in_order = refl })
