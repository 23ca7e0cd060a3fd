-- ===== src/Ring/Blocking/Room.antt =====
-- src/shm_ringbuffer.c: a push that may block returns once the consumer has made room.
use adaptipc.Base.{
  ℕ, zero, suc, ◌^◌, ◌<◌, ◌≡◌, refl, sym, ◌≢◌, ◌⊎◌, inl, inr, Bool, true, false, lt→ltb, Option,
  none, some, List, [], ◌∷◌, ◌++◌, arith, length, ltb, ◌==◌, if◌then◌else◌,
}
use mathlib.Core.Path.{subst}
use adaptipc.Base.Errno.{Rc, done, fail, eagain, einval}
use adaptipc.Ring.{Ring, used, Segment, push_scatter}
use adaptipc.Ring.Inv.{Holds}
use adaptipc.Ring.Scatter.{flat, IsGood, ScatterFits, push_scatter_refines}
use adaptipc.Ring.Flow.{Round, hw_bytes, parked, wait_writable, resume, pass, retry, push_blocking}
use adaptipc.Ring.Waiting.{wait_writable_lem}
use adaptipc.Ring.Blocking.{Like, Honest, Waited, wait-Waited}

-- At that tail the ring stands below the high watermark, and the message fits.
abbrev pub IsRoomy : Ring → ℕ → List Segment → Type 0
IsRoomy a t segs =
    (used (record a { tail = t }) < hw_bytes a) × ScatterFits (record a { tail = t }) segs

ScatterFits-Like :
    (a r : Ring) (t : ℕ) (segs : List Segment)
    → Like a r
    → r.tail ≡ t
    → ScatterFits (record a { tail = t }) segs
    → ScatterFits r segs
ScatterFits-Like a r t segs (mem, head, size) tail fits = rw (head, size, tail) fits

module _ (a : Ring) (segs : List Segment) (w : Round) (back : List Round) where
  -- A wait that meets the round either ends there, or has it before it still.
  abbrev Meets : Option (Rc × Ring × List Round) → Type 0
  Meets none = ⊥
  Meets (some (rc, r, ws)) =
      Like a r × ((r.tail ≡ w.tail) ⊎ ((front : List Round) × (ws ≡ front ++ (w ∷ back))))

  wait-Meets :
      (front : List Round) (r : Ring)
      → Like a r
      → used (record a { tail = w.tail }) < hw_bytes a
      → Meets (wait_writable (front ++ (w ∷ back)) r)
  unfolding wait_writable
  wait-Meets [] r (mem, head, size) below =
      let near : used (record r { tail = w.tail }) < hw_bytes r = rw (head, size) below in
      rw (lt→ltb (used (record r { tail = w.tail })) (hw_bytes r) near)
        ((mem, head, size), inl refl)
  wait-Meets (x ∷ front) r like below =
      by_tests (ltb (used (record r { tail = x.tail })) (hw_bytes r))
        (ltb (used (record r { tail = x.tail2; flow_flag = 1 })) (hw_bytes r)) x.wait
        (wait-Meets front (parked r x) like below)
    where
      ws : List Round
      ws = front ++ (w ∷ back)

      by_code :
          (again : Bool) (e : ℕ)
          → Meets (wait_writable ws (parked r x))
          → Meets
              (if again then wait_writable ws (parked r x) else some (Rc.fail e, parked r x, ws))
      by_code true e go = go
      by_code false e go = (like, inr (front, refl))

      by_tests :
          (fast slow : Bool) (wait : Rc)
          → Meets (wait_writable ws (parked r x))
          → Meets (
              if fast
              then some (done 0, record r { tail = x.tail }, ws)
              else if slow
              then some (done 0, record r { tail = x.tail2; flow_flag = 0 }, ws)
              else elim wait [
                | done n ↦ wait_writable ws (parked r x)
                | fail e ↦
                    if e == eagain
                    then wait_writable ws (parked r x)
                    else some (fail e, parked r x, ws)
              ])
      by_tests true slow wait go = (like, inr (front, refl))
      by_tests false true wait go = (like, inr (front, refl))
      by_tests false false (done n) go = go
      by_tests false false (fail e) go = by_code (e == eagain) e go

  module _ (good : IsGood segs) (small : length (flat segs) < 2 ^ 63)
      (roomy : IsRoomy a w.tail segs) where
    -- With room there, the push succeeds.
    push_there :
        (go : List Round → Ring → Option (Rc × Ring × List Round)) (ws : List Round) (r : Ring)
        (q : List (List ℕ))
        → Like a r
        → r.tail ≡ w.tail
        → Holds r q
        → pass go ws (push_scatter r segs) ≢ none
    push_there go ws r q like tail holds =
        by_push (push_scatter r segs) (push_scatter_refines segs holds good small)
      where
        by_push :
            (pushed : Rc × Ring)
            → (ScatterFits r segs × (pushed.0 ≡ done 0) × Holds pushed.1 (q ++ (flat segs ∷ [])))
              ⊎ ((¬ ScatterFits r segs) × (pushed.0 ≢ done 0) × (pushed.1 ≡ r))
            → pass go ws pushed ≢ none
        by_push (done n, r') h = ground arith
        by_push (fail e, r') (inl (fits, ok, held)) = absurd (ground arith)
        by_push (fail e, r') (inr (over, bad, same)) =
            absurd (over (ScatterFits-Like a r w.tail segs like tail roomy.1))

    -- The round is seen now, or it is still to come, and the fuel is enough.
    abbrev Before : ℕ → List Round → Ring → Type 0
    Before fuel ws r =
        ((r.tail ≡ w.tail) × (0 < fuel))
        ⊎ ((front : List Round) × (ws ≡ front ++ (w ∷ back)) × (length ws < fuel))

    abbrev Returns : ℕ → Type 0
    Returns fuel =
        (ws : List Round) (r : Ring) (q : List (List ℕ))
        → Like a r
        → Holds r q
        → Honest a q ws
        → Before fuel ws r
        → retry fuel segs ws r ≢ none

    resume-Returns :
        (fuel : ℕ) (ws : List Round) (r : Ring) (q : List (List ℕ))
        → Returns fuel
        → length ws < suc fuel
        → (o : Option (Rc × Ring × List Round)) → wait_writable ws r ≡ o
        → Waited a q o
        → Meets o
        → resume (retry fuel segs) o ≢ none
    resume-Returns fuel ws r q go less none e h m = absurd m
    resume-Returns fuel ws r q go less (some (fail x, r', ws')) e h m = ground arith
    resume-Returns fuel ws r q go less (some (done n, r', ws')) e (gone, q', f, held, like, on) m =
        go ws' r' q' like held on (met m.1)
      where
        shorter : length ws' < length ws
        shorter = let (below, mem, head, size, l) = wait_writable_lem ws ws' r r' n e in l

        met :
            (r'.tail ≡ w.tail) ⊎ ((front : List Round) × (ws' ≡ front ++ (w ∷ back)))
            → Before fuel ws' r'
        met (inl tail) = inl (tail, let l = shorter in omega (arith, less, l))
        met (inr (front, k)) = inr (front, k, let l = shorter in omega (arith, less, l))

    retry-Returns : (fuel : ℕ) → Returns fuel
    unfolding retry
    retry-Returns zero ws r q like holds honest (inl (tail, none_left)) = absurd (omega arith)
    retry-Returns zero ws r q like holds honest (inr (front, e, none_left)) = absurd (omega arith)
    retry-Returns (suc fuel) ws r q like holds honest (inl (tail, some_left)) =
        push_there (retry fuel segs) ws r q like tail holds
    retry-Returns (suc fuel) ws r q like holds honest (inr (front, e, less)) =
        by_push (push_scatter r segs) (push_scatter_refines segs holds good small) (
          resume-Returns fuel ws r q (retry-Returns fuel) less (wait_writable ws r) refl
            (wait-Waited a q ws r like honest)
            (subst (λ x. Meets (wait_writable x r)) (sym e) (wait-Meets front r like roomy.0)))
      where
        by_code :
            (again : Bool) (x : ℕ) (o : Option (Rc × Ring × List Round))
            → o ≢ none
            → (if again then o else some (Rc.fail x, r, ws)) ≢ none
        by_code true x o h = h
        by_code false x o h = ground arith

        by_push :
            (pushed : Rc × Ring)
            → (ScatterFits r segs × (pushed.0 ≡ done 0) × Holds pushed.1 (q ++ (flat segs ∷ [])))
              ⊎ ((¬ ScatterFits r segs) × (pushed.0 ≢ done 0) × (pushed.1 ≡ r))
            → resume (retry fuel segs) (wait_writable ws r) ≢ none
            → pass (retry fuel segs) ws pushed ≢ none
        by_push (done n, r') h go = ground arith
        by_push (fail x, r') (inl (fits, ok, held)) go = absurd (ground arith)
        by_push (fail x, r') (inr (over, bad, same)) go =
            subst (λ y. pass (retry fuel segs) ws (fail x, y) ≢ none) (sym same)
              (by_code (x == eagain) x (resume (retry fuel segs) (wait_writable ws r)) go)

    -- A push that may block returns once there is room. Where the rounds show a consumer that only takes
    -- messages, and at the tail of one of them, whatever came before it, the ring stands below the high
    -- watermark and the message fits, the push has returned when the rounds end.
    pub push_blocking_returns :
        (q : List (List ℕ)) (front : List Round)
        → Holds a q
        → Honest a q (front ++ (w ∷ back))
        → push_blocking segs (front ++ (w ∷ back)) a ≢ none
    unfolding push_blocking
    push_blocking_returns q front holds honest =
        by_wait (wait_writable (front ++ (w ∷ back)) a)
          (wait-Waited a q (front ++ (w ∷ back)) a (refl, refl, refl) honest)
          (wait-Meets front a (refl, refl, refl) roomy.0)
      where
        met :
            (r : Ring) (ws : List Round)
            → (r.tail ≡ w.tail) ⊎ ((front : List Round) × (ws ≡ front ++ (w ∷ back)))
            → Before (suc (length ws)) ws r
        met r ws (inl tail) = inl (tail, omega arith)
        met r ws (inr (front, k)) = inr (front, k, omega arith)

        by_code :
            (bad : Bool) (x : ℕ) (r : Ring) (ws : List Round)
            → retry (suc (length ws)) segs ws r ≢ none
            → (if bad then retry (suc (length ws)) segs ws r else some (Rc.fail x, r, ws)) ≢ none
        by_code true x r ws h = h
        by_code false x r ws h = ground arith

        by_wait :
            (o : Option (Rc × Ring × List Round))
            → Waited a q o
            → Meets o
            → (elim o as (λ o. Option (Rc × Ring × List Round)) [
              | none ↦ none
              | some (rc, r', ws') ↦
                  let go = retry (suc (length ws')) segs ws' r' in
                  elim rc [
                    | done n ↦ go
                    | fail e ↦ if e == einval then go else some (fail e, r', ws')
                  ]
            ])
              ≢ none
        by_wait none h m = absurd m
        by_wait (some (done n, r', ws')) (gone, q', f, held, like, on) m =
            retry-Returns (suc (length ws')) ws' r' q' like held on (met r' ws' m.1)
        by_wait (some (fail x, r', ws')) (gone, q', f, held, like, on) m =
            by_code (x == einval) x r' ws'
              (retry-Returns (suc (length ws')) ws' r' q' like held on (met r' ws' m.1))
