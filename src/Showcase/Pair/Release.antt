-- ===== src/Showcase/Pair/Release.antt =====
-- showcase/decision_log.c: what a demonstration that succeeds leaves of the sockets and rings.
use adaptipc.Base.{
  ℕ, ◌≤◌, ◌<◌, length, ◌≡◌, refl, ap, ◌∙◌, ◌≢◌, ◌⊎◌, Bool, true, false, Bool-cases, inl, inr,
  Option, none, some, List, [], ◌∷◌, ltb, ◌==◌, if◌then◌else◌, arith,
}
use mathlib.Core.Path.{subst}
use adaptipc.Base.Text.{same_text}
use adaptipc.Base.Errno.{Rc}
use adaptipc.Double.{Double}
use adaptipc.World.{World, Held}
use adaptipc.World.Post.{Post}
use adaptipc.Ring.{Ring}
use adaptipc.Ring.Open.{producer, consumer}
use adaptipc.Uds.Open.{unlink, with_endpoint}
use adaptipc.Router.Types.{Ctx, mapped}
use adaptipc.Router.Send.{adapt_send}
use adaptipc.Router.Recv.{adapt_recv}
use adaptipc.Router.Init.{Env, adapt_init}
use adaptipc.Router.Queries.{adapt_shutdown}
use adaptipc.Router.Ledger.{shutdown-held}
use adaptipc.Router.Ledger.Start.{Started, init-Started}
use adaptipc.Router.Ledger.Handles.{Moves, Moves-trans, Moves-refl, Via, second}
use adaptipc.Router.Ledger.Sending.{adapt_send-Moves}
use adaptipc.Router.Ledger.Receiving.{adapt_recv-Moves}
use adaptipc.Showcase.{Outcome, demonstrate}
use adaptipc.Showcase.Consistency.{LoggedOr, loop-Logged}
use adaptipc.Showcase.Invariant.{Leaves, demonstrate_keeps}
use adaptipc.Showcase.Pair.{
  Both, seen_by, Kernel, demo_config, after_send, after_recv, pair, at_exit, exited, with_both,
  with_consumer, with_producer, main,
}

unlink_twice : (path : List ℕ) (fs : List (List ℕ)) → unlink path (unlink path fs) ≡ unlink path fs
unfolding unlink
unlink_twice path [] = refl
unlink_twice path (f ∷ fs) = elim (Bool-cases (same_text path f)) [
  | inl y ↦ rw y (unlink_twice path fs)
  | inr n ↦ rw (n, n) (ap (◌∷◌ f) (unlink_twice path fs))
]

seen_by-mapped : (own other : Option Ring) → mapped (seen_by own other) ≡ mapped own
unfolding seen_by
seen_by-mapped none other = refl
seen_by-mapped (some own) none = refl
seen_by-mapped (some own) (some other) = by_name (same_text own.name other.name)
  where
    by_name :
        (same : Bool)
        → mapped (
            if same
            then some (record other { capacity = own.capacity; name = own.name; fd = own.fd })
            else some own)
          ≡ 1
    by_name true = refl
    by_name false = refl

abbrev with_files : List (List ℕ) → Held → Held
with_files fs h = record h { files = fs }

abbrev without : List ℕ → Held → Held
without path h = record h { files = unlink path h.files }

-- A process that is left as it was, but for a path.
abbrev pub Released : List ℕ → World → World → Type 0
Released path before after =
    (after.held ≡ record before.held { files = unlink path before.held.files })
    × (after.rings ≡ before.rings)

-- A process that still has the endpoint, and no fewer rings.
abbrev pub Keeping : List ℕ → World → World → Type 0
Keeping path before after =
    (after.held ≡ with_endpoint path before.held) × (before.rings ≤ after.rings)

-- What the exit code says of the two ends.
abbrev pub Ends : List ℕ → List ℕ → World → World → ℕ → World → World → Type 0
Ends pp cp w v exit w' v' =
    ((exit ≡ 0) × Released pp w w' × Released cp v v')
    ⊎ ((exit ≡ 2) × (w' ≡ w) × (v' ≡ v))
    ⊎ ((exit ≡ 3) × (v'.rings ≡ v.rings))
    ⊎ ((4 ≤ exit) × Keeping pp w w' × Keeping cp v v')

module _ {D : Type 0} ⦃dbl : Double D⦄ where
  -- Both ends hold what they held at their start, and the rings that they have mapped since.
  abbrev Settled : Both D → Both D → Type 0
  Settled start b = Moves start.p start.at_p b.p b.at_p × Moves start.c start.at_c b.c b.at_c

  -- What the other end does to the object maps no ring.
  seen-Moves :
      (a c : Ctx D) (w v : World) (other : Option Ring)
      → Moves a w c v
      → Moves a w (record c { ring = seen_by c.ring other }) v
  seen-Moves a c w v other (uds, held, rings) =
      let m = seen_by-mapped c.ring other in (uds, held, omega (arith, rings, m))

  send_keeps :
      (kernel : Kernel) (start : Both D) (bytes : List ℕ) (b : Both D)
      → Settled start b
      → Leaves (Settled start) ((pair kernel).send bytes b)
  unfolding pair
  send_keeps kernel start bytes b (at_p, at_c) =
      by_answer (adapt_send b.p bytes b.at_p) (adapt_send-Moves b.p bytes b.at_p)
    where
      by_answer :
          (o : Option ((Rc × Ctx D) × World))
          → Post (Via second b.p b.at_p) o
          → Leaves (Settled start) (after_send kernel b o)
      by_answer none m = tt
      by_answer (some ((rc, p'), w')) m = (
        Moves-trans start.p b.p p' start.at_p b.at_p w' at_p m,
        seen-Moves start.c b.c start.at_c b.at_c p'.ring at_c,
      )

  recv_keeps :
      (kernel : Kernel) (start : Both D) (max_size : ℕ) (b : Both D)
      → Settled start b
      → Leaves (Settled start) ((pair kernel).recv max_size b)
  unfolding pair
  recv_keeps kernel start max_size b (at_p, at_c) =
      by_answer (adapt_recv b.c max_size b.at_c) (adapt_recv-Moves b.c max_size b.at_c)
    where
      by_answer :
          (o : Option (((Rc × List ℕ) × Ctx D) × World))
          → Post (Via second b.c b.at_c) o
          → Leaves (Settled start) (after_recv b o)
      by_answer none m = tt
      by_answer (some ((out, c'), v')) m = (
        seen-Moves start.p b.p start.at_p b.at_p c'.ring at_p,
        Moves-trans start.c b.c c' start.at_c b.at_c v' at_c m,
      )

  abbrev EndsOr : List ℕ → List ℕ → World → World → Option (Outcome D × World × World) → Type 0
  EndsOr pp cp w v none = Unit
  EndsOr pp cp w v (some (out, w', v')) = Ends pp cp w v out.exit w' v'

  -- The two shutdowns, and the two `unlink`s behind them.
  shut :
      (path : List ℕ) (rc : Rc) (c c' : Ctx D) (w w' w'' : World)
      → path ≢ []
      → Started path w (rc, some c) w'
      → Moves c w' c' w''
      → let x = (adapt_shutdown c' w'').1 in
        Released path w (record x { held = record x.held { files = unlink path x.held.files } })
  shut path rc c c' w w' w'' named started moved =
      let (held, rings) = shutdown-held path rc c c' w w' w'' named started moved in
      (
        ap (λ h. without path h) held
            ∙ ap (λ fs. with_files fs w.held) (unlink_twice path w.held.files),
        rings,
      )

  kept :
      (path : List ℕ) (rc : Rc) (c c' : Ctx D) (w w' w'' : World)
      → Started path w (rc, some c) w'
      → Moves c w' c' w''
      → Keeping path w w''
  kept path rc c c' w w' w'' (ok, has, held, rings) (same, held', rings') =
      (held' ∙ held, omega (arith, rings, rings'))

  -- What a demonstration leaves, for each exit code: where `main` returns, on two paths that are not
  -- empty, the code is 0 and each end leaves the process with the endpoints, sockets and mapped rings
  -- that it had before, and with the paths that were bound but its own; or 2, and nothing has changed;
  -- or 3, and the consumer has mapped no ring; or at least 4, and both ends are still open.
  pub main-Ends :
      (kernel : Kernel) (rand : ℕ → ℕ) (msgs attempts : ℕ) (fopen : Bool) (pp cp : List ℕ)
      (env : Env D) (w v w' v' : World) (out : Outcome D)
      → pp ≢ []
      → cp ≢ []
      → main kernel rand msgs attempts fopen pp cp env w v ≡ some (out, w', v')
      → Ends pp cp w v out.exit w' v'
  unfolding main
  main-Ends kernel rand msgs attempts fopen pp cp env w v w' v' out named_p named_c e =
      subst (EndsOr pp cp w v) e (by_count (ltb msgs 6))
    where
      eager : Env D
      eager = record env { eager_shm = true }

      by_exit :
          (rc rc' : Rc) (p c : Ctx D) (w1 v1 : World)
          → Started pp w (rc, some p) w1
          → Started cp v (rc', some c) v1
          → (o : Option (Outcome D × Both D))
          → Leaves (Settled (record { p = p; at_p = w1; c = c; at_c = v1 })) o
          → LoggedOr rand msgs msgs 0 none 0 o
          → EndsOr pp cp w v (at_exit pp cp o)
      by_exit rc rc' p c w1 v1 sp sc none h logged = tt
      by_exit rc rc' p c w1 v1 sp sc (some (out, b)) (mp, mc) (chain, count, ended) = by_code ended
        where
          by_code :
              ((out.exit ≡ 0) × (length out.rows ≡ msgs))
                ⊎ ((5 ≤ out.exit) × (length out.rows < msgs))
              → EndsOr pp cp w v (at_exit pp cp (some (out, b)))
          by_code (inl (ok, all)) =
              let y : (out.exit == 0) ≡ true = ground arith in
              rw y (
                inl (
                  ok,
                  shut pp rc p b.p w w1 b.at_p named_p sp mp,
                  shut cp rc' c b.c v v1 b.at_c named_c sc mc,
                ))
          by_code (inr (bad, few)) =
              let n : (out.exit == 0) ≡ false = ground arith in
              rw n (
                inr (
                  inr (
                    inr (
                      omega (arith, bad),
                      kept pp rc p b.p w w1 b.at_p sp mp,
                      kept cp rc' c b.c v v1 b.at_c sc mc,
                    ))))

      by_file :
          (rc rc' : Rc) (p c : Ctx D) (w1 v1 : World) (opened : Bool)
          → Started pp w (rc, some p) w1
          → Started cp v (rc', some c) v1
          → EndsOr pp cp w v (
              with_both kernel rand msgs attempts opened pp cp
                (record { p = p; at_p = w1; c = c; at_c = v1 }))
      by_file rc rc' p c w1 v1 false sp sc = inr (
          inr (
            inr (
              omega arith,
              kept pp rc p p w w1 w1 sp (Moves-refl p w1),
              kept cp rc' c c v v1 v1 sc (Moves-refl c v1),
            )))
      by_file rc rc' p c w1 v1 true sp sc =
          let b : Both D = record { p = p; at_p = w1; c = c; at_c = v1 } in
          by_exit rc rc' p c w1 v1 sp sc (demonstrate (pair kernel) rand msgs attempts b)
            (demonstrate_keeps (pair kernel) (Settled b) (send_keeps kernel b) (recv_keeps kernel b)
              rand msgs attempts b (Moves-refl p w1, Moves-refl c v1))
            (loop-Logged (pair kernel) rand msgs attempts b)

      by_consumer :
          (rc : Rc) (p : Ctx D) (w1 : World)
          → Started pp w (rc, some p) w1
          → (o : Option ((Rc × Option (Ctx D)) × World)) → Post (Started cp v) o
          → EndsOr pp cp w v (with_consumer kernel rand msgs attempts fopen pp cp p w1 o)
      by_consumer rc p w1 sp none sc = tt
      by_consumer rc p w1 sp (some ((rc', none), v1)) sc = inr (inr (inl (refl, sc.1)))
      by_consumer rc p w1 sp (some ((rc', some c), v1)) sc = by_file rc rc' p c w1 v1 fopen sp sc

      by_producer :
          (o : Option ((Rc × Option (Ctx D)) × World))
          → Post (Started pp w) o
          → EndsOr pp cp w v (
              with_producer kernel rand msgs attempts fopen pp cp
                (adapt_init consumer (demo_config cp) eager)
                v
                o)
      by_producer none sp = tt
      by_producer (some ((rc, none), w1)) sp = inr (inr (inl (refl, refl)))
      by_producer (some ((rc, some p), w1)) sp =
          by_consumer rc p w1 sp (adapt_init consumer (demo_config cp) eager v)
            (init-Started consumer (demo_config cp) eager v)

      by_count :
          (few : Bool)
          → EndsOr pp cp w v (
              if few
              then exited 2 w v
              else with_producer kernel rand msgs attempts fopen pp cp
                  (adapt_init consumer (demo_config cp) eager)
                  v
                  (adapt_init producer (demo_config pp) eager w))
      by_count true = inr (inl (refl, refl, refl))
      by_count false =
          by_producer (adapt_init producer (demo_config pp) eager w)
            (init-Started producer (demo_config pp) eager w)
