-- ===== src/Router/Ledger/Handles.antt =====
-- src/adapt_ipc.c: the mapped rings are the rings that contexts have, through the handshake.
use adaptipc.Base.{
  ℕ, ◌+◌, ◌≡◌, refl, ap, ◌∙◌, Bool, true, false, ◌==◌, ltb, if◌then◌else◌, Option, none, some, List,
  [], ◌∷◌, arith, length, add64, ◌||◌, not, drop, get_or,
}
use adaptipc.Base.Errno.{Rc, done, fail}
use adaptipc.World.{World, M, ◌>>=◌, return}
use adaptipc.World.Post.{Post, Post-map, >>=-Post}
use adaptipc.Ring.{Ring}
use adaptipc.Ring.Open.{producer, consumer}
use adaptipc.Uds as Uds
use adaptipc.Router.Types.{Ctx, Stats, count, mapped, ring_attach, grow_rxbuf, ring_close}
use adaptipc.Router.Negotiate.{
  tag_ctrl, setup_req, setup_ack, frame_u32, c_string, has_nul, keep_grown, keep_mapped,
  producer_map_ring, grown_status, map_status, serve_setup, acknowledge, handle_control,
}
use adaptipc.Router.Ledger.Start.{
  Gained, attach-Gained, Grown, grow-Grown, ring_close-rings, ring_close-held,
}
use adaptipc.Router.Ledger.Still.{Still, send-Still}

module _ {D : Type 0} where
  -- The endpoint is the same, no socket was opened or closed, and as many rings were mapped as the
  -- context has gained.
  abbrev pub Moves : Ctx D → World → Ctx D → World → Type 0
  Moves a w c w' =
      (c.uds ≡ a.uds) × (w'.held ≡ w.held) × (w'.rings + mapped a.ring ≡ w.rings + mapped c.ring)

  -- Neither the context's handles nor what the process holds changed.
  abbrev pub Stays : Ctx D → World → Ctx D → World → Type 0
  Stays a w c w' = (c.uds ≡ a.uds) × (c.ring ≡ a.ring) × (w'.held ≡ w.held) × (w'.rings ≡ w.rings)

  pub Stays-Moves :
      (a : Ctx D) (w : World) (c : Ctx D) (w' : World) → Stays a w c w' → Moves a w c w'
  Stays-Moves a w c w' (uds, ring, held, rings) =
      let m = ap mapped ring in (uds, held, omega (arith, m, rings))

  pub Moves-trans : (a b c : Ctx D) (w v u : World) → Moves a w b v → Moves b v c u → Moves a w c u
  Moves-trans a b c w v u (e, f, g) (e', f', g') = (e' ∙ e, f' ∙ f, omega (arith, g, g'))

  -- What a computation on a context returns moves from it; `f` and `g` say where in a result the context
  -- stands.
  abbrev pub Via : {A : Type 0} → (A → Ctx D) → Ctx D → World → A → World → Type 0
  Via f a w x w' = Moves a w (f x) w'

  pub Moves-Post :
      {A : Type 0} (f : A → Ctx D) (a b : Ctx D) (w v : World) (o : Option (A × World))
      → Moves a w b v
      → Post (Via f b v) o
      → Post (Via f a w) o
  Moves-Post f a b w v o m p =
      Post-map (Via f b v) (Via f a w) o p (λ x u q. Moves-trans a b (f x) w v u m q)

  -- A step on contexts, then another.
  pub >>=-Moves :
      {A B : Type 0} (f : A → Ctx D) (g : B → Ctx D) (a : Ctx D) (m : M A) (k : A → M B) (w : World)
      → Post (Via f a w) (m w)
      → ((x : A) (v : World) → Post (Via g (f x) v) (k x v))
      → Post (Via g a w) ((m >>= k) w)
  >>=-Moves f g a m k w p h =
      >>=-Post (Via f a w) (Via g a w) m k w p (λ x v q. Moves-Post g a (f x) w v (k x v) q (h x v))

  -- A call of the system, then a step.
  pub >>=-Still :
      {A B : Type 0} (g : B → Ctx D) (a : Ctx D) (m : M A) (k : A → M B) (w : World)
      → Post (Still w) (m w)
      → ((x : A) (v : World) → Post (Via g a v) (k x v))
      → Post (Via g a w) ((m >>= k) w)
  >>=-Still g a m k w p h = >>=-Post (Still w) (Via g a w) m k w p (λ x v (held, rings).
      Moves-Post g a a w v (k x v) (Stays-Moves a w a v (refl, refl, held, rings)) (h x v))

  -- A step that starts from a context with the same handles.
  pub Moves_same :
      {A : Type 0} (f : A → Ctx D) (a b : Ctx D) (w : World) (o : Option (A × World))
      → b.uds ≡ a.uds
      → b.ring ≡ a.ring
      → Post (Via f b w) o
      → Post (Via f a w) o
  Moves_same f a b w o e r p = Moves-Post f a b w w o (Stays-Moves a w b w (e, r, refl, refl)) p

  pub Moves-refl : (a : Ctx D) (w : World) → Moves a w a w
  Moves-refl a w = (refl, refl, refl)

  pub count-Moves : (a : Ctx D) (st : Stats) (w : World) → Moves a w (count a st) w
  count-Moves a st w = Stays-Moves a w (count a st) w (count_uds a st, count_ring a st, refl, refl)
    where
      count_uds : (a : Ctx D) (st : Stats) → (count a st).uds ≡ a.uds
      count_uds a st = ground arith

      count_ring : (a : Ctx D) (st : Stats) → (count a st).ring ≡ a.ring
      count_ring a st = ground arith

  abbrev pub second : {A : Type 0} → A × Ctx D → Ctx D
  second x = x.1

  abbrev pub whole : Ctx D → Ctx D
  whole c = c

  -- The ring that a handshake opens, from a context without one: kept, or closed again.
  abbrev Bare : {A : Type 0} → Ctx D → World → A × Ctx D → World → Type 0
  Bare a w (x, c) w' = Moves a w c w'

  keep_grown-Bare :
      (a : Ctx D) (w : World) (ring : Option Ring) (out : Rc × Ctx D) (v : World)
      → a.ring ≡ none
      → out.1.uds ≡ a.uds
      → out.1.ring ≡ ring
      → v.held ≡ w.held
      → v.rings ≡ w.rings + mapped ring
      → Post (Bare a w) (keep_grown out v) × Post (Bare a w) (grown_status out v)
  unfolding keep_grown grown_status
  keep_grown-Bare a w ring (done n, c) v bare uds same held rings =
      let z = ap mapped bare in
      let m = ap mapped same in
      let moved : Moves a w c v = (uds, held, omega (arith, z, m, rings)) in (moved, moved)
  keep_grown-Bare a w ring (fail e, c) v bare uds same held rings =
      let z = ap mapped bare in
      let m = ap mapped same in
      let closed = ring_close-rings c.ring false v {n = w.rings} (omega (arith, m, rings)) in
      let moved : Moves a w (record c { ring = none }) (ring_close c.ring false v) =
        (uds, ring_close-held c.ring false v ∙ held, omega (arith, z, closed)) in
      (moved, moved)

  pub producer_map_ring-Moves :
      (a : Ctx D) (w : World) → a.ring ≡ none → Post (Via second a w) (producer_map_ring a w)
  unfolding producer_map_ring
  producer_map_ring-Moves a w bare =
      >>=-Post (Gained w) (Bare a w) (ring_attach a.neg_name a.shm_capacity producer)
        (keep_mapped a a.shm_capacity) w (attach-Gained a.neg_name a.shm_capacity producer w) kept
    where
      kept :
          (opened : Rc × Option Ring) (v : World)
          → Gained w opened v
          → Post (Bare a w) (keep_mapped a a.shm_capacity opened v)
      kept (fail x, ring) v (held, rings) = (refl, held, omega (arith, rings))
      kept (done n, ring) v (held, rings) =
          let b = record a { ring = ring } in
          >>=-Post (Grown b v) (Bare a w) (grow_rxbuf b a.shm_capacity) keep_grown v
            (grow-Grown b a.shm_capacity v)
            (λ out u (held', rings', same, uds, rc).
              (keep_grown-Bare a w ring out u bare uds same (held' ∙ held) (rings' ∙ rings)).0)

  serve_setup-Moves :
      (a : Ctx D) (size : ℕ) (name : List ℕ) (w : World)
      → Post (Via second a w) (serve_setup a size name w)
  unfolding serve_setup
  serve_setup-Moves a size name w = served a.ring refl
    where
      kept :
          a.ring ≡ none
          → (opened : Rc × Option Ring) (v : World) → Gained w opened v
          → Post (Bare a w) (map_status a size opened v)
      kept bare (fail x, ring) v (held, rings) = (refl, held, omega (arith, rings))
      kept bare (done n, ring) v (held, rings) =
          let b = record a { ring = ring } in
          >>=-Post (Grown b v) (Bare a w) (grow_rxbuf b size) grown_status v (grow-Grown b size v)
            (λ out u (held', rings', same, uds, rc).
              (keep_grown-Bare a w ring out u bare uds same (held' ∙ held) (rings' ∙ rings)).1)

      served :
          (ring : Option Ring)
          → a.ring ≡ ring
          → Post (Via second a w) (
              (elim ring as (λ x. M (ℕ × Ctx D)) [
                | none ↦ ring_attach name size consumer >>= map_status a size
                | some r ↦ return (0, a)
              ])
                w)
      served none bare =
          >>=-Post (Gained w) (Bare a w) (ring_attach name size consumer) (map_status a size) w
            (attach-Gained name size consumer w) (kept bare)
      served (some r) e = Moves-refl a w

  acknowledge-Moves : (out : ℕ × Ctx D) (w : World) → Post (Via whole out.1 w) (acknowledge out w)
  unfolding acknowledge
  acknowledge-Moves (status, c) w =
      >>=-Still whole c (Uds.send (tag_ctrl ∷ setup_ack ∷ status ∷ [])) _ w
        (send-Still (tag_ctrl ∷ setup_ack ∷ status ∷ []) w) (λ rc v. by_status v (status == 0))
    where
      counted : Ctx D
      counted = count c (record c.st { shm_setup_acks = add64 c.st.shm_setup_acks 1 })

      by_status : (v : World) (ok : Bool) → Moves c v (if ok then counted else c) v
      by_status v true = count-Moves c _ v
      by_status v false = Moves-refl c v

  pub handle_control-Moves :
      (a : Ctx D) (frame : List ℕ) (w : World) → Post (Via whole a w) (handle_control a frame w)
  unfolding handle_control
  handle_control-Moves a frame w =
      by_guards (ltb (length frame) 7 || not (get_or frame 1 0 == setup_req)) (
        (frame_u32 frame 2 == 0)
        || ltb 1_073_741_824 (frame_u32 frame 2)
        || not (has_nul (drop 6 frame)))
    where
      by_guards :
          (short bad : Bool)
          → Post (Via whole a w) (
              (if short
                  then return a
                  else if bad
                  then return a
                  else (serve_setup a (frame_u32 frame 2) (c_string (drop 6 frame))
                      >>= acknowledge))
                w)
      by_guards true bad = Moves-refl a w
      by_guards false true = Moves-refl a w
      by_guards false false =
          >>=-Moves second whole a (serve_setup a (frame_u32 frame 2) (c_string (drop 6 frame)))
            acknowledge w (serve_setup-Moves a (frame_u32 frame 2) (c_string (drop 6 frame)) w)
            acknowledge-Moves
