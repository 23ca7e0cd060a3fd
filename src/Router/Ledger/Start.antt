-- ===== src/Router/Ledger/Start.antt =====
-- src/adapt_ipc.c: what every outcome of `adapt_init` leaves of the sockets and of the mapped rings.
use adaptipc.Base.{
  ℕ, ◌+◌, ◌≡◌, refl, ap, ◌∙◌, ◌⊎◌, inl, inr, Bool, true, false, not, leb, if◌then◌else◌, Option,
  none, some, List, [], ◌∷◌, arith,
}
use adaptipc.Base.Errno.{Rc, done, fail, enomem}
use adaptipc.Double.{Double}
use adaptipc.World.{World, ◌>>=◌, return}
use adaptipc.World.Post.{Post, >>=-Post, Post-and}
use adaptipc.Ring.{Ring}
use adaptipc.Ring.Open.{Role, producer, consumer, Os, Object, attach, create}
use adaptipc.Uds.Open.{uds_open, Opened, with_endpoint, uds_open-Post, uds_open-rings}
use adaptipc.Router.Types.{
  Config, Ctx, mapped, gained, opened_ring, attach_with, create_with, ring_attach, ring_create,
  ring_close, is_producer, grow_with, grow_rxbuf,
}
use adaptipc.Router.Classify.{max_dgram}
use adaptipc.Router.Init.{
  Env, blank, failed, if_done, given, after_open, open_socket, after_ring, open_ring, adapt_init,
}

-- Opening a ring does not touch the sockets, and counts the ring where it gives one.
abbrev pub Gained : World → Rc × Option Ring → World → Type 0
Gained w opened w' = (w'.held ≡ w.held) × (w'.rings ≡ w.rings + gained opened)

answered :
    (os : Os) (name : List ℕ) (maps : List (Os × Object)) (w : World)
    (answer : Option (Rc × Option Ring))
    → Post (Gained w) (elim answer [
      | none ↦ none
      | some opened ↦ some (opened, opened_ring os name maps opened w)
    ])
answered os name maps w none = tt
answered os name maps w (some opened) = (refl, refl)

pub attach-Gained :
    (name : List ℕ) (capacity : ℕ) (role : Role) (w : World)
    → Post (Gained w) (ring_attach name capacity role w)
unfolding ring_attach
attach-Gained name capacity role w = by_maps w.maps
  where
    by_maps : (maps : List (Os × Object)) → Post (Gained w) (attach_with maps name capacity role w)
    by_maps [] = tt
    by_maps ((os, o) ∷ maps) = answered os name maps w (attach os name capacity role o)

create-Gained :
    (name : List ℕ) (capacity : ℕ) (role : Role) (w : World)
    → Post (Gained w) (ring_create name capacity role w)
unfolding ring_create
create-Gained name capacity role w = by_maps w.maps
  where
    by_maps : (maps : List (Os × Object)) → Post (Gained w) (create_with maps name capacity role w)
    by_maps [] = tt
    by_maps ((os, o) ∷ maps) = answered os name maps w (create os name capacity role o)

-- A close takes the ring out of the count, and nothing else.
pub ring_close-rings :
    (ring : Option Ring) (unlink_obj : Bool) (w : World) {n : ℕ}
    → w.rings ≡ n + mapped ring
    → (ring_close ring unlink_obj w).rings ≡ n
unfolding ring_close
ring_close-rings none unlink_obj w e = omega arith
ring_close-rings (some r) unlink_obj w e = omega arith

pub ring_close-held :
    (ring : Option Ring) (unlink_obj : Bool) (w : World)
    → (ring_close ring unlink_obj w).held ≡ w.held
unfolding ring_close
ring_close-held none unlink_obj w = refl
ring_close-held (some r) unlink_obj w = refl

module _ {D : Type 0} where
  -- A start gives a context with an endpoint, and counts its ring; or none, and leaves no ring. Without a
  -- context no socket stays open, but where memory ran out.
  abbrev pub Started : List ℕ → World → Rc × Option (Ctx D) → World → Type 0
  Started path before (rc, none) w =
      ((w.held.sockets ≡ before.held.sockets)
        ⊎ ((rc ≡ fail enomem) × (w.held.sockets ≡ before.held.sockets + 1)))
      × (w.rings ≡ before.rings)
  Started path before (rc, some c) w =
      (rc ≡ done 0)
      × (c.uds ≡ some path)
      × (w.held ≡ with_endpoint path before.held)
      × (w.rings ≡ before.rings + mapped c.ring)

  abbrev pub Grown : Ctx D → World → Rc × Ctx D → World → Type 0
  Grown ctx w (rc, c) w' =
      (w'.held ≡ w.held)
      × (w'.rings ≡ w.rings)
      × (c.ring ≡ ctx.ring)
      × (c.uds ≡ ctx.uds)
      × ((rc ≡ done 0) ⊎ (rc ≡ fail enomem))

  pub grow-Grown : (ctx : Ctx D) (size : ℕ) (w : World) → Post (Grown ctx w) (grow_rxbuf ctx size w)
  unfolding grow_rxbuf
  grow-Grown ctx size w = by_fit (leb size ctx.rxbuf_cap)
    where
      by_answers : (answers : List Bool) → Post (Grown ctx w) (grow_with answers ctx size w)
      by_answers [] = tt
      by_answers (true ∷ answers) = (refl, refl, refl, refl, inl refl)
      by_answers (false ∷ answers) = (refl, refl, refl, refl, inr refl)

      by_fit :
          (fits : Bool)
          → Post
              (Grown ctx w)
              (if fits then some ((done 0, ctx), w) else grow_with w.realloc ctx size w)
      by_fit true = (refl, refl, refl, refl, inl refl)
      by_fit false = by_answers w.realloc

  -- The failing end closes the ring.
  failed-Started :
      (path : List ℕ) (before : World) (e : ℕ) (ctx : Ctx D) (w : World)
      → w.rings ≡ before.rings + mapped ctx.ring
      → (w.held.sockets ≡ before.held.sockets)
        ⊎ ((Rc.fail e ≡ fail enomem) × (w.held.sockets ≡ before.held.sockets + 1))
      → Post (Started path before) (failed e ctx w)
  unfolding failed
  failed-Started path before e ctx w rings socks =
      (by_sockets socks, ring_close-rings ctx.ring (is_producer ctx.role) w rings)
    where
      same : (ring_close ctx.ring (is_producer ctx.role) w).held.sockets ≡ w.held.sockets
      same = ap (λ h. h.sockets) (ring_close-held ctx.ring (is_producer ctx.role) w)

      by_sockets :
          (w.held.sockets ≡ before.held.sockets)
            ⊎ ((Rc.fail e ≡ fail enomem) × (w.held.sockets ≡ before.held.sockets + 1))
          → ((ring_close ctx.ring (is_producer ctx.role) w).held.sockets ≡ before.held.sockets)
            ⊎ ((Rc.fail e ≡ fail enomem)
                × ((ring_close ctx.ring (is_producer ctx.role) w).held.sockets
                    ≡ before.held.sockets + 1))
      by_sockets (inl k) = inl (same ∙ k)
      by_sockets (inr (rc, k)) = inr (rc, same ∙ k)

  module _ ⦃dbl : Double D⦄ where
    open_socket-Post :
        (path : List ℕ) (before : World) (ctx : Ctx D) (w : World)
        → w.held ≡ before.held
        → w.rings ≡ before.rings + mapped ctx.ring
        → Post (Started path before) (open_socket path ctx w)
    unfolding open_socket
    open_socket-Post path before ctx w e rings =
        >>=-Post (λ out w'. Opened path w out w' × (w'.rings ≡ w.rings)) (Started path before)
          (uds_open path) (after_open ctx) w
          (Post-and (Opened path w) (λ out w'. w'.rings ≡ w.rings) (uds_open path w)
            (uds_open-Post path w) (uds_open-rings path w))
          (λ out w' (opened, same). by_open out w' opened (same ∙ rings))
      where
        grown :
            (uds : Option (List ℕ)) (w' : World)
            → uds ≡ some path
            → w'.held ≡ with_endpoint path before.held
            → w'.rings ≡ before.rings + mapped ctx.ring
            → (out : Rc × Ctx D) (w'' : World) → Grown (record ctx { uds = uds }) w' out w''
            → Post (Started path before) (if_done given out w'')
        grown uds w' f h k (done n, c) w'' (same, count, ring, kept, rc) =
            (refl, kept ∙ f, same ∙ h, rw ring (count ∙ k))
        grown uds w' f h k (fail x, c) w'' (same, count, ring, kept, inl bad) =
            absurd (ground arith)
        grown uds w' f h k (fail x, c) w'' (same, count, ring, kept, inr rc) =
            failed-Started path before x c w'' (rw ring (count ∙ k))
              (inr (rc, ap (λ y. y.sockets) (same ∙ h)))

        by_open :
            (out : Rc × Option (List ℕ)) (w' : World)
            → Opened path w out w'
            → w'.rings ≡ before.rings + mapped ctx.ring
            → Post (Started path before) (after_open ctx out w')
        by_open (fail x, uds) w' (inl (bad, f, h)) k = absurd (ground arith)
        by_open (fail x, uds) w' (inr (x', bad, gone, ends, socks)) k =
            failed-Started path before x ctx w' k (inl (socks ∙ ap (λ y. y.sockets) e))
        by_open (done n, uds) w' (inr (x', bad, gone, ends, socks)) k = absurd (ground arith)
        by_open (done n, uds) w' (inl (ok, f, h)) k =
            >>=-Post (Grown (record ctx { uds = uds }) w') (Started path before)
              (grow_rxbuf (record ctx { uds = uds }) max_dgram) (if_done given) w'
              (grow-Grown (record ctx { uds = uds }) max_dgram w')
              (grown uds w' f (h ∙ ap (with_endpoint path) e) k)

    after_ring-Post :
        (path : List ℕ) (before : World) (ctx : Ctx D) (opened : Rc × Option Ring) (w : World)
        → ctx.ring ≡ none
        → Gained before opened w
        → Post (Started path before) (after_ring path ctx opened w)
    unfolding after_ring
    after_ring-Post path before ctx (fail x, ring) w bare (e, rings) =
        failed-Started path before x ctx w (rw bare rings) (inl (ap (λ h. h.sockets) e))
    after_ring-Post path before ctx (done n, ring) w bare (e, rings) =
        let kept = record ctx { ring = ring; negot_done = true } in
        >>=-Post (Grown kept w) (Started path before) (grow_rxbuf kept ctx.shm_capacity)
          (if_done (open_socket path)) w (grow-Grown kept ctx.shm_capacity w) opened_next
      where
        opened_next :
            (out : Rc × Ctx D) (w' : World)
            → Grown (record ctx { ring = ring; negot_done = true }) w out w'
            → Post (Started path before) (if_done (open_socket path) out w')
        opened_next (done n, c) w' (same, count, has, kept, rc) =
            open_socket-Post path before c w' (same ∙ e) (rw has (count ∙ rings))
        opened_next (fail x, c) w' (same, count, has, kept, rc) =
            failed-Started path before x c w' (rw has (count ∙ rings))
              (inl (ap (λ h. h.sockets) (same ∙ e)))

    open_ring-Gained :
        (role : Role) (ctx : Ctx D) (w : World) → Post (Gained w) (open_ring role ctx w)
    unfolding open_ring
    open_ring-Gained consumer ctx w = attach-Gained ctx.shm_name ctx.shm_capacity consumer w
    open_ring-Gained producer ctx w = create-Gained ctx.shm_name ctx.shm_capacity producer w

    pub blank_ring : (role : Role) (cfg : Config D) (env : Env D) → (blank role cfg env).ring ≡ none
    unfolding blank
    blank_ring role cfg env = refl

    pub init-Started :
        (role : Role) (cfg : Config D) (env : Env D) (w : World)
        → Post (Started cfg.local_sock w) (adapt_init role cfg env w)
    unfolding adapt_init
    init-Started role cfg env w = by_calloc env.calloc (blank role cfg env).eager_shm
      where
        by_calloc :
            (calloc eager : Bool)
            → Post (Started cfg.local_sock w) (
                (if not calloc
                    then return (fail enomem, none)
                    else if eager
                    then (open_ring role (blank role cfg env)
                        >>= after_ring cfg.local_sock (blank role cfg env))
                    else open_socket cfg.local_sock (blank role cfg env))
                  w)
        by_calloc false eager = (inl refl, refl)
        by_calloc true true =
            >>=-Post (Gained w) (Started cfg.local_sock w) (open_ring role (blank role cfg env))
              (after_ring cfg.local_sock (blank role cfg env)) w
              (open_ring-Gained role (blank role cfg env) w)
              (λ opened w' gain.
                after_ring-Post cfg.local_sock w (blank role cfg env) opened w'
                  (blank_ring role cfg env) gain)
        by_calloc true false =
            let bare = ap mapped (blank_ring role cfg env) in
            open_socket-Post cfg.local_sock w (blank role cfg env) w refl (omega (arith, bare))
