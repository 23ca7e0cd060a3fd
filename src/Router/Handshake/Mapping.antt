-- ===== src/Router/Handshake/Mapping.antt =====
-- src/adapt_ipc.c: where the ring that an end of the handshake keeps comes from.
use adaptipc.Base.{
  ℕ, ◌≡◌, refl, ap, ◌∙◌, inl, inr, Bool, true, false, leb, Bool-cases, Option, none, some, List, [],
  ◌∷◌, arith,
}
use adaptipc.Base.Errno.{Rc, done, fail}
use adaptipc.World.{World, M, ◌>>=◌, return}
use adaptipc.Uds as Uds
use adaptipc.Ring.{Ring}
use adaptipc.Ring.Open.{Role, producer, consumer, Os, Object, attach}
use adaptipc.World.Post.{Post, >>=-Post, >>=-Post_any}
use adaptipc.Router.Types.{Ctx, opened_ring, attach_with, grow_with, ring_attach, grow_rxbuf}
use adaptipc.Router.Negotiate.{
  serve_setup, acknowledge, producer_map_ring, keep_mapped, keep_grown, map_status, grown_status,
  tag_ctrl, setup_ack,
}

-- A ring that a served request leaves comes from an attachment by that name and capacity.
abbrev pub Attached : List ℕ → ℕ → Role → Option Ring → Type 0
Attached name cap role ring =
    (r : Ring)
    → ring ≡ some r
    → (os : Os) × (o : Object) × (rc : Rc) × (attach os name cap role o ≡ some (rc, some r))

attach-Post :
    (name : List ℕ) (cap : ℕ) (role : Role) (w : World)
    → Post (λ opened w'. Attached name cap role opened.1) (ring_attach name cap role w)
unfolding ring_attach
attach-Post name cap role w = by_maps w.maps
  where
    by_answer :
        (os : Os) (o : Object) (maps : List (Os × Object)) (answer : Option (Rc × Option Ring))
        → attach os name cap role o ≡ answer
        → Post
            (λ opened w'. Attached name cap role opened.1)
            (elim answer [
              | none ↦ none
              | some opened ↦ some (opened, opened_ring os name maps opened w)
            ])
    by_answer os o maps none e = tt
    by_answer os o maps (some (rc, ring)) e = λ r k. (os, o, rc, e ∙ ap (λ x. some (rc, x)) k)

    by_maps :
        (maps : List (Os × Object))
        → Post (λ opened w'. Attached name cap role opened.1) (attach_with maps name cap role w)
    by_maps [] = tt
    by_maps ((os, o) ∷ maps) = by_answer os o maps (attach os name cap role o) refl

none-Attached :
    (name : List ℕ) (cap : ℕ) (role : Role) (ring : Option Ring)
    → ring ≡ none
    → Attached name cap role ring
none-Attached name cap role ring e r k = absurd (ground arith)

module _ {D : Type 0} where
  grow-Post :
      (ctx : Ctx D) (cap : ℕ) (w : World)
      → Post (λ grown w'. grown.1.ring ≡ ctx.ring) (grow_rxbuf ctx cap w)
  unfolding grow_rxbuf
  grow-Post ctx cap w = elim (Bool-cases (leb cap ctx.rxbuf_cap)) [
    | inl y ↦ rw y refl
    | inr n ↦ rw n (by_answers w.realloc)
  ]
    where
      by_answers :
          (answers : List Bool)
          → Post (λ grown w'. grown.1.ring ≡ ctx.ring) (grow_with answers ctx cap w)
      by_answers [] = tt
      by_answers (true ∷ answers) = refl
      by_answers (false ∷ answers) = refl

  keep_grown-Attached :
      (name : List ℕ) (cap : ℕ) (role : Role) (ring : Option Ring)
      → Attached name cap role ring
      → (grown : Rc × Ctx D) (w : World) → grown.1.ring ≡ ring
      → Post (λ out w'. Attached name cap role out.1.ring) (keep_grown grown w)
        × Post (λ out w'. Attached name cap role out.1.ring) (grown_status grown w)
  unfolding keep_grown grown_status
  keep_grown-Attached name cap role ring a (done n, ctx) w e = (rw e a, rw e a)
  keep_grown-Attached name cap role ring a (fail x, ctx) w e =
      (none-Attached name cap role none refl, none-Attached name cap role none refl)

  pub producer_map_ring-Post :
      (p : Ctx D) (w : World)
      → p.ring ≡ none
      → Post
          (λ out w'. Attached p.neg_name p.shm_capacity producer out.1.ring)
          (producer_map_ring p w)
  unfolding producer_map_ring
  producer_map_ring-Post p w e =
      >>=-Post (λ opened w'. Attached p.neg_name p.shm_capacity producer opened.1) _
        (ring_attach p.neg_name p.shm_capacity producer) (keep_mapped p p.shm_capacity) w
        (attach-Post p.neg_name p.shm_capacity producer w) kept
    where
      kept :
          (opened : Rc × Option Ring) (w' : World)
          → Attached p.neg_name p.shm_capacity producer opened.1
          → Post
              (λ out w'. Attached p.neg_name p.shm_capacity producer out.1.ring)
              (keep_mapped p p.shm_capacity opened w')
      kept (fail x, ring) w' a = none-Attached _ _ _ _ e
      kept (done n, ring) w' a =
          >>=-Post (λ grown w'. grown.1.ring ≡ ring) _
            (grow_rxbuf (record p { ring = ring }) p.shm_capacity) keep_grown w'
            (grow-Post (record p { ring = ring }) p.shm_capacity w')
            (λ grown w'' same. (keep_grown-Attached _ _ _ ring a grown w'' same).0)

  pub serve_setup-Post :
      (c : Ctx D) (cap : ℕ) (name : List ℕ) (w : World)
      → c.ring ≡ none
      → Post (λ out w'. Attached name cap consumer out.1.ring) (serve_setup c cap name w)
  unfolding serve_setup
  serve_setup-Post c cap name w e = served c.ring e
    where
      mapped :
          (opened : Rc × Option Ring) (w' : World)
          → Attached name cap consumer opened.1
          → Post (λ out w'. Attached name cap consumer out.1.ring) (map_status c cap opened w')
      mapped (fail x, ring) w' a = none-Attached _ _ _ _ e
      mapped (done n, ring) w' a =
          >>=-Post (λ grown w'. grown.1.ring ≡ ring) _ (grow_rxbuf (record c { ring = ring }) cap)
            grown_status w' (grow-Post (record c { ring = ring }) cap w')
            (λ grown w'' same. (keep_grown-Attached _ _ _ ring a grown w'' same).1)

      served :
          (ring : Option Ring)
          → ring ≡ none
          → Post
              (λ out w'. Attached name cap consumer out.1.ring)
              ((elim ring as (λ x. M (ℕ × Ctx D)) [
                | none ↦ ring_attach name cap consumer >>= map_status c cap
                | some r ↦ return (0, c)
              ])
                w)
      served none k =
          >>=-Post (λ opened w'. Attached name cap consumer opened.1) _
            (ring_attach name cap consumer) (map_status c cap) w (attach-Post name cap consumer w)
            mapped
      served (some r) k = absurd (ground arith)

  pub acknowledge-Post :
      (out : ℕ × Ctx D) (w : World) → Post (λ c w'. c.ring ≡ out.1.ring) (acknowledge out w)
  unfolding acknowledge
  acknowledge-Post (status, c) w =
      >>=-Post_any _ (Uds.send (tag_ctrl ∷ setup_ack ∷ status ∷ [])) _ w (λ rc w'. ground arith)
