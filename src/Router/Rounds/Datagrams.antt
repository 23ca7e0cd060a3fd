-- ===== src/Router/Rounds/Datagrams.antt =====
-- src/adapt_ipc.c, src/uds_fallback.c: the control channel leaves the datagrams that wait alone.
use adaptipc.Base.{
  ℕ, ◌≡◌, refl, ◌∙◌, Bool, true, false, ◌==◌, ltb, ◌||◌, not, if◌then◌else◌, Option, none, some,
  List, [], ◌∷◌, length, leb, drop, get_or,
}
use adaptipc.Base.Errno.{Rc, done, fail, einval, emsgsize}
use adaptipc.World.{World, M, ◌>>=◌, return}
use adaptipc.World.Post.{Post, Post-map, >>=-Post}
use adaptipc.Ring.{Ring}
use adaptipc.Ring.Open.{Role, consumer, Os, Object, attach}
use adaptipc.Uds as Uds
use adaptipc.Uds.{max_dgram, send_loop, finish_send, poll_loop, after_poll, recv_loop, finish_recv}
use adaptipc.Router.Types.{
  Ctx, opened_ring, attach_with, ring_attach, ring_close, grow_with, grow_rxbuf,
}
use adaptipc.Router.Negotiate.{
  tag_ctrl, setup_req, setup_ack, frame_u32, c_string, has_nul, grown_status, map_status,
  serve_setup, acknowledge, handle_control,
}

-- The datagrams that wait are the same.
abbrev pub SameDatagrams : {A : Type 0} → World → A → World → Type 0
SameDatagrams w x v = v.recvfrom ≡ w.recvfrom

send-SameDatagrams : (bytes : List ℕ) (w : World) → Post (SameDatagrams w) (Uds.send bytes w)
unfolding Uds.send
send-SameDatagrams bytes w = by_size (length bytes == 0) (ltb max_dgram (length bytes))
  where
    by_answer : (o : Option (Rc × List Rc)) → Post (SameDatagrams w) (finish_send bytes w o)
    by_answer none = tt
    by_answer (some (rc, answers)) = refl

    by_size :
        (empty long : Bool)
        → Post (SameDatagrams w) (
            if empty
            then some (fail einval, w)
            else if long
            then some (fail emsgsize, w)
            else finish_send bytes w (send_loop w.sendto))
    by_size true long = refl
    by_size false true = refl
    by_size false false = by_answer (send_loop w.sendto)

attach-SameDatagrams :
    (name : List ℕ) (size : ℕ) (role : Role) (w : World)
    → Post (SameDatagrams w) (ring_attach name size role w)
unfolding ring_attach
attach-SameDatagrams name size role w = by_maps w.maps
  where
    by_answer :
        (os : Os) (maps : List (Os × Object)) (answer : Option (Rc × Option Ring))
        → Post (SameDatagrams w) (elim answer [
          | none ↦ none
          | some opened ↦ some (opened, opened_ring os name maps opened w)
        ])
    by_answer os maps none = tt
    by_answer os maps (some opened) = refl

    by_maps :
        (maps : List (Os × Object)) → Post (SameDatagrams w) (attach_with maps name size role w)
    by_maps [] = tt
    by_maps ((os, o) ∷ maps) = by_answer os maps (attach os name size role o)

ring_close_datagrams :
    (ring : Option Ring) (unlink_obj : Bool) (w : World)
    → (ring_close ring unlink_obj w).recvfrom ≡ w.recvfrom
unfolding ring_close
ring_close_datagrams none unlink_obj w = refl
ring_close_datagrams (some r) unlink_obj w = refl

module _ {D : Type 0} where
  grow-SameDatagrams :
      (c : Ctx D) (size : ℕ) (w : World) → Post (SameDatagrams w) (grow_rxbuf c size w)
  unfolding grow_rxbuf
  grow-SameDatagrams c size w = by_fit (leb size c.rxbuf_cap)
    where
      by_answers : (answers : List Bool) → Post (SameDatagrams w) (grow_with answers c size w)
      by_answers [] = tt
      by_answers (true ∷ answers) = refl
      by_answers (false ∷ answers) = refl

      by_fit :
          (fits : Bool)
          → Post
              (SameDatagrams w)
              (if fits then some ((done 0, c), w) else grow_with w.realloc c size w)
      by_fit true = refl
      by_fit false = by_answers w.realloc

  grown_status-SameDatagrams :
      (out : Rc × Ctx D) (w : World) → Post (SameDatagrams w) (grown_status out w)
  unfolding grown_status
  grown_status-SameDatagrams (done n, c) w = refl
  grown_status-SameDatagrams (fail e, c) w = ring_close_datagrams c.ring false w

  serve_setup-SameDatagrams :
      (c : Ctx D) (size : ℕ) (name : List ℕ) (w : World)
      → Post (SameDatagrams w) (serve_setup c size name w)
  unfolding serve_setup
  serve_setup-SameDatagrams c size name w = served c.ring
    where
      status :
          (opened : Rc × Option Ring) (v : World)
          → SameDatagrams w opened v
          → Post (SameDatagrams w) (map_status c size opened v)
      status (fail x, ring) v e = e
      status (done n, ring) v e =
          >>=-Post (SameDatagrams v) (SameDatagrams w) (grow_rxbuf (record c { ring = ring }) size)
            grown_status v (grow-SameDatagrams (record c { ring = ring }) size v)
            (λ out u f.
              Post-map (SameDatagrams u) (SameDatagrams w) (grown_status out u)
                (grown_status-SameDatagrams out u) (λ x t g. g ∙ f ∙ e))

      served :
          (ring : Option Ring)
          → Post (SameDatagrams w) (
              (elim ring as (λ x. M (ℕ × Ctx D)) [
                | none ↦ ring_attach name size consumer >>= map_status c size
                | some r ↦ return (0, c)
              ])
                w)
      served none =
          >>=-Post (SameDatagrams w) (SameDatagrams w) (ring_attach name size consumer)
            (map_status c size) w (attach-SameDatagrams name size consumer w) status
      served (some r) = refl

  acknowledge-SameDatagrams :
      (out : ℕ × Ctx D) (w : World) → Post (SameDatagrams w) (acknowledge out w)
  unfolding acknowledge
  acknowledge-SameDatagrams (status, c) w =
      >>=-Post (SameDatagrams w) (SameDatagrams w) (Uds.send (tag_ctrl ∷ setup_ack ∷ status ∷ [])) _
        w (send-SameDatagrams (tag_ctrl ∷ setup_ack ∷ status ∷ []) w) (λ rc v e. e)

  pub handle_control-SameDatagrams :
      (c : Ctx D) (frame : List ℕ) (w : World) → Post (SameDatagrams w) (handle_control c frame w)
  unfolding handle_control
  handle_control-SameDatagrams c frame w =
      by_guards (ltb (length frame) 7 || not (get_or frame 1 0 == setup_req)) (
        (frame_u32 frame 2 == 0)
        || ltb 1_073_741_824 (frame_u32 frame 2)
        || not (has_nul (drop 6 frame)))
    where
      size : ℕ
      size = frame_u32 frame 2

      name : List ℕ
      name = c_string (drop 6 frame)

      by_guards :
          (short bad : Bool)
          → Post (SameDatagrams w) (
              (if short
                  then return c
                  else if bad
                  then return c
                  else (serve_setup c size name >>= acknowledge))
                w)
      by_guards true bad = refl
      by_guards false true = refl
      by_guards false false =
          >>=-Post (SameDatagrams w) (SameDatagrams w) (serve_setup c size name) acknowledge w
            (serve_setup-SameDatagrams c size name w)
            (λ out v e.
              Post-map (SameDatagrams v) (SameDatagrams w) (acknowledge out v)
                (acknowledge-SameDatagrams out v) (λ x u f. f ∙ e))
