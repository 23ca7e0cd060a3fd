-- ===== src/Router/Handshake.antt =====
-- src/adapt_ipc.c: the two ends of the handshake together.
pub mod Request
pub mod Mapping
use adaptipc.Base.{
  ℕ, ◌+◌, ◌^◌, ◌≤◌, ◌<◌, ◌≡◌, refl, sym, ap, ◌∙◌, ◌≢◌, inl, inr, Bool, true, false, ◌||◌, not, ltb,
  leb, Bool-cases, ◌==◌, Option, none, some, List, [], ◌∷◌, ◌++◌, arith, length, length-append,
  drop, get_or, All,
}
use adaptipc.Base.Bytes.{u32_bytes, u32_at}
use adaptipc.Base.Errno.{Rc, done, fail}
use adaptipc.World.{World, M, ◌>>=◌, return}
use adaptipc.Uds as Uds
use adaptipc.Ring.{Ring}
use adaptipc.Ring.Inv.{Holds}
use adaptipc.Ring.Open.{Role, producer, consumer, Os, Object, attach, attach_lem}
use adaptipc.Ring.Attach.{attach_capacity}
use mathlib.Core.Path.{subst}
use adaptipc.World.Post.{Post, Post-map, >>=-Post, >>=-Post_any, Post_of}
use adaptipc.Router.Types.{Ctx, attach_with, grow_with, ring_attach, grow_rxbuf}
use adaptipc.Router.Negotiate.{
  c_string, has_nul, frame_u32, request_frame, setup_req, handle_control, serve_setup, acknowledge,
  producer_map_ring, keep_mapped, keep_grown, map_status, grown_status, tag_ctrl, setup_ack,
}
use adaptipc.Router.Handshake.Request.{IsText, request_roundtrip}
use adaptipc.Router.Handshake.Mapping.{
  Attached, producer_map_ring-Post, serve_setup-Post, acknowledge-Post,
}

module _ {D : Type 0} where
  control-Post :
      (p c : Ctx D) (w : World)
      → 0 < p.shm_capacity
      → p.shm_capacity ≤ 2 ^ 30
      → IsText p.neg_name
      → c.ring ≡ none
      → Post
          (λ c' w'. Attached p.neg_name p.shm_capacity consumer c'.ring)
          (handle_control c (request_frame p) w)
  control-Post p c w pos small text e =
      subst (Post (λ c' w'. Attached p.neg_name p.shm_capacity consumer c'.ring))
        (sym (request_roundtrip p c w pos small text))
        (>>=-Post (λ out w'. Attached p.neg_name p.shm_capacity consumer out.1.ring) _
          (serve_setup c p.shm_capacity p.neg_name) acknowledge w
          (serve_setup-Post c p.shm_capacity p.neg_name w e)
          (λ out w' a.
            Post-map (λ c' w''. c'.ring ≡ out.1.ring)
              (λ c' w''. Attached p.neg_name p.shm_capacity consumer c'.ring) (acknowledge out w')
              (acknowledge-Post out w') (λ c' w'' same. rw same a)))

  -- A handshake gives both ends one ring. Where the consumer, with no ring yet, has served the request
  -- of a producer with no ring yet, whose name is text that begins with `/` and whose capacity is
  -- between 1 and 2 ^ 30, and both have mapped a ring, the two rings have the same name and the same
  -- capacity, at least the one asked for, and the producer's holds nothing.
  pub handshake :
      (p c p' c' : Ctx D) (cs : List ℕ) (v v' w w' : World) (rc : Rc) (at_p at_c : Ring)
      → p.neg_name ≡ b'/' ∷ cs
      → IsText cs
      → 0 < p.shm_capacity
      → p.shm_capacity ≤ 2 ^ 30
      → p.ring ≡ none
      → c.ring ≡ none
      → handle_control c (request_frame p) w ≡ some (c', w')
      → c'.ring ≡ some at_c
      → producer_map_ring p v ≡ some ((rc, p'), v')
      → p'.ring ≡ some at_p
      → (at_c.capacity ≡ at_p.capacity)
        × (at_c.name ≡ at_p.name)
        × (p.shm_capacity ≤ at_p.capacity)
        × Holds at_p []
  handshake p c p' c' cs v v' w w' rc at_p at_c named text pos small np nc served has_c mapped
        has_p =
      let (os1, o1, rc1, e1) =
        Post_of _ served (control-Post p c w pos small (rw named (cc, text)) nc) at_c has_c in
      let (os2, o2, rc2, e2) = Post_of _ mapped (producer_map_ring-Post p v np) at_p has_p in
      let f1 =
        subst (λ name. attach os1 name p.shm_capacity consumer o1 ≡ some (rc1, some at_c)) named
          e1 in
      let f2 =
        subst (λ name. attach os2 name p.shm_capacity producer o2 ≡ some (rc2, some at_p)) named
          e2 in
      let (cap1, name1) = attach_capacity os1 cs p.shm_capacity consumer o1 rc1 at_c small f1 in
      let (cap2, name2) = attach_capacity os2 cs p.shm_capacity producer o2 rc2 at_p small f2 in
      let (ok, enough, holds) = attach_lem os2 cs p.shm_capacity o2 rc2 at_p small f2 in
      (cc, name1 ∙ sym name2, enough, holds)
