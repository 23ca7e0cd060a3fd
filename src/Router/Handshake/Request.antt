-- ===== src/Router/Handshake/Request.antt =====
-- src/adapt_ipc.c: the setup request as the producer writes it and as the consumer reads it.
use adaptipc.Base.{
  ℕ, ◌+◌, ◌^◌, ◌≤◌, ◌<◌, ◌≡◌, refl, ap, ◌∙◌, ◌≢◌, Bool, true, false, ◌||◌, not, ltb, ◌==◌, List, [],
  ◌∷◌, ◌++◌, arith, length, length-append, drop, get_or, All,
}
use adaptipc.Base.Bytes.{u32_bytes, u32_at}
use adaptipc.World.{World, ◌>>=◌}
use adaptipc.Router.Types.{Ctx}
use adaptipc.Router.Negotiate.{
  c_string, has_nul, frame_u32, request_frame, setup_req, handle_control, serve_setup, acknowledge,
}

-- A name as C sees it: no byte of it is zero.
abbrev pub IsText : List ℕ → Type 0
IsText name = All (λ b. b ≢ 0) name

c_string-append : (name : List ℕ) → IsText name → c_string (name ++ (0 ∷ [])) ≡ name
unfolding c_string
c_string-append [] t = refl
c_string-append (b ∷ bs) (h, t) = ground (arith, c_string-append bs t)

has_nul-append : (name : List ℕ) → has_nul (name ++ (0 ∷ [])) ≡ true
unfolding has_nul
has_nul-append [] = refl
has_nul-append (b ∷ bs) = ground (arith, has_nul-append bs)

good_setup :
    (cap : ℕ) (ends : Bool)
    → 0 < cap
    → cap ≤ 2 ^ 30
    → ends ≡ true
    → ((cap == 0) || ltb 1_073_741_824 cap || not ends) ≡ false
good_setup cap ends pos small e = ground arith

module _ {D : Type 0} where
  frame_capacity :
      (p : Ctx D) → p.shm_capacity < 2 ^ 32 → frame_u32 (request_frame p) 2 ≡ p.shm_capacity
  unfolding u32_bytes u32_at
  frame_capacity p small = omega arith

  frame_name : (p : Ctx D) → drop 6 (request_frame p) ≡ p.neg_name ++ (0 ∷ [])
  unfolding u32_bytes
  frame_name p = refl

  frame_length : (p : Ctx D) → length (request_frame p) ≡ 7 + length p.neg_name
  unfolding u32_bytes
  frame_length p = omega (arith, length-append {0} p.neg_name (0 ∷ []))

  well_formed :
      (c : Ctx D) (frame : List ℕ) (w : World)
      → (ltb (length frame) 7 || not (get_or frame 1 0 == setup_req)) ≡ false
      → ((frame_u32 frame 2 == 0)
          || ltb 1_073_741_824 (frame_u32 frame 2)
          || not (has_nul (drop 6 frame)))
        ≡ false
      → handle_control c frame w
        ≡ (serve_setup c (frame_u32 frame 2) (c_string (drop 6 frame)) >>= acknowledge) w
  unfolding handle_control
  well_formed c frame w e f = rw (e, f) refl

  -- What the consumer reads out of a setup request is what the producer put into it: the name and the
  -- capacity, where the name is text and the capacity is between 1 and 2 ^ 30.
  pub request_roundtrip :
      (p c : Ctx D) (w : World)
      → 0 < p.shm_capacity
      → p.shm_capacity ≤ 2 ^ 30
      → IsText p.neg_name
      → handle_control c (request_frame p) w
        ≡ (serve_setup c p.shm_capacity p.neg_name >>= acknowledge) w
  request_roundtrip p c w pos small text =
      well_formed c (request_frame p) w (let n = frame_length p in ground (arith, n)) (
        rw (frame_capacity p (omega arith), frame_name p)
          (good_setup p.shm_capacity _ pos small (has_nul-append p.neg_name)))
      ∙ ap (λ cap. (serve_setup c cap (c_string (drop 6 (request_frame p))) >>= acknowledge) w)
          (frame_capacity p (omega arith))
      ∙ ap (λ name. (serve_setup c p.shm_capacity name >>= acknowledge) w)
          (ap c_string (frame_name p) ∙ c_string-append p.neg_name text)
