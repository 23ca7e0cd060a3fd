-- ===== src/Base/Text.antt =====
-- Text as C compares it: the bytes before the final zero.
use mathlib.Core.Path.{ap₂}
use adaptipc.Base.{ℕ, ◌≡◌, refl, Bool, true, false, ◌&&◌, ◌==◌, List, [], ◌∷◌, arith}

-- `strcmp(s, t) == 0`.
abbrev pub same_text : List ℕ → List ℕ → Bool
same_text [] [] = true
same_text [] (b ∷ bs) = false
same_text (a ∷ cs) [] = false
same_text (a ∷ cs) (b ∷ bs) = (a == b) && same_text cs bs

pub same_text_refl : (s : List ℕ) → same_text s s ≡ true
same_text_refl [] = refl
same_text_refl (b ∷ bs) = let e = same_text_refl bs in ground (arith, e)

pub same_text_sound : (s t : List ℕ) → same_text s t ≡ true → s ≡ t
same_text_sound [] [] e = refl
same_text_sound [] (b ∷ bs) e = absurd (ground arith)
same_text_sound (a ∷ cs) [] e = absurd (ground arith)
same_text_sound (a ∷ cs) (b ∷ bs) e =
    let first : a ≡ b = ground arith in ap₂ ◌∷◌ first (same_text_sound cs bs (ground arith))
