-- ===== src/World/Post.antt =====
-- What holds of the value and the world that a computation returns, if it returns.
use adaptipc.Base.{◌≡◌, refl, ap, Option, none, some}
use mathlib.Core.Path.{subst}
use adaptipc.World.{World, M, ◌>>=◌}

abbrev pub Post : {A : Type 0} → (A → World → Type 0) → Option (A × World) → Type 0
Post P none = Unit
Post P (some (a, w)) = P a w

-- The rule for a chain: what the first part leaves is what the second starts from.
pub >>=-Post :
    {A B : Type 0} (Q : A → World → Type 0) (P : B → World → Type 0) (m : M A) (k : A → M B)
    (w : World)
    → Post Q (m w)
    → ((a : A) (w : World) → Q a w → Post P (k a w))
    → Post P ((m >>= k) w)
>>=-Post {A} Q P m k w q h = after (m w) q
  where
    after :
        (o : Option (A × World)) → Post Q o → Post P (elim o [ none ↦ none | some (a, w) ↦ k a w ])
    after none q = tt
    after (some (a, w)) q = h a w q

-- Of the first part nothing is known.
pub >>=-Post_any :
    {A B : Type 0} (P : B → World → Type 0) (m : M A) (k : A → M B) (w : World)
    → ((a : A) (w : World) → Post P (k a w))
    → Post P ((m >>= k) w)
>>=-Post_any {A} P m k w h = after (m w)
  where
    after : (o : Option (A × World)) → Post P (elim o [ none ↦ none | some (a, w) ↦ k a w ])
    after none = tt
    after (some (a, w)) = h a w

pub Post_of :
    {A : Type 0} (P : A → World → Type 0) {o : Option (A × World)} {a : A} {w : World}
    → o ≡ some (a, w)
    → Post P o
    → P a w
Post_of P e q = subst (Post P) e q

pub Post-map :
    {A : Type 0} (Q P : A → World → Type 0) (o : Option (A × World))
    → Post Q o
    → ((a : A) (w : World) → Q a w → P a w)
    → Post P o
Post-map Q P none q h = tt
Post-map Q P (some (a, w)) q h = h a w q

-- From what holds of whatever is returned.
pub Post-intro :
    {A : Type 0} (P : A → World → Type 0) (o : Option (A × World))
    → ((a : A) (w : World) → o ≡ some (a, w) → P a w)
    → Post P o
Post-intro P none h = tt
Post-intro P (some (a, w)) h = h a w refl

-- A first part that returns hands over to the second.
pub >>=-run :
    {A B : Type 0} (m : M A) (k : A → M B) {w w' : World} {a : A}
    → m w ≡ some (a, w')
    → (m >>= k) w ≡ k a w'
>>=-run m k e = ap (λ o. elim o [ none ↦ none | some (a, w) ↦ k a w ]) e

-- Two things that hold, together.
pub Post-and :
    {A : Type 0} (P Q : A → World → Type 0) (o : Option (A × World))
    → Post P o
    → Post Q o
    → Post (λ a w. P a w × Q a w) o
Post-and P Q none p q = tt
Post-and P Q (some (a, w)) p q = (p, q)

-- Two second parts that agree where the first part ends.
pub >>=-congr :
    {A B : Type 0} (Q : A → World → Type 0) (m : M A) (k k' : A → M B) (w : World)
    → Post Q (m w)
    → ((a : A) (v : World) → Q a v → k a v ≡ k' a v)
    → (m >>= k) w ≡ (m >>= k') w
>>=-congr {A} {B} Q m k k' w q h = after (m w) q
  where
    after :
        (o : Option (A × World))
        → Post Q o
        → elim o as (λ o. Option (B × World)) [ none ↦ none | some (a, v) ↦ k a v ]
          ≡ elim o as (λ o. Option (B × World)) [ none ↦ none | some (a, v) ↦ k' a v ]
    after none q = refl
    after (some (a, v)) q = h a v q
