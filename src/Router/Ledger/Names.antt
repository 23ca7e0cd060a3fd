-- ===== src/Router/Ledger/Names.antt =====
-- src/shm_ringbuffer.c: which shared object `shm_ring_close` unlinks, of the one that `shm_ring_create`
-- opened.
use adaptipc.Base.{
  ℕ, zero, suc, ◌^◌, ◌≤◌, ◌<◌, ◌≡◌, refl, sym, ap, ◌∙◌, ◌⊎◌, inl, inr, true, false, leb, Bool-cases,
  Option, none, some, List, [], ◌∷◌, ◌++◌, arith, length, take,
}
use adaptipc.Base.Text.{same_text, same_text_sound}
use adaptipc.Base.Errno.{Rc, done}
use adaptipc.World.{World}
use adaptipc.World.Post.{Post, Post_of}
use adaptipc.Ring.{Ring}
use adaptipc.Ring.Open.{producer, Os, Object, create}
use adaptipc.Ring.Attach.{attach_capacity, attach_from, create_producer}
use adaptipc.Uds.Open.{unlink, unlink_again}
use adaptipc.Router.Types.{link_object, opened_ring, create_with, ring_create, ring_close}

take_all : (n : ℕ) (xs : List ℕ) → length xs ≤ n → take n xs ≡ xs
take_all zero [] h = refl
take_all (suc n) [] h = refl
take_all zero (x ∷ xs) h = absurd (omega arith)
take_all (suc n) (x ∷ xs) h = ap (◌∷◌ x) (take_all n xs (omega arith))

length-take : (n : ℕ) (xs : List ℕ) → length (take n xs) ≤ n
length-take zero xs = omega arith
length-take (suc n) [] = omega arith
length-take (suc n) (x ∷ xs) = let l = length-take n xs in omega (arith, l)

-- Another name stays linked.
unlink_other :
    (path name : List ℕ) (names : List (List ℕ))
    → same_text path name ≡ false
    → unlink path (names ++ (name ∷ [])) ≡ unlink path names ++ (name ∷ [])
unfolding unlink
unlink_other path name [] e = rw e refl
unlink_other path name (n ∷ names) e = elim (Bool-cases (same_text path n)) [
  | inl y ↦ rw y (unlink_other path name names e)
  | inr y ↦ rw y (ap (◌∷◌ n) (unlink_other path name names e))
]

-- A name that is cut is another name.
cut_other : (name : List ℕ) → 63 < length name → same_text (take 63 name) name ≡ false
cut_other name long = elim (Bool-cases (same_text (take 63 name) name)) [
  | inl y ↦
      let same = ap length (same_text_sound (take 63 name) name y) in
      let short = length-take 63 name in absurd (omega (arith, same, short, long))
  | inr n ↦ n
]

-- What the close of a ring with that name leaves, where the object was linked last.
abbrev pub Unlinked : List ℕ → List (List ℕ) → List (List ℕ) → Type 0
Unlinked name before after =
    ((length name ≤ 63) × (after ≡ unlink name before))
    ⊎ ((63 < length name) × (others : List (List ℕ)) × (after ≡ others ++ (name ∷ [])))

unlink_cut :
    (name : List ℕ) (names : List (List ℕ))
    → Unlinked name names (unlink (take 63 name) (unlink name names ++ (name ∷ [])))
unlink_cut name names = by_length (Bool-cases (leb (length name) 63))
  where
    by_length :
        (leb (length name) 63 ≡ true) ⊎ (leb (length name) 63 ≡ false)
        → Unlinked name names (unlink (take 63 name) (unlink name names ++ (name ∷ [])))
    by_length (inl y) =
        let short : length name ≤ 63 = ground arith in
        inl (
          short,
          ap (λ n. unlink n (unlink name names ++ (name ∷ []))) (take_all 63 name short)
              ∙ unlink_again name names,
        )
    by_length (inr n) =
        let long : 63 < length name = ground arith in
        inr (
          long,
          unlink (take 63 name) (unlink name names),
          unlink_other (take 63 name) name (unlink name names) (cut_other name long),
        )

-- What a ring that was created carries: the start of its name, and its object is linked.
abbrev Named : List ℕ → World → Rc × Option Ring → World → Type 0
Named name w (rc, ring) w' =
    (r : Ring)
    → ring ≡ some r
    → (r.name ≡ take 63 name) × (w'.objects ≡ unlink name w.objects ++ (name ∷ []))

create-Named :
    (cs : List ℕ) (capacity : ℕ) (w : World)
    → capacity ≤ 2 ^ 30
    → Post (Named (b'/' ∷ cs) w) (ring_create (b'/' ∷ cs) capacity producer w)
unfolding ring_create
create-Named cs capacity w small = by_maps w.maps
  where
    linked :
        (os : Os) (answer : Rc)
        → os.shm_open ≡ answer
        → (fd : ℕ) → answer ≡ done fd
        → link_object os (b'/' ∷ cs) w.objects ≡ unlink (b'/' ∷ cs) w.objects ++ ((b'/' ∷ cs) ∷ [])
    linked os answer e fd f = rw (e ∙ f) refl

    by_answer :
        (os : Os) (o : Object) (maps : List (Os × Object)) (answer : Option (Rc × Option Ring))
        → create os (b'/' ∷ cs) capacity producer o ≡ answer
        → Post (Named (b'/' ∷ cs) w) (elim answer [
          | none ↦ none
          | some opened ↦ some (opened, opened_ring os (b'/' ∷ cs) maps opened w)
        ])
    by_answer os o maps none e = tt
    by_answer os o maps (some (rc, ring)) e = λ r k.
        let got = sym (create_producer os (b'/' ∷ cs) capacity o) ∙ e ∙ ap (λ x. some (rc, x)) k in
        let (fd, f) = attach_from os cs capacity producer o rc r small got in
        (
          (attach_capacity os cs capacity producer o rc r small got).1,
          linked os os.shm_open refl fd f,
        )

    by_maps :
        (maps : List (Os × Object))
        → Post (Named (b'/' ∷ cs) w) (create_with maps (b'/' ∷ cs) capacity producer w)
    by_maps [] = tt
    by_maps ((os, o) ∷ maps) = by_answer os o maps (create os (b'/' ∷ cs) capacity producer o) refl

-- Closing with `unlink_obj` the ring that a producer has created by a name that begins with `/`, at a
-- size of at most 2 ^ 30 bytes, unlinks the object if the name has at most 63 bytes, and leaves the
-- other names as they were; a longer name stays linked.
pub close_unlinks :
    (cs : List ℕ) (capacity : ℕ) (rc : Rc) (r : Ring) (w w' : World)
    → capacity ≤ 2 ^ 30
    → ring_create (b'/' ∷ cs) capacity producer w ≡ some ((rc, some r), w')
    → Unlinked (b'/' ∷ cs) w.objects (ring_close (some r) true w').objects
unfolding ring_close
close_unlinks cs capacity rc r w w' small e =
    let (named, linked) =
      Post_of (Named (b'/' ∷ cs) w) e (create-Named cs capacity w small) r refl in
    rw (named, linked) (unlink_cut (b'/' ∷ cs) w.objects)
