-- ===== src/Uds/Open.antt =====
-- src/uds_fallback.c: `uds_open` and `uds_close`, over the answers of the system and a ledger of what the
-- process holds. An endpoint is its path; a path has no zero byte.
use adaptipc.Base.{
  ℕ, ◌+◌, ◌-◌, ◌≡◌, refl, ap, ◌∙◌, ◌≢◌, ◌⊎◌, inl, inr, Bool, true, false, Bool-cases, Option, none,
  some, List, [], ◌∷◌, ◌++◌, leb, ◌==◌, if◌then◌else◌, arith, length,
}
use adaptipc.Base.Text.{same_text, same_text_refl}
use adaptipc.Base.Errno.{Rc, done, fail, enametoolong, enomem}
use adaptipc.World.{World, M, Opening, Held}
use adaptipc.World.Post.{Post}

-- `unlink`; that there may be no such file is ignored.
unfoldable pub unlink : List ℕ → List (List ℕ) → List (List ℕ)
unlink path [] = []
unlink path (f ∷ fs) = let rest = unlink path fs in if same_text path f then rest else f ∷ rest

-- Behind `socket`: a stale file goes, and where `bind` fails the socket is closed.
abbrev pub bind_with : Rc → List ℕ → Held → (Rc × Option (List ℕ)) × Held
bind_with (fail e) path held = ((fail e, none), record held { files = unlink path held.files })
bind_with (done n) path held = (
  (done 0, some path),
  record held {
    endpoints = held.endpoints + 1;
    sockets = held.sockets + 1;
    files = unlink path held.files ++ (path ∷ []);
  },
)

abbrev pub socket_with : Opening → List ℕ → Held → (Rc × Option (List ℕ)) × Held
socket_with o path held = elim o.socket [
  | fail e ↦ ((fail e, none), held)
  | done fd ↦ bind_with o.bind path held
]

abbrev pub open_with : List Opening → List ℕ → M (Rc × Option (List ℕ))
open_with [] path w = none
open_with (o ∷ openings) path w =
    let (out, held) =
      if o.calloc then socket_with o path w.held else ((fail enomem, none), w.held) in
    some (out, record w { openings = openings; held = held })

-- `uds_open`.
unfoldable pub uds_open : List ℕ → M (Rc × Option (List ℕ))
unfolding unlink
uds_open path w =
    if leb 108 (length path)
    then some ((fail enametoolong, none), w)
    else open_with w.openings path w

-- `uds_close` on an endpoint that `uds_open` made.
unfoldable pub uds_close : List ℕ → World → World
unfolding unlink
uds_close path w =
    let held = w.held in
    record w {
      held = record held {
        endpoints = held.endpoints - 1;
        sockets = held.sockets - 1;
        files = if length path == 0 then held.files else unlink path held.files;
      };
    }

-- A file that is bound last and then unlinked leaves the others without it.
pub unlink_again :
    (path : List ℕ) (fs : List (List ℕ))
    → unlink path (unlink path fs ++ (path ∷ [])) ≡ unlink path fs
unfolding unlink
unlink_again path [] = rw (same_text_refl path) refl
unlink_again path (f ∷ fs) = elim (Bool-cases (same_text path f)) [
  | inl y ↦ rw y (unlink_again path fs)
  | inr n ↦ rw (n, n) (ap (◌∷◌ f) (unlink_again path fs))
]

-- What the ledger says once an endpoint on `path` is open.
abbrev pub with_endpoint : List ℕ → Held → Held
with_endpoint path held = record {
  endpoints = held.endpoints + 1;
  sockets = held.sockets + 1;
  files = unlink path held.files ++ (path ∷ []);
}

-- A close takes back what an open has left.
pub uds_close-held :
    (path : List ℕ) (held : Held) (w : World)
    → path ≢ []
    → w.held ≡ with_endpoint path held
    → (uds_close path w).held ≡ record held { files = unlink path held.files }
unfolding uds_close
uds_close-held [] held w named e = absurd (named refl)
uds_close-held (b ∷ bs) held w named e = ap (closed (b ∷ bs)) e ∙ taken
  where
    closed : List ℕ → Held → Held
    closed path h = record {
      endpoints = h.endpoints - 1;
      sockets = h.sockets - 1;
      files = if length path == 0 then h.files else unlink path h.files;
    }

    taken :
        closed (b ∷ bs) (with_endpoint (b ∷ bs) held)
        ≡ record held { files = unlink (b ∷ bs) held.files }
    taken =
        let ends : held.endpoints + 1 - 1 ≡ held.endpoints = omega arith in
        let socks : held.sockets + 1 - 1 ≡ held.sockets = omega arith in
        let full : (length (b ∷ bs) == 0) ≡ false = ground arith in
        rw (full, ends, socks, unlink_again (b ∷ bs) held.files) refl

-- What an open leaves: an endpoint with everything that it needs, or nothing new.
abbrev pub Opened : List ℕ → World → Rc × Option (List ℕ) → World → Type 0
Opened path w (rc, uds) w' =
    ((rc ≡ done 0) × (uds ≡ some path) × (w'.held ≡ with_endpoint path w.held))
    ⊎ ((e : ℕ) × (rc ≡ fail e)
        × (uds ≡ none)
        × (w'.held.endpoints ≡ w.held.endpoints)
        × (w'.held.sockets ≡ w.held.sockets))

pub uds_open-Post : (path : List ℕ) (w : World) → Post (Opened path w) (uds_open path w)
unfolding uds_open
uds_open-Post path w = elim (Bool-cases (leb 108 (length path))) [
  | inl y ↦ rw y (inr (_, refl, refl, refl, refl))
  | inr n ↦ rw n (by_openings w.openings)
]
  where
    by_bind :
        (rest : List Opening) (bind : Rc)
        → let (out, held) = bind_with bind path w.held in
          Opened path w out (record w { openings = rest; held = held })
    by_bind rest (done n) = inl (refl, refl, refl)
    by_bind rest (fail e) = inr (_, refl, refl, refl, refl)

    by_socket :
        (rest : List Opening) (socket bind : Rc)
        → let (out, held) =
            socket_with (record { calloc = true; socket = socket; bind = bind }) path w.held in
          Opened path w out (record w { openings = rest; held = held })
    by_socket rest (done n) bind = by_bind rest bind
    by_socket rest (fail e) bind = inr (_, refl, refl, refl, refl)

    by_calloc :
        (rest : List Opening) (calloc : Bool) (socket bind : Rc)
        → Post
            (Opened path w)
            (open_with (record { calloc = calloc; socket = socket; bind = bind } ∷ rest) path w)
    by_calloc rest true socket bind = by_socket rest socket bind
    by_calloc rest false socket bind = inr (_, refl, refl, refl, refl)

    by_openings : (openings : List Opening) → Post (Opened path w) (open_with openings path w)
    by_openings [] = tt
    by_openings (o ∷ rest) = by_calloc rest o.calloc o.socket o.bind

pub uds_open-rings :
    (path : List ℕ) (w : World) → Post (λ out w'. w'.rings ≡ w.rings) (uds_open path w)
unfolding uds_open
uds_open-rings path w = by_length (leb 108 (length path))
  where
    by_openings :
        (openings : List Opening) → Post (λ out w'. w'.rings ≡ w.rings) (open_with openings path w)
    by_openings [] = tt
    by_openings (o ∷ rest) = refl

    by_length :
        (long : Bool)
        → Post
            (λ out w'. w'.rings ≡ w.rings)
            (if long then some ((fail enametoolong, none), w) else open_with w.openings path w)
    by_length true = refl
    by_length false = by_openings w.openings
