-- ===== src/World.antt =====
-- What the operating system and the peer answer to the calls of one endpoint: lists of answers, used up
-- in order, and a log of the datagrams that the kernel took. A computation on it returns `none` when the
-- answers end before it has returned.
pub mod Post
use adaptipc.Base.{ℕ, Bool, Option, none, some, List, [], ◌∷◌}
use adaptipc.Base.Errno.{Rc}
use adaptipc.Ring.Open.{Os, Object}
use adaptipc.Ring.Flow.{Round}

-- What the system answers to the calls of one `uds_open`: `calloc`, `socket` and `bind`.
pub record Opening : Type 0 where
  pub calloc : Bool
  pub socket : Rc
  pub bind : Rc

-- What the process holds for its endpoints: allocated endpoints, open sockets, and the paths that are
-- bound.
pub record Held : Type 0 where
  pub endpoints : ℕ
  pub sockets : ℕ
  pub files : List (List ℕ)

pub record World : Type 0 where
  pub clock : List ℕ  -- `clock_gettime`, in nanoseconds
  pub sendto : List Rc
  pub poll : List Rc
  pub recvfrom : List (Rc × List ℕ)  -- with the datagram's bytes
  pub realloc : List Bool
  pub wire : List (List ℕ)  -- datagrams that `sendto` accepted
  pub maps : List (Os × Object)  -- for each mapping of the ring, the answers and what the object holds
  pub fresh_name : List ℕ  -- what `generate_shm_name` makes
  pub arrivals : List (List (List ℕ))  -- records that the producer pushes before each poll of the ring
  pub rounds : List Round  -- what a blocked producer sees
  pub openings : List Opening
  pub held : Held
  pub rings : ℕ  -- mapped rings, each with its descriptor and its handle
  pub objects : List (List ℕ)  -- names of the shared objects that were opened and not unlinked

abbrev pub M : Type 0 → Type 0
M A = World → Option (A × World)

infixl 5 ◌>>=◌ ◌>>◌
abbrev pub ◌>>=◌ : {A B : Type 0} → M A → (A → M B) → M B
◌>>=◌ m f w = elim (m w) [ none ↦ none | some (a, w') ↦ f a w' ]

abbrev pub ◌>>◌ : {A B : Type 0} → M A → M B → M B
m >> k = m >>= λ _. k

abbrev pub return : {A : Type 0} → A → M A
return a w = some (a, w)

pub clock_now_from : List ℕ → M ℕ
clock_now_from [] w = none
clock_now_from (t ∷ ts) w = some (t, record w { clock = ts })

-- `stats_now_ns`.
unfoldable pub now_ns : M ℕ
unfolding clock_now_from
now_ns w = clock_now_from w.clock w
