-- ===== src/Cost/Names.antt =====
-- src/cost_model.c and src/adapt_ipc.c: the names of the enumerators, and the texts of the results.
use adaptipc.Base.{ℕ, List, [], ◌∷◌, if◌then◌else◌, leb, ◌==◌, get_or}
use adaptipc.Base.Errno.{Rc, done, fail, eagain, eperm, emsgsize, econnrefused}
use adaptipc.Cost.Types.{Route, undecided, shm, uds}

abbrev pub default_text : List ℕ
default_text = b'd' ∷ b'e' ∷ b'f' ∷ b'a' ∷ b'u' ∷ b'l' ∷ b't' ∷ []

abbrev pub size_only_text : List ℕ
size_only_text = b's' ∷ b'i' ∷ b'z' ∷ b'e' ∷ b'_' ∷ b'o' ∷ b'n' ∷ b'l' ∷ b'y' ∷ []

abbrev pub size_hysteresis_text : List ℕ
size_hysteresis_text =
    b's' ∷ b'i' ∷ b'z' ∷ b'e' ∷ b'_' ∷ b'h' ∷ b'y' ∷ b's' ∷ b't' ∷ b'e' ∷ b'r' ∷ b'e' ∷ b's' ∷ b'i'
    ∷ b's' ∷ []

abbrev pub queue_aware_text : List ℕ
queue_aware_text = b'q' ∷ b'u' ∷ b'e' ∷ b'u' ∷ b'e' ∷ b'_' ∷ b'a' ∷ b'w' ∷ b'a' ∷ b'r' ∷ b'e' ∷ []

abbrev pub cost_aware_text : List ℕ
cost_aware_text = b'c' ∷ b'o' ∷ b's' ∷ b't' ∷ b'_' ∷ b'a' ∷ b'w' ∷ b'a' ∷ b'r' ∷ b'e' ∷ []

abbrev pub full_adaptive_text : List ℕ
full_adaptive_text =
    b'f' ∷ b'u' ∷ b'l' ∷ b'l' ∷ b'_' ∷ b'a' ∷ b'd' ∷ b'a' ∷ b'p' ∷ b't' ∷ b'i' ∷ b'v' ∷ b'e' ∷ []

-- `adapt_policy_name`, on the number of the enumerator; beyond the last one stands the first.
abbrev pub policy_name : ℕ → List ℕ
policy_name p =
    get_or
      (default_text ∷ size_only_text ∷ size_hysteresis_text ∷ queue_aware_text ∷ cost_aware_text
        ∷ full_adaptive_text ∷ [])
      (if leb p 5 then p else 0) []

-- `adapt_qos_name`.
abbrev pub qos_name : ℕ → List ℕ
qos_name q =
    get_or
      ((b'b' ∷ b'a' ∷ b'l' ∷ b'a' ∷ b'n' ∷ b'c' ∷ b'e' ∷ b'd' ∷ [])
        ∷ (b'l' ∷ b'a' ∷ b't' ∷ b'e' ∷ b'n' ∷ b'c' ∷ b'y' ∷ [])
        ∷ (b't' ∷ b'h' ∷ b'r' ∷ b'o' ∷ b'u' ∷ b'g' ∷ b'h' ∷ b'p' ∷ b'u' ∷ b't' ∷ [])
        ∷ [])
      (if leb q 2 then q else 0) []

-- `adapt_health_name`.
abbrev pub health_name : ℕ → List ℕ
health_name h =
    get_or
      ((b'u' ∷ b'n' ∷ b'a' ∷ b'v' ∷ b'a' ∷ b'i' ∷ b'l' ∷ b'a' ∷ b'b' ∷ b'l' ∷ b'e' ∷ [])
        ∷ (b'h' ∷ b'e' ∷ b'a' ∷ b'l' ∷ b't' ∷ b'h' ∷ b'y' ∷ [])
        ∷ (b'd' ∷ b'e' ∷ b'g' ∷ b'r' ∷ b'a' ∷ b'd' ∷ b'e' ∷ b'd' ∷ [])
        ∷ (b'b' ∷ b'l' ∷ b'o' ∷ b'c' ∷ b'k' ∷ b'e' ∷ b'd' ∷ [])
        ∷ (b'r' ∷ b'e' ∷ b'c' ∷ b'o' ∷ b'v' ∷ b'e' ∷ b'r' ∷ b'i' ∷ b'n' ∷ b'g' ∷ [])
        ∷ [])
      (if leb h 4 then h else 0) []

-- `adapt_route_name`.
abbrev pub route_name : Route → List ℕ
route_name shm = b'S' ∷ b'H' ∷ b'M' ∷ []
route_name uds = b'U' ∷ b'D' ∷ b'S' ∷ []
route_name undecided = b'N' ∷ b'O' ∷ b'N' ∷ b'E' ∷ []

-- `uds_strerror`, over the library's `strerror`.
abbrev pub uds_strerror : (Rc → List ℕ) → Rc → List ℕ
uds_strerror strerror (done n) = if n == 0 then (b'o' ∷ b'k' ∷ []) else strerror (done n)
uds_strerror strerror (fail e) =
    if e == emsgsize
    then (b'd' ∷ b'a' ∷ b't' ∷ b'a' ∷ b'g' ∷ b'r' ∷ b'a' ∷ b'm' ∷ b' ' ∷ b'e' ∷ b'x' ∷ b'c' ∷ b'e'
        ∷ b'e' ∷ b'd' ∷ b's' ∷ b' ' ∷ b'U' ∷ b'D' ∷ b'S' ∷ b'_' ∷ b'M' ∷ b'A' ∷ b'X' ∷ b'_' ∷ b'D'
        ∷ b'G' ∷ b'R' ∷ b'A' ∷ b'M' ∷ [])
    else if e == econnrefused
    then (b'p' ∷ b'e' ∷ b'e' ∷ b'r' ∷ b' ' ∷ b's' ∷ b'o' ∷ b'c' ∷ b'k' ∷ b'e' ∷ b't' ∷ b' ' ∷ b'n'
        ∷ b'o' ∷ b't' ∷ b' ' ∷ b'b' ∷ b'o' ∷ b'u' ∷ b'n' ∷ b'd' ∷ [])
    else strerror (fail e)

-- `shm_ring_strerror`, over the library's `strerror`.
abbrev pub ring_strerror : (Rc → List ℕ) → Rc → List ℕ
ring_strerror strerror (done n) = if n == 0 then (b'o' ∷ b'k' ∷ []) else strerror (done n)
ring_strerror strerror (fail e) =
    if e == eagain
    then (b'r' ∷ b'i' ∷ b'n' ∷ b'g' ∷ b' ' ∷ b'e' ∷ b'm' ∷ b'p' ∷ b't' ∷ b'y' ∷ b' ' ∷ b'o' ∷ b'r'
        ∷ b' ' ∷ b'f' ∷ b'u' ∷ b'l' ∷ b'l' ∷ [])
    else if e == emsgsize
    then (b'm' ∷ b'e' ∷ b's' ∷ b's' ∷ b'a' ∷ b'g' ∷ b'e' ∷ b' ' ∷ b't' ∷ b'o' ∷ b'o' ∷ b' ' ∷ b'l'
        ∷ b'a' ∷ b'r' ∷ b'g' ∷ b'e' ∷ b' ' ∷ b'f' ∷ b'o' ∷ b'r' ∷ b' ' ∷ b'r' ∷ b'i' ∷ b'n' ∷ b'g'
        ∷ [])
    else strerror (fail e)

-- `adapt_strerror`, over the library's `strerror`.
abbrev pub adapt_strerror : (Rc → List ℕ) → Rc → List ℕ
adapt_strerror strerror (done n) = if n == 0 then (b'o' ∷ b'k' ∷ []) else strerror (done n)
adapt_strerror strerror (fail e) =
    if e == eagain
    then (b'r' ∷ b'e' ∷ b's' ∷ b'o' ∷ b'u' ∷ b'r' ∷ b'c' ∷ b'e' ∷ b' ' ∷ b't' ∷ b'e' ∷ b'm' ∷ b'p'
        ∷ b'o' ∷ b'r' ∷ b'a' ∷ b'r' ∷ b'i' ∷ b'l' ∷ b'y' ∷ b' ' ∷ b'u' ∷ b'n' ∷ b'a' ∷ b'v' ∷ b'a'
        ∷ b'i' ∷ b'l' ∷ b'a' ∷ b'b' ∷ b'l' ∷ b'e' ∷ [])
    else if e == eperm
    then (b'w' ∷ b'r' ∷ b'o' ∷ b'n' ∷ b'g' ∷ b' ' ∷ b'r' ∷ b'o' ∷ b'l' ∷ b'e' ∷ b' ' ∷ b'f' ∷ b'o'
        ∷ b'r' ∷ b' ' ∷ b't' ∷ b'h' ∷ b'i' ∷ b's' ∷ b' ' ∷ b'o' ∷ b'p' ∷ b'e' ∷ b'r' ∷ b'a' ∷ b't'
        ∷ b'i' ∷ b'o' ∷ b'n' ∷ [])
    else if e == emsgsize
    then (b'm' ∷ b'e' ∷ b's' ∷ b's' ∷ b'a' ∷ b'g' ∷ b'e' ∷ b' ' ∷ b'e' ∷ b'x' ∷ b'c' ∷ b'e' ∷ b'e'
        ∷ b'd' ∷ b's' ∷ b' ' ∷ b't' ∷ b'r' ∷ b'a' ∷ b'n' ∷ b's' ∷ b'p' ∷ b'o' ∷ b'r' ∷ b't' ∷ b' '
        ∷ b'l' ∷ b'i' ∷ b'm' ∷ b'i' ∷ b't' ∷ [])
    else strerror (fail e)
