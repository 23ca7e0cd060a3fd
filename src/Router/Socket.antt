-- ===== src/Router/Socket.antt =====
-- src/adapt_ipc.c, src/uds_fallback.c: what `adapt_recv_uds_timeout` delivers.
use adaptipc.Base.{
  ℕ, zero, suc, ◌-◌, ◌≤◌, ◌<◌, ◌≡◌, refl, sym, ap, ◌∙◌, ◌≢◌, Bool, true, false, inl, inr,
  Bool-cases, ◌⊎◌, ◌==◌, ltb, if◌then◌else◌, Option, none, some, List, [], ◌∷◌, ◌++◌, arith, length,
  length-drop, take, drop, get_or,
}
use adaptipc.Base.Errno.{Rc, done, fail, einval, eintr, econnreset}
use mathlib.Core.Path.{subst}
use adaptipc.World.{World, M, ◌>>=◌, return}
use adaptipc.World.Post.{Post, Post-map, >>=-Post, Post_of}
use adaptipc.Uds as Uds
use adaptipc.Uds.{poll_loop, after_poll, recv_loop, finish_recv}
use adaptipc.Router.Types.{Ctx}
use adaptipc.Router.Negotiate.{handle_control, tag_ctrl}
use adaptipc.Router.Recv.{payload, from_socket, uds_rounds, adapt_recv_uds_timeout}
use adaptipc.Router.Rounds.Datagrams.{SameDatagrams, handle_control-SameDatagrams}

-- The datagram is an answer of `recvfrom`, and `left` are those behind it.
abbrev pub Answered : List (Rc × List ℕ) → List ℕ → List (Rc × List ℕ) → Type 0
Answered answers d left =
    (front : List (Rc × List ℕ)) × (r : ℕ) × (answers ≡ front ++ ((done r, d) ∷ left))

-- Answers behind an answer.
Answered-trans :
    (answers left rest : List (Rc × List ℕ)) (d d' : List ℕ)
    → Answered answers d left
    → Answered left d' rest
    → Answered answers d' rest
Answered-trans answers left rest d d' (front, r, e) (front', r', e') = (
  front ++ ((done r, d) ∷ front'),
  r',
  e ∙ ap (λ x. front ++ ((done r, d) ∷ x)) e' ∙ assoc front ((done r, d) ∷ front') _,
)
  where
    assoc : (xs ys zs : List (Rc × List ℕ)) → xs ++ (ys ++ zs) ≡ (xs ++ ys) ++ zs
    assoc [] ys zs = refl
    assoc (x ∷ xs) ys zs = ap (◌∷◌ x) (assoc xs ys zs)

-- What a receive makes of an answer: at most `size` bytes of it.
abbrev Cut : ℕ → List (Rc × List ℕ) → Rc × List ℕ → List (Rc × List ℕ) → Type 0
Cut size answers (fail e, frame) left = Unit
Cut size answers (done k, frame) left =
    (d : List ℕ) × Answered answers d left
    × (frame ≡ take size d)
    × (k ≡ length frame)
    × (0 < length frame)

abbrev CutOr : ℕ → List (Rc × List ℕ) → Option (Rc × List ℕ × List (Rc × List ℕ)) → Type 0
CutOr size answers none = Unit
CutOr size answers (some (rc, frame, left)) = Cut size answers (rc, frame) left

recv_loop-Cut :
    (size : ℕ) (answers : List (Rc × List ℕ)) → CutOr size answers (recv_loop size answers)
unfolding recv_loop
recv_loop-Cut size [] = tt
recv_loop-Cut size ((done n, bytes) ∷ answers) =
    by_length (Bool-cases (length (take size bytes) == 0))
  where
    by_length :
        ((length (take size bytes) == 0) ≡ true) ⊎ ((length (take size bytes) == 0) ≡ false)
        → CutOr size ((done n, bytes) ∷ answers) (
            let got = take size bytes in
            some (if length got == 0 then fail econnreset else done (length got), got, answers))
    by_length (inl y) = rw y tt
    by_length (inr y) = rw y (bytes, ([], n, refl), refl, refl, ground arith)
recv_loop-Cut size ((fail e, bytes) ∷ answers) =
    by_code (e == eintr) (recv_loop size answers) (recv_loop-Cut size answers)
  where
    by_code :
        (again : Bool) (o : Option (Rc × List ℕ × List (Rc × List ℕ)))
        → CutOr size answers o
        → CutOr size
            ((fail e, bytes) ∷ answers)
            (if again then o else some (Rc.fail e, [], answers))
    by_code true none h = tt
    by_code true (some (fail x, frame, left)) h = tt
    by_code true (some (done k, frame, left)) (d, (front, r, f), cut, k_is, pos) =
        (d, ((fail e, bytes) ∷ front, r, ap (◌∷◌ (fail e, bytes)) f), cut, k_is, pos)
    by_code false o h = tt

abbrev Read : ℕ → World → Rc × List ℕ → World → Type 0
Read size w got v = Cut size w.recvfrom got v.recvfrom

recv_timeout-Read :
    (size timeout_ms : ℕ) (w : World) → Post (Read size w) (Uds.recv_timeout size timeout_ms w)
unfolding Uds.recv_timeout
recv_timeout-Read size timeout_ms w = by_size (size == 0) (ltb 0 timeout_ms)
  where
    by_datagram :
        (v : World) (o : Option (Rc × List ℕ × List (Rc × List ℕ)))
        → CutOr size w.recvfrom o
        → Post (Read size w) (finish_recv v o)
    by_datagram v none h = tt
    by_datagram v (some (rc, frame, left)) h = h

    by_poll : (o : Option (Rc × List Rc)) → Post (Read size w) (after_poll size w o)
    by_poll none = tt
    by_poll (some (fail e, left)) = tt
    by_poll (some (done zero, left)) = tt
    by_poll (some (done (suc n), left)) =
        by_datagram (record w { poll = left }) (recv_loop size w.recvfrom)
          (recv_loop-Cut size w.recvfrom)

    by_size :
        (empty waits : Bool)
        → Post (Read size w) (
            if empty
            then some ((fail einval, []), w)
            else if waits
            then after_poll size w (poll_loop w.poll)
            else finish_recv w (recv_loop size w.recvfrom))
    by_size true waits = tt
    by_size false true = by_poll (poll_loop w.poll)
    by_size false false = by_datagram w (recv_loop size w.recvfrom) (recv_loop-Cut size w.recvfrom)

-- What reaches the caller is the payload of a datagram that is no control frame, but no more of it than
-- one byte less than there is room for.
abbrev pub Payload : ℕ → List (Rc × List ℕ) → Rc × List ℕ → Type 0
Payload size answers (fail e, bytes) = Unit
Payload size answers (done n, bytes) =
    (d : List ℕ) × (left : List (Rc × List ℕ)) × Answered answers d left
    × (get_or d 0 1 ≢ tag_ctrl)
    × (bytes ≡ take (size - 1) (drop 1 d))
    × (n ≡ length bytes)

length-take : (n : ℕ) (xs : List ℕ) → length (take n xs) ≤ n
length-take zero xs = omega arith
length-take (suc n) [] = omega arith
length-take (suc n) (x ∷ xs) = let l = length-take n xs in omega (arith, l)

take_none : (n : ℕ) → ◌≡◌ {A = List ℕ} [] (take n [])
take_none zero = refl
take_none (suc n) = refl

drop-take : (size : ℕ) (d : List ℕ) → drop 1 (take size d) ≡ take (size - 1) (drop 1 d)
drop-take zero d = refl
drop-take (suc size) [] = take_none (suc size - 1)
drop-take (suc size) (b ∷ d) = ap (λ n. take n d) (omega arith)

first-take :
    (size : ℕ) (d : List ℕ) → 0 < length (take size d) → get_or (take size d) 0 1 ≡ get_or d 0 1
first-take zero d pos = absurd (omega arith)
first-take (suc size) [] pos = refl
first-take (suc size) (b ∷ d) pos = refl

Payload-trans :
    (size : ℕ) (answers left : List (Rc × List ℕ)) (d : List ℕ) (out : Rc × List ℕ)
    → Answered answers d left
    → Payload size left out
    → Payload size answers out
Payload-trans size answers left d (fail e, bytes) at p = tt
Payload-trans size answers left d (done n, bytes) at (d', rest, at', tagged, whole, count) =
    (d', rest, Answered-trans answers left rest d d' at at', tagged, whole, count)

-- A datagram with a data tag always fits what it was read into, so it is never refused.
deliver-Payload :
    (size k : ℕ) (frame : List ℕ) (answers left : List (Rc × List ℕ))
    → (get_or frame 0 1 == tag_ctrl) ≡ false
    → Cut size answers (done k, frame) left
    → Payload size answers (payload size frame)
deliver-Payload size k frame answers left tagged (d, at, cut, count, pos) =
    let short : length frame ≤ size = rw cut (length-take size d) in
    let fits : ltb size (length frame - 1) ≡ false = ground (arith, short) in
    rw fits (
      d,
      left,
      at,
      λ tag. absurd (ground (arith, tagged, first, tag)),
      ap (drop 1) cut ∙ drop-take size d,
      sym (length-drop 1 frame),
    )
  where
    first : get_or frame 0 1 ≡ get_or d 0 1
    first = ap (λ x. get_or x 0 1) cut ∙ first-take size d (subst (λ x. 0 < length x) cut pos)

module _ {D : Type 0} where
  abbrev Delivers : ℕ → World → (Rc × List ℕ) × Ctx D → World → Type 0
  Delivers size w (out, c) v = Payload size w.recvfrom out

  from_socket-Delivers :
      (again : Ctx D → M ((Rc × List ℕ) × Ctx D)) (c : Ctx D) (size : ℕ) (got : Rc × List ℕ)
      (w w1 : World)
      → Read size w got w1
      → ((x : Ctx D) (v : World) → Post (Delivers size v) (again x v))
      → Post (Delivers size w) (from_socket again c size got w1)
  unfolding from_socket
  from_socket-Delivers again c size (fail e, frame) w w1 cut go = tt
  from_socket-Delivers again c size (done k, frame) w w1 cut go =
      by_tests (Bool-cases (k == 0)) (Bool-cases (get_or frame 0 1 == tag_ctrl))
    where
      by_tests :
          ((k == 0) ≡ true) ⊎ ((k == 0) ≡ false)
          → ((get_or frame 0 1 == tag_ctrl) ≡ true) ⊎ ((get_or frame 0 1 == tag_ctrl) ≡ false)
          → Post (Delivers size w) (
              (if k == 0
                  then return ((done 0, []), c)
                  else if get_or frame 0 1 == tag_ctrl
                  then (handle_control c frame >>= again)
                  else return (payload size frame, c))
                w1)
      by_tests (inl y) ctrl =
          let (d, at, whole, count, pos) = cut in absurd (ground (arith, count, pos))
      by_tests (inr n) (inl y) =
          rw (n, y)
            (>>=-Post (SameDatagrams w1) (Delivers size w) (handle_control c frame) again w1
              (handle_control-SameDatagrams c frame w1)
              (λ x v same.
                Post-map (Delivers size v) (Delivers size w) (again x v) (go x v) (λ out u p.
                  let (d, at, whole, count, pos) = cut in
                  Payload-trans size w.recvfrom w1.recvfrom d out.0 at
                    (subst (λ answers. Payload size answers out.0) same p))))
      by_tests (inr n) (inr y) =
          rw (n, y) (deliver-Payload size k frame w.recvfrom w1.recvfrom y cut)

  uds_rounds-Delivers :
      (fuel size timeout_ms : ℕ) (c : Ctx D) (w : World)
      → Post (Delivers size w) (uds_rounds fuel size timeout_ms c w)
  unfolding uds_rounds
  uds_rounds-Delivers zero size timeout_ms c w = tt
  uds_rounds-Delivers (suc fuel) size timeout_ms c w =
      >>=-Post (Read size w) (Delivers size w) (Uds.recv_timeout size timeout_ms)
        (from_socket (λ x. uds_rounds fuel size timeout_ms x) c size) w
        (recv_timeout-Read size timeout_ms w)
        (λ got v cut.
          from_socket-Delivers (λ x. uds_rounds fuel size timeout_ms x) c size got w v cut
            (λ x u. uds_rounds-Delivers fuel size timeout_ms x u))

  -- What a receive from the socket alone delivers. Where `adapt_recv_uds_timeout` succeeds, the bytes are
  -- the payload of a datagram that the kernel gave and that is no control frame, in as many bytes as
  -- the result says; but a payload of at least `max_size` bytes is cut to `max_size - 1`, and still
  -- reported as a success.
  pub adapt_recv_uds_payload :
      (c c' : Ctx D) (max_size timeout_ms n : ℕ) (bytes : List ℕ) (w w' : World)
      → adapt_recv_uds_timeout c max_size timeout_ms w ≡ some (((done n, bytes), c'), w')
      → (d : List ℕ) × (left : List (Rc × List ℕ)) × Answered w.recvfrom d left
        × (get_or d 0 1 ≢ tag_ctrl)
        × (bytes ≡ take (max_size - 1) (drop 1 d))
        × (n ≡ length bytes)
  unfolding adapt_recv_uds_timeout
  adapt_recv_uds_payload c c' max_size timeout_ms n bytes w w' e =
      Post_of (Delivers max_size w) e (by_size (max_size == 0))
    where
      by_size :
          (empty : Bool)
          → Post (Delivers max_size w) (
              if empty
              then some (((fail einval, []), c), w)
              else uds_rounds (suc (length w.recvfrom)) max_size timeout_ms c w)
      by_size true = tt
      by_size false = uds_rounds-Delivers (suc (length w.recvfrom)) max_size timeout_ms c w
