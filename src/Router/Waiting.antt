-- ===== src/Router/Waiting.antt =====
-- src/adapt_ipc.c: the wait of `producer_ensure_shm` for the acknowledgement, over what each of its
-- rounds hears.
pub mod Hearing
pub mod Ensure
use adaptipc.Base.{
  ℕ, zero, suc, ◌+◌, ◌≤◌, ◌<◌, ◌≡◌, ◌≢◌, refl, ap, true, false, Option, none, some, List, [], ◌∷◌,
  arith, length, take,
}
use adaptipc.Base.Errno.{Rc, done, fail}
use adaptipc.World.{World}
use adaptipc.Uds as Uds
use adaptipc.Router.Types.{Ctx}
use adaptipc.Router.Negotiate.{is_ack, producer_map_ring, poll_ms}

-- A round that leads to another one: silence up to a reading of the clock, or a datagram.
pub data Beat : Type 0 where
  silence : ℕ → Beat
  chatter : List ℕ → Beat

-- A round that ends the wait: silence up to a reading of the clock, a failure of `poll`, or an
-- acknowledgement with the bytes behind its three.
pub data Ending : Type 0 where
  late : ℕ → Ending
  broken : ℕ → Ending
  acked : List ℕ → Ending

-- What `poll`, the clock and `recvfrom` answer to such rounds, in front of further answers.
abbrev pub polls : List Beat → Ending → List Rc → List Rc
polls [] (late t) rest = done 0 ∷ rest
polls [] (broken e) rest = fail e ∷ rest
polls [] (acked more) rest = done 1 ∷ rest
polls (silence t ∷ beats) last rest = done 0 ∷ polls beats last rest
polls (chatter frame ∷ beats) last rest = done 1 ∷ polls beats last rest

abbrev pub readings : List Beat → Ending → List ℕ → List ℕ
readings [] (late t) rest = t ∷ rest
readings [] (broken e) rest = rest
readings [] (acked more) rest = rest
readings (silence t ∷ beats) last rest = t ∷ readings beats last rest
readings (chatter frame ∷ beats) last rest = readings beats last rest

abbrev pub frames : List Beat → Ending → List (Rc × List ℕ) → List (Rc × List ℕ)
frames [] (late t) rest = rest
frames [] (broken e) rest = rest
frames [] (acked more) rest = (done (3 + length more), 0 ∷ 2 ∷ 0 ∷ more) ∷ rest
frames (silence t ∷ beats) last rest = frames beats last rest
frames (chatter frame ∷ beats) last rest = (done (length frame), frame) ∷ frames beats last rest

-- A reading of the clock that is not past the deadline; a datagram that is no acknowledgement.
abbrev pub GoesOn : ℕ → ℕ → Beat → Type 0
GoesOn deadline room (silence t) = t ≤ deadline
GoesOn deadline room (chatter frame) =
    (0 < length frame) × (length frame ≤ room) × ((more : List ℕ) → frame ≢ 0 ∷ 2 ∷ 0 ∷ more)

-- A reading past the deadline; a failure that is no interruption; an acknowledgement.
abbrev pub IsEnd : ℕ → ℕ → Ending → Type 0
IsEnd deadline room (late t) = deadline < t
IsEnd deadline room (broken e) = (e ≢ 4) × (e ≢ 11)
IsEnd deadline room (acked more) = 3 + length more ≤ room

-- The result of the wait.
abbrev pub Verdict : {D : Type 0} → Ending → Ctx D → World → Option ((Rc × Ctx D) × World) → Type 0
Verdict (late t) c w o = o ≡ some ((fail 110, c), w)
Verdict (broken e) c w o = o ≡ some ((fail e, c), w)
Verdict (acked more) c w o = o ≡ elim (producer_map_ring c w) [
  | none ↦ none
  | some ((fail e, c'), w') ↦ some ((fail e, c'), w')
  | some ((done n, c'), w') ↦ some ((done 0, record c' { negot_done = true }), w')
]

-- The world that answers so.
abbrev pub answering : List Beat → Ending → List Rc → List ℕ → List (Rc × List ℕ) → World → World
answering beats last ps ts ds w = record w {
  poll = polls beats last ps;
  clock = readings beats last ts;
  recvfrom = frames beats last ds;
}

take_all : (n : ℕ) (xs : List ℕ) → length xs ≤ n → take n xs ≡ xs
take_all zero [] h = refl
take_all zero (x ∷ xs) h = absurd (omega arith)
take_all (suc n) [] h = refl
take_all (suc n) (x ∷ xs) h = ap (◌∷◌ x) (take_all n xs (omega arith))

pub length-polls :
    (beats : List Beat) (last : Ending) (ps : List Rc) → length beats ≤ length (polls beats last ps)
length-polls [] last ps = omega arith
length-polls (silence t ∷ beats) last ps = let l = length-polls beats last ps in omega (arith, l)
length-polls (chatter frame ∷ beats) last ps =
    let l = length-polls beats last ps in omega (arith, l)

-- Within its room, only an acknowledgement is taken for one.
pub is_ack-false :
    (frame : List ℕ) → ((more : List ℕ) → frame ≢ 0 ∷ 2 ∷ 0 ∷ more) → is_ack frame ≡ false
is_ack-false [] h = refl
is_ack-false (a ∷ []) h = refl
is_ack-false (a ∷ b ∷ []) h = refl
is_ack-false (a ∷ b ∷ d ∷ more) h = let other = h more in ground arith

pub heard_silence :
    (room : ℕ) (ps : List Rc) (w : World)
    → 0 < room
    → Uds.recv_timeout room poll_ms (record w { poll = done 0 ∷ ps })
      ≡ some ((fail 11, []), record w { poll = ps })
unfolding Uds.recv_timeout
heard_silence room ps w pos = ground arith

pub heard_failure :
    (room e : ℕ) (ps : List Rc) (w : World)
    → 0 < room
    → e ≢ 4
    → Uds.recv_timeout room poll_ms (record w { poll = fail e ∷ ps })
      ≡ some ((fail e, []), record w { poll = ps })
unfolding Uds.recv_timeout
heard_failure room e ps w pos other = ground arith

pub heard_frame :
    (room n : ℕ) (frame : List ℕ) (ps : List Rc) (ds : List (Rc × List ℕ)) (w : World)
    → 0 < length frame
    → length frame ≤ room
    → Uds.recv_timeout room poll_ms
        (record w { poll = done 1 ∷ ps; recvfrom = (done n, frame) ∷ ds })
      ≡ some ((done (length frame), frame), record w { poll = ps; recvfrom = ds })
unfolding Uds.recv_timeout
heard_frame room n frame ps ds w pos fits = rw (take_all room frame fits) (ground arith)
