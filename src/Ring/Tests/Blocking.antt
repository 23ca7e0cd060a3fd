-- ===== src/Ring/Tests/Blocking.antt =====
-- A push that waits for one round, until the consumer has taken the message before it.
use Prim.{tt}
use adaptipc.Base.{ℕ, ◌≡◌, refl, ◌≢◌, inl, inr, none, List, [], ◌∷◌, arith, tabulate}
use adaptipc.Base.Errno.{done}
use adaptipc.Ring.{Ring, push, push_straight}
use adaptipc.Ring.Inv.{Holds}
use adaptipc.Ring.Push.{push_refines}
use adaptipc.Ring.Flow.{Round, push_blocking}
use adaptipc.Ring.Blocking.{Drains, Honest, Blocked, push_blocking_refines}
use adaptipc.Ring.Blocking.Room.{IsRoomy, push_blocking_returns}
use adaptipc.Ring.Tests.{at_cursor, at_start, one_page, tagged}

abbrev large : List ℕ
large = tabulate (λ i. 7) 0 3300

abbrev filled : Ring
filled = (push (at_cursor 0) large).1

is_pushed : (push (at_cursor 0) large).0 ≡ done 0
unfolding push
is_pushed = refl

filled-Holds : Holds filled (large ∷ [])
filled-Holds = elim (push_refines large at_start) [
  | inl (fits, ok, kept) ↦ kept
  | inr (over, bad, same) ↦ absurd (bad is_pushed)
]

abbrev asleep : Round
asleep = record { tail = 0; tail2 = 0; wait = done 0; flag = 0 }

abbrev drained : Round
drained = record { tail = 3304; tail2 = 3304; wait = done 0; flag = 0 }

filled_fields : (filled.head ≡ 3304) × (filled.capacity ≡ 4096)
unfolding push push_straight
filled_fields = (refl, refl)

at_rest : Drains filled (large ∷ []) 0 (large ∷ [])
unfolding push push_straight
at_rest = ([], refl, filled-Holds)

emptied : Holds (record filled { tail = 3304 }) []
emptied =
    let (head, size) = filled_fields in
    record {
      shape = rw size one_page;
      head_word = omega (arith, head);
      tail_word = omega arith;
      filled = omega (arith, head, size);
      records = omega (arith, head, size);
    }

one_round : Honest filled (large ∷ []) (drained ∷ [])
one_round = ([], [], (large ∷ [], refl, emptied), ([], refl, emptied), tt, tt)

rounds-Honest : Honest filled (large ∷ []) (asleep ∷ drained ∷ [])
rounds-Honest = (large ∷ [], large ∷ [], at_rest, at_rest, one_round, one_round)

has_room : IsRoomy filled 3304 tagged
has_room =
    let (head, size) = filled_fields in
    rw (head, size) (ground arith, ((ground arith, ground arith, ground arith), ground arith))

push_blocking_refines_example :
    Blocked (large ∷ []) tagged (push_blocking tagged (asleep ∷ drained ∷ []) filled)
push_blocking_refines_example =
    push_blocking_refines filled tagged (refl, (refl, tt)) (omega arith) (large ∷ [])
      (asleep ∷ drained ∷ []) filled-Holds rounds-Honest

push_blocking_returns_example : push_blocking tagged (asleep ∷ drained ∷ []) filled ≢ none
push_blocking_returns_example =
    push_blocking_returns filled tagged drained [] (refl, (refl, tt)) (omega arith) has_room
      (large ∷ []) (asleep ∷ []) filled-Holds rounds-Honest
