-- ===== src/Showcase.antt =====
-- showcase/decision_log.c: the demonstrator, a client of both endpoints, over the calls of the library
-- that it makes. What `rand` answers is an argument; the file is the list of its rows.
pub mod Consistency
pub mod Invariant
pub mod Pair
pub mod Recorded
mod Tests
use adaptipc.Base.{
  ℕ, zero, suc, ◌+◌, ◌-◌, ◌*◌, ◌/◌, ◌%◌, ◌^◌, Bool, true, false, not, ◌&&◌, ◌||◌, Option, none,
  some, List, [], ◌∷◌, ◌++◌, leb, ◌==◌, if◌then◌else◌, tabulate,
}
use adaptipc.Base.Bytes.{u32_bytes}
use adaptipc.Base.Errno.{Rc, done, fail, eagain}
use adaptipc.Double.{Double, ◌⊕◌, ◌⊗◌, ◌⊘◌, ◌≼◌, real}
use adaptipc.Cost.Types.{Route, same_route}
use Prim.Native.String.{String}

-- What the demonstrator calls: `adapt_send` and the queries on the producer, `adapt_recv` on the
-- consumer, and the state of both.
pub record Endpoints (D S : Type 0) : Type 0 where
  pub send : List ℕ → S → Option (Rc × S)
  pub recv : ℕ → S → Option ((Rc × List ℕ) × S)
  pub last_route : S → Route
  pub get_ewma : S → D
  pub shm_used_bytes : S → ℕ
  pub shm_capacity : S → ℕ

-- A row of the file.
pub record Row (D : Type 0) : Type 0 where
  pub seq : ℕ
  pub payload : ℕ
  pub ewma : D
  pub route : Route
  pub switched : Bool
  pub shm_cost_us : D
  pub uds_cost_us : D
  pub queue_pct : D
  pub reason : String

-- The exit code, the rows, and the number of switches.
pub record Outcome (D : Type 0) : Type 0 where
  pub exit : ℕ
  pub rows : List (Row D)
  pub switches : ℕ

-- `ph == 1`: the second third of the messages is large.
abbrev pub base_size : ℕ → ℕ → ℕ
base_size msgs i = if i * 3 % 2 ^ 64 / msgs == 1 then 16384 else 512

abbrev pub payload_size : (ℕ → ℕ) → ℕ → ℕ → ℕ
payload_size rand msgs i = base_size msgs i + rand i % 64

-- `tx`: the number of the message in its first eight bytes, and the fill.
abbrev pub tx : ℕ → ℕ → List ℕ
tx i size =
    (u32_bytes (i % 2 ^ 32) ++ u32_bytes (i / 2 ^ 32 % 2 ^ 32)) ++ tabulate (λ k. 0x5a) 0 (size - 8)

-- `prev_route >= 0 && route != prev_route`.
abbrev pub is_switch : Option Route → Route → Bool
is_switch none route = false
is_switch (some prev) route = not (same_route route prev)

-- `sizeof(rx)`.
abbrev pub rx_size : ℕ
rx_size = 70000

module _ {D : Type 0} ⦃dbl : Double D⦄ where
  abbrev pub est_shm_us : ℕ → D
  est_shm_us s = dbl.num 20 1000 ⊕ (dbl.num 143 10000 ⊗ real s ⊘ real 1000)

  abbrev pub est_uds_us : ℕ → D
  est_uds_us s = dbl.num 2500 1000 ⊕ (dbl.num 180 10000 ⊗ real s ⊘ real 1000)

  abbrev pub reason_text : Bool → ℕ → D → String
  reason_text switched payload ewma =
      if switched
      then (if leb 4096 payload
          then "ewma crossed TAU_HIGH -> SHM"
          else if leb payload 1024
          then "ewma crossed TAU_LOW -> UDS"
          else "margin-triggered switch (cost-aware)")
      else if leb 4096 payload || (real 4096 ≼ ewma)
      then "bulk payload: stay on SHM"
      else if leb payload 1024 && (ewma ≼ real 1020)
      then "control payload: stay on UDS"
      else "hysteresis band: hold prior route"

  abbrev pub queue_pct : ℕ → ℕ → D
  queue_pct used size = if size == 0 then real 0 else real 100 ⊗ real used ⊘ real size

  module _ {S : Type 0} (lib : Endpoints D S) where
    -- `do ... while (rc == -EAGAIN)`, in at most that many attempts.
    unfoldable pub send_all : ℕ → List ℕ → S → Option (Rc × S)
    send_all zero bytes s = none
    send_all (suc attempts) bytes s = elim (lib.send bytes s) [
      | none ↦ none
      | some (done n, s') ↦ some (done n, s')
      | some (fail e, s') ↦
          let again = send_all attempts bytes s' in if e == eagain then again else some (fail e, s')
    ]

    -- The row of a message that has been received.
    abbrev pub row_of : Option Route → ℕ → ℕ → S → Row D
    row_of prev i size s =
        let route = lib.last_route s in
        let switched = is_switch prev route in
        record {
          seq = i;
          payload = size;
          ewma = lib.get_ewma s;
          route = route;
          switched = switched;
          shm_cost_us = est_shm_us size;
          uds_cost_us = est_uds_us size;
          queue_pct = queue_pct (lib.shm_used_bytes s) (lib.shm_capacity s);
          reason = reason_text switched size (lib.get_ewma s);
        }

    abbrev pub stopped : ℕ → ℕ → S → Option (Outcome D × S)
    stopped code switches s = some (record { exit = code; rows = []; switches = switches }, s)

    abbrev pub with_row : Row D → Option (Outcome D × S) → Option (Outcome D × S)
    with_row row none = none
    with_row row (some (out, s)) = some (record out { rows = row ∷ out.rows }, s)

    -- What one message leads to, behind its receipt and behind its send; `next` is the rest of the loop.
    abbrev pub received :
        (Option Route → ℕ → S → Option (Outcome D × S))
        → Option Route
        → ℕ
        → ℕ
        → ℕ
        → Option ((Rc × List ℕ) × S)
        → Option (Outcome D × S)
    received next prev switches i size none = none
    received next prev switches i size (some ((fail e, bytes), s)) = stopped 6 switches s
    received next prev switches i size (some ((done n, bytes), s)) =
        let row = row_of prev i size s in
        if n == size
        then with_row row
            (next (some row.route) (if row.switched then switches + 1 else switches) s)
        else stopped 6 switches s

    abbrev pub sent :
        (Option Route → ℕ → S → Option (Outcome D × S))
        → Option Route
        → ℕ
        → ℕ
        → ℕ
        → Option (Rc × S)
        → Option (Outcome D × S)
    sent next prev switches i size none = none
    sent next prev switches i size (some (fail e, s)) = stopped 5 switches s
    sent next prev switches i size (some (done n, s)) =
        if n == 0
        then received next prev switches i size (lib.recv rx_size s)
        else stopped 5 switches s

    module _ (rand : ℕ → ℕ) (msgs attempts : ℕ) where
      -- `for (i = 0; i < msgs; i++)`, with the number of messages that are left.
      unfoldable pub messages : ℕ → ℕ → Option Route → ℕ → S → Option (Outcome D × S)
      unfolding send_all
      messages zero i prev switches s = stopped 0 switches s
      messages (suc left) i prev switches s =
          let size = payload_size rand msgs i in
          sent (messages left (i + 1)) prev switches i size (send_all attempts (tx i size) s)

      -- The whole loop.
      unfoldable pub demonstrate : S → Option (Outcome D × S)
      unfolding messages
      demonstrate s = messages msgs 0 none 0 s
