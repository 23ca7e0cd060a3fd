-- ===== src/Router/Types.antt =====
-- src/adapt_ipc.c: `struct adapt_ctx`, the counters of `adapt_stats_t`, and `adapt_config_t`.
use adaptipc.Base.{
  ℕ, ◌+◌, ◌-◌, Bool, true, false, Option, none, some, List, [], ◌∷◌, ◌++◌, if◌then◌else◌, leb, ◌==◌,
}
use adaptipc.Base.Errno.{Rc, done, fail, enomem}
use adaptipc.Health.{Health}
use adaptipc.Cost.Types.{Route, Policy, Qos, Rtctx, CostCfg, Learn, Decision}
use adaptipc.Cost.Log.{DecLog}
use adaptipc.Ring.{Ring}
use adaptipc.Ring.Open.{Role, producer, consumer, Os, Object, attach, create}
use adaptipc.World.{World, M, now_ns}
use adaptipc.Uds.Open.{unlink}

-- `adapt_stats_t`.
pub record Stats : Type 0 where
  pub sends : ℕ
  pub sends_shm : ℕ
  pub sends_uds : ℕ
  pub send_escalations : ℕ
  pub router_ns : ℕ
  pub send_alloc_ns : ℕ
  pub send_copy_ns : ℕ
  pub send_copy_bytes : ℕ
  pub recv_msgs : ℕ
  pub rx_shm_first : ℕ
  pub rx_shm_later : ℕ
  pub rx_uds_prompt : ℕ
  pub rx_uds_later : ℕ
  pub poll_calls : ℕ
  pub poll_timeouts : ℕ
  pub poll_wait_ns : ℕ
  pub recv_loop_iters : ℕ
  pub shm_setup_reqs : ℕ
  pub shm_setup_acks : ℕ
  pub negot_wait_ns : ℕ
  pub route_switches : ℕ
  pub backpressure_parks : ℕ
  pub health_transitions : ℕ
  pub decisions : ℕ

-- `adapt_config_t`; a null `shm_name` is `none`.
pub record Config (D : Type 0) : Type 0 where
  pub shm_name : Option (List ℕ)
  pub local_sock : List ℕ
  pub shm_capacity : ℕ
  pub nonblocking_send : Bool
  pub policy : Policy
  pub qos : Qos
  pub latency_budget_us : D

-- `struct adapt_ctx`. The endpoint is its path and the calls on it, the scratch buffer its capacity; of
-- `cfg` there is what the operations read.
pub record Ctx (D : Type 0) : Type 0 where
  pub role : Role
  pub shm_name : List ℕ
  pub shm_capacity : ℕ
  pub nonblocking_send : Bool
  pub ewma_size : D
  pub last_route : Route
  pub ring : Option Ring
  pub uds : Option (List ℕ)
  pub rxbuf_cap : ℕ
  pub stats_on : Bool
  pub st : Stats
  pub retry_pending : Bool
  pub pending_size : ℕ
  pub pending_route : Route
  pub alpha : D
  pub negot_done : Bool
  pub neg_name : List ℕ
  pub last_req_ns : ℕ
  pub eager_shm : Bool
  pub policy : Policy
  pub cmcfg : CostCfg D
  pub rt : Rtctx D
  pub learn : Learn D
  pub health : Health
  pub declog : DecLog (Decision D)
  pub declog_path : Bool
  pub decision_seq : ℕ

-- `if (ctx->stats_on)` around a change of the counters.
abbrev pub count : {D : Type 0} → Ctx D → Stats → Ctx D
count ctx st = if ctx.stats_on then record ctx { st = st } else ctx

-- A reading of the clock, made only where `on` holds.
abbrev pub now_if : Bool → M ℕ
now_if true w = now_ns w
now_if false w = some (0, w)

-- Whether there is a ring.
abbrev pub mapped : Option Ring → ℕ
mapped none = 0
mapped (some r) = 1

abbrev pub gained : Rc × Option Ring → ℕ
gained (done n, ring) = mapped ring
gained (fail e, ring) = 0

-- `shm_open` creates the object, whatever comes behind it.
abbrev pub link_object : Os → List ℕ → List (List ℕ) → List (List ℕ)
link_object os [] objects = objects
link_object os (c ∷ cs) objects = elim os.shm_open [
  | fail e ↦ objects
  | done fd ↦ if c == b'/' then unlink (c ∷ cs) objects ++ ((c ∷ cs) ∷ []) else objects
]

-- What opening a ring leaves, with the answers that are left.
abbrev pub opened_ring : Os → List ℕ → List (Os × Object) → Rc × Option Ring → World → World
opened_ring os name maps opened w = record w {
  maps = maps;
  rings = w.rings + gained opened;
  objects = link_object os name w.objects;
}

-- `shm_ring_close`.
unfoldable pub ring_close : Option Ring → Bool → World → World
unfolding unlink
ring_close none unlink_obj w = w
ring_close (some r) unlink_obj w = record w {
  rings = w.rings - 1;
  objects = if unlink_obj then unlink r.name w.objects else w.objects;
}

abbrev pub is_producer : Role → Bool
is_producer producer = true
is_producer consumer = false

-- `shm_ring_attach` and `shm_ring_create`, with the answers for the next mapping.
unfoldable pub attach_with : List (Os × Object) → List ℕ → ℕ → Role → M (Rc × Option Ring)
unfolding unlink
attach_with [] name capacity role w = none
attach_with ((os, o) ∷ maps) name capacity role w = elim (attach os name capacity role o) [
  | none ↦ none
  | some opened ↦ some (opened, opened_ring os name maps opened w)
]

unfoldable pub ring_attach : List ℕ → ℕ → Role → M (Rc × Option Ring)
unfolding attach_with
ring_attach name capacity role w = attach_with w.maps name capacity role w

unfoldable pub create_with : List (Os × Object) → List ℕ → ℕ → Role → M (Rc × Option Ring)
unfolding unlink
create_with [] name capacity role w = none
create_with ((os, o) ∷ maps) name capacity role w = elim (create os name capacity role o) [
  | none ↦ none
  | some opened ↦ some (opened, opened_ring os name maps opened w)
]

unfoldable pub ring_create : List ℕ → ℕ → Role → M (Rc × Option Ring)
unfolding create_with
ring_create name capacity role w = create_with w.maps name capacity role w

-- `grow_rxbuf`.
unfoldable pub grow_with : {D : Type 0} → List Bool → Ctx D → ℕ → M (Rc × Ctx D)
grow_with [] ctx cap w = none
grow_with (true ∷ answers) ctx cap w =
    some ((done 0, record ctx { rxbuf_cap = cap }), record w { realloc = answers })
grow_with (false ∷ answers) ctx cap w = some ((fail enomem, ctx), record w { realloc = answers })

unfoldable pub grow_rxbuf : {D : Type 0} → Ctx D → ℕ → M (Rc × Ctx D)
unfolding grow_with
grow_rxbuf ctx cap w =
    if leb cap ctx.rxbuf_cap then some ((done 0, ctx), w) else grow_with w.realloc ctx cap w
