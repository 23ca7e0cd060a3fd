-- ===== src/Router/Init.antt =====
-- src/adapt_ipc.c: `adapt_init`.
use adaptipc.Base.{
  ℕ, Bool, true, false, ◌&&◌, not, Option, none, some, List, [], ◌∷◌, if◌then◌else◌, ltb, ◌==◌,
}
use adaptipc.Double.{Double, ◌≺◌, ◌≼◌, real}
use adaptipc.Base.Errno.{Rc, done, fail, enomem}
use adaptipc.Health.{State}
use adaptipc.Health as Monitor
use adaptipc.Ring.{Ring}
use adaptipc.Ring.Open.{Role, producer, consumer}
use adaptipc.Cost.Types.{
  undecided, Policy, default, size_only, size_hysteresis, queue_aware, cost_aware, full_adaptive,
  is_policy, latency, is_qos, CostCfg, no_reason, Decision,
}
use adaptipc.Cost.Config.{Variable, defaults, from_env}
use adaptipc.Cost.Context as Context
use adaptipc.Cost.Learn as Learning
use adaptipc.Cost.Log as Log
use adaptipc.World.{M, ◌>>=◌, return}
use adaptipc.Base.Text.{same_text}
use adaptipc.Cost.Names.{
  size_only_text, size_hysteresis_text, queue_aware_text, cost_aware_text, full_adaptive_text,
}
use adaptipc.Uds.Open.{uds_open}
use adaptipc.Router.Types.{
  Stats, Config, Ctx, ring_attach, ring_create, ring_close, is_producer, grow_rxbuf,
}
use adaptipc.Router.Classify.{max_dgram}

-- What `getenv` says of each variable, and `atof` of those that hold numbers, and what the allocation
-- answers.
pub record Env (D : Type 0) : Type 0 where
  pub stats : Bool
  pub eager_shm : Bool
  pub latency_weight : Bool
  pub decision_log : Bool
  pub alpha : Option D
  pub policy : Option (List ℕ)
  pub cost : Variable → Option D
  pub calloc : Bool

abbrev pub no_stats : Stats
no_stats = record {
  sends = 0;
  sends_shm = 0;
  sends_uds = 0;
  send_escalations = 0;
  router_ns = 0;
  send_alloc_ns = 0;
  send_copy_ns = 0;
  send_copy_bytes = 0;
  recv_msgs = 0;
  rx_shm_first = 0;
  rx_shm_later = 0;
  rx_uds_prompt = 0;
  rx_uds_later = 0;
  poll_calls = 0;
  poll_timeouts = 0;
  poll_wait_ns = 0;
  recv_loop_iters = 0;
  shm_setup_reqs = 0;
  shm_setup_acks = 0;
  negot_wait_ns = 0;
  route_switches = 0;
  backpressure_parks = 0;
  health_transitions = 0;
  decisions = 0;
}

-- ADAPT_SHM_NAME_DEFAULT, "/adaptipc_shm_0".
abbrev pub default_name : List ℕ
default_name =
    b'/' ∷ b'a' ∷ b'd' ∷ b'a' ∷ b'p' ∷ b't' ∷ b'i' ∷ b'p' ∷ b'c' ∷ b'_' ∷ b's' ∷ b'h' ∷ b'm' ∷ b'_'
    ∷ b'0' ∷ []

abbrev pub or_else {ℓ} : {A : Type ℓ} → Option A → A → A
or_else none d = d
or_else (some a) d = a

-- The chain of `strcmp` on the policy's variable; another text names no policy.
unfoldable pub named_policy : List ℕ → Option Policy
named_policy pv =
    if same_text pv size_only_text
    then some size_only
    else if same_text pv size_hysteresis_text
    then some size_hysteresis
    else if same_text pv queue_aware_text
    then some queue_aware
    else if same_text pv cost_aware_text
    then some cost_aware
    else if same_text pv full_adaptive_text
    then some full_adaptive
    else none

-- A policy from the environment, or size with hysteresis.
unfoldable pub env_policy : Option (List ℕ) → Policy
unfolding named_policy
env_policy none = size_hysteresis
env_policy (some pv) = or_else (named_policy pv) size_hysteresis

-- An explicit policy wins over the environment.
unfoldable pub resolve_policy : Policy → Option (List ℕ) → Policy
unfolding env_policy
resolve_policy policy pv = if is_policy policy default then env_policy pv else policy

-- `fail:`.
unfoldable pub failed : {D : Type 0} → ℕ → Ctx D → M (Rc × Option (Ctx D))
unfolding ring_close
failed e ctx w = some ((fail e, none), ring_close ctx.ring (is_producer ctx.role) w)

module _ {D : Type 0} ⦃dbl : Double D⦄ where
  abbrev pub resolve_alpha : Option D → D
  resolve_alpha env =
      let a = or_else env (real 0) in if (real 0 ≺ a) && (a ≼ real 1) then a else dbl.num 2 10

  unfoldable pub resolve_cost : Config D → Env D → CostCfg D
  unfolding from_env defaults
  resolve_cost cfg env =
      let c =
        from_env env.cost
          (record defaults { qos = cfg.qos; latency_budget_us = cfg.latency_budget_us }) in
      if is_qos c.qos latency && not env.latency_weight
      then record c { latency_weight = real 2 }
      else c

  abbrev no_decision : Decision D
  no_decision = record {
    seq = 0;
    ts_ns = 0;
    payload = 0;
    occ_bytes = real 0;
    current = undecided;
    selected = undecided;
    cost_uds = real 0;
    cost_shm = real 0;
    queue_wait_shm_us = real 0;
    switch_cost_us = real 0;
    setup_cost_us = real 0;
    health_penalty_us = real 0;
    latency_penalty_us = real 0;
    score_uds = real 0;
    score_shm = real 0;
    reason = no_reason;
  }

  abbrev traced : Role → Env D → Bool
  traced producer env = env.decision_log
  traced consumer env = false

  -- The endpoint before anything is opened.
  unfoldable pub blank : Role → Config D → Env D → Ctx D
  unfolding resolve_cost resolve_policy Context.init Learning.init Monitor.init Log.init
  blank role cfg env =
      let cost = resolve_cost cfg env in
      record {
        role = role;
        shm_name = or_else cfg.shm_name default_name;
        shm_capacity = if cfg.shm_capacity == 0 then 65536 else cfg.shm_capacity;
        nonblocking_send = cfg.nonblocking_send;
        ewma_size = real 0;
        last_route = undecided;
        ring = none;
        uds = none;
        rxbuf_cap = 0;
        stats_on = env.stats;
        st = no_stats;
        retry_pending = false;
        pending_size = 0;
        pending_route = undecided;
        alpha = resolve_alpha env.alpha;
        negot_done = false;
        neg_name = [];
        last_req_ns = 0;
        eager_shm = env.eager_shm;
        policy = resolve_policy cfg.policy env.policy;
        cmcfg = cost;
        rt = Context.init (if ltb 8 cost.learn_min_samples then 8 else cost.learn_min_samples);
        learn = Learning.init cost;
        health = Monitor.init 8;
        declog = record (Log.init no_decision) { enabled = traced role env };
        declog_path = traced role env;
        decision_seq = 0;
      }

  -- `adapt_init` behind a step that may have failed.
  abbrev pub if_done : (Ctx D → M (Rc × Option (Ctx D))) → Rc × Ctx D → M (Rc × Option (Ctx D))
  if_done go (done n, ctx) = go ctx
  if_done go (fail e, ctx) = failed e ctx

  abbrev pub given : Ctx D → M (Rc × Option (Ctx D))
  given ctx = return (done 0, some ctx)

  -- The socket, and the buffer for datagrams.
  unfoldable pub after_open : Ctx D → Rc × Option (List ℕ) → M (Rc × Option (Ctx D))
  unfolding grow_rxbuf failed
  after_open ctx (fail e, uds) = failed e ctx
  after_open ctx (done n, uds) = grow_rxbuf (record ctx { uds = uds }) max_dgram >>= if_done given

  unfoldable pub open_socket : List ℕ → Ctx D → M (Rc × Option (Ctx D))
  unfolding after_open uds_open
  open_socket local_sock ctx = uds_open local_sock >>= after_open ctx

  unfoldable pub after_ring : List ℕ → Ctx D → Rc × Option Ring → M (Rc × Option (Ctx D))
  unfolding open_socket grow_rxbuf failed
  after_ring local_sock ctx (fail e, ring) = failed e ctx
  after_ring local_sock ctx (done n, ring) =
      grow_rxbuf (record ctx { ring = ring; negot_done = true }) ctx.shm_capacity
      >>= if_done (open_socket local_sock)

  unfoldable pub open_ring : Role → Ctx D → M (Rc × Option Ring)
  unfolding ring_attach ring_create
  open_ring consumer ctx = ring_attach ctx.shm_name ctx.shm_capacity consumer
  open_ring producer ctx = ring_create ctx.shm_name ctx.shm_capacity producer

  -- `adapt_init` on a configuration with both socket paths.
  unfoldable pub adapt_init : Role → Config D → Env D → M (Rc × Option (Ctx D))
  unfolding blank open_ring after_ring open_socket
  adapt_init role cfg env =
      let ctx = blank role cfg env in
      if not env.calloc
      then return (fail enomem, none)
      else if ctx.eager_shm
      then open_ring role ctx >>= after_ring cfg.local_sock ctx
      else open_socket cfg.local_sock ctx
