-- ===== src/Showcase/Pair.antt =====
-- showcase/decision_log.c: `main` on two endpoints of the library in one process, and the one ring that
-- both map. What the kernel answers the consumer, once the producer has sent, is an argument.
pub mod Release
use adaptipc.Base.{
  ℕ, ◌^◌, Bool, true, false, Option, none, some, List, [], ◌∷◌, ltb, ◌==◌, if◌then◌else◌,
}
use adaptipc.Base.Text.{same_text}
use adaptipc.Base.Errno.{Rc}
use adaptipc.Double.{Double, real}
use adaptipc.World.{World}
use adaptipc.Ring.{Ring}
use adaptipc.Ring.Open.{producer, consumer}
use adaptipc.Cost.Types.{default, balanced}
use adaptipc.Uds.Open.{unlink}
use adaptipc.Router.Types.{Ctx, Config}
use adaptipc.Router.Send.{adapt_send}
use adaptipc.Router.Recv.{adapt_recv}
use adaptipc.Router.Init.{Env, adapt_init}
use adaptipc.Router.Queries.{last_route, get_ewma, shm_used_bytes, shm_capacity, adapt_shutdown}
use adaptipc.Showcase.{Endpoints, Outcome, demonstrate}

-- The producer and the consumer, each with the answers to its own calls.
pub record Both (D : Type 0) : Type 0 where
  pub p : Ctx D
  pub at_p : World
  pub c : Ctx D
  pub at_c : World

-- A handle sees what the other end has made of the object, if it is the same one.
unfoldable pub seen_by : Option Ring → Option Ring → Option Ring
seen_by none other = none
seen_by (some own) none = some own
seen_by (some own) (some other) =
    if same_text own.name other.name
    then some (record other { capacity = own.capacity; name = own.name; fd = own.fd })
    else some own

-- `poll` and `recvfrom` of the consumer, from both worlds.
abbrev pub Kernel : Type 0
Kernel = World → World → List Rc × List (Rc × List ℕ)

module _ {D : Type 0} ⦃dbl : Double D⦄ where
  abbrev pub demo_config : List ℕ → Config D
  demo_config path = record {
    shm_name = none;
    local_sock = path;
    shm_capacity = 2 ^ 20;
    nonblocking_send = false;
    policy = default;
    qos = balanced;
    latency_budget_us = real 0;
  }

  abbrev pub after_send : Kernel → Both D → Option ((Rc × Ctx D) × World) → Option (Rc × Both D)
  after_send kernel b none = none
  after_send kernel b (some ((rc, p'), w')) =
      let (polls, datagrams) = kernel w' b.at_c in
      some (
        rc,
        record {
          p = p';
          at_p = w';
          c = record b.c { ring = seen_by b.c.ring p'.ring };
          at_c = record b.at_c { poll = polls; recvfrom = datagrams };
        },
      )

  abbrev pub after_recv :
      Both D → Option (((Rc × List ℕ) × Ctx D) × World) → Option ((Rc × List ℕ) × Both D)
  after_recv b none = none
  after_recv b (some ((out, c'), v')) =
      some (out, record b { p = record b.p { ring = seen_by b.p.ring c'.ring }; c = c'; at_c = v' })

  unfoldable pub pair : Kernel → Endpoints D (Both D)
  unfolding adapt_send adapt_recv seen_by
  pair kernel = record {
    send = λ bytes b. after_send kernel b (adapt_send b.p bytes b.at_p);
    recv = λ max_size b. after_recv b (adapt_recv b.c max_size b.at_c);
    last_route = λ b. last_route b.p;
    get_ewma = λ b. get_ewma b.p;
    shm_used_bytes = λ b. shm_used_bytes b.p;
    shm_capacity = λ b. shm_capacity b.p;
  }

  abbrev pub exited : ℕ → World → World → Option (Outcome D × World × World)
  exited code w v = some (record { exit = code; rows = []; switches = 0 }, w, v)

  -- The end of `main`: only where all messages went through are the endpoints shut down, and their
  -- paths unlinked.
  abbrev pub at_exit :
      List ℕ → List ℕ → Option (Outcome D × Both D) → Option (Outcome D × World × World)
  at_exit pp cp none = none
  at_exit pp cp (some (out, b)) =
      let w = (adapt_shutdown b.p b.at_p).1 in
      let v = (adapt_shutdown b.c b.at_c).1 in
      if out.exit == 0
      then some (
        out,
        record w { held = record w.held { files = unlink pp w.held.files } },
        record v { held = record v.held { files = unlink cp v.held.files } },
      )
      else some (out, b.at_p, b.at_c)

  module _ (kernel : Kernel) (rand : ℕ → ℕ) (msgs attempts : ℕ) (fopen : Bool)
      (pp cp : List ℕ) where
    abbrev pub with_both : Both D → Option (Outcome D × World × World)
    with_both b =
        if fopen
        then at_exit pp cp (demonstrate (pair kernel) rand msgs attempts b)
        else exited 4 b.at_p b.at_c

    abbrev pub with_consumer :
        Ctx D → World → Option ((Rc × Option (Ctx D)) × World) → Option (Outcome D × World × World)
    with_consumer p w none = none
    with_consumer p w (some ((rc, none), v)) = exited 3 w v
    with_consumer p w (some ((rc, some c), v)) =
        with_both (record { p = p; at_p = w; c = c; at_c = v })

    abbrev pub with_producer :
        (World → Option ((Rc × Option (Ctx D)) × World))
        → World
        → Option ((Rc × Option (Ctx D)) × World)
        → Option (Outcome D × World × World)
    with_producer init_c v none = none
    with_producer init_c v (some ((rc, none), w)) = exited 3 w v
    with_producer init_c v (some ((rc, some p), w)) = with_consumer p w (init_c v)

    -- `main`, from the test of `msgs` on; `setenv` puts ADAPTIPC_EAGER_SHM into the environment.
    unfoldable pub main : Env D → World → World → Option (Outcome D × World × World)
    unfolding adapt_init pair demonstrate adapt_shutdown
    main env w v =
        let eager = record env { eager_shm = true } in
        if ltb msgs 6
        then exited 2 w v
        else with_producer (adapt_init consumer (demo_config cp) eager) v
            (adapt_init producer (demo_config pp) eager w)
