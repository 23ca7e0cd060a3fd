-- ===== src/Router/Ledger.antt =====
-- src/adapt_ipc.c: what `adapt_init` and `adapt_shutdown` do to the sockets of the process, and to
-- its mapped rings.
pub mod Start
pub mod Still
pub mod Handles
pub mod Ensure
pub mod Sending
pub mod Receiving
pub mod Names
use adaptipc.Base.{
  ℕ, ◌+◌, ◌≡◌, refl, ap, ◌∙◌, ◌≢◌, ◌⊎◌, inl, inr, Bool, true, false, not, leb, if◌then◌else◌,
  Option, none, some, List, [], ◌∷◌, arith,
}
use adaptipc.Base.Errno.{Rc, done, fail, enomem}
use adaptipc.Double.{Double}
use adaptipc.World.{World, Held, M, ◌>>=◌, return}
use adaptipc.World.Post.{Post, >>=-Post, Post_of, >>=-run}
use adaptipc.Ring.{Ring}
use adaptipc.Ring.Open.{Role, producer, consumer, Os, Object, attach, create}
use adaptipc.Uds.Open.{
  unlink, uds_open, Opened, with_endpoint, uds_open-Post, uds_close, uds_close-held,
}
use adaptipc.Router.Types.{
  Config, Ctx, attach_with, create_with, ring_attach, ring_create, ring_close, is_producer,
  grow_with, grow_rxbuf,
}
use adaptipc.Router.Classify.{max_dgram}
use adaptipc.Router.Queries.{close_uds, adapt_shutdown}
use adaptipc.Router.Init.{
  Env, blank, failed, if_done, given, after_open, open_socket, after_ring, open_ring, adapt_init,
}
use adaptipc.Router.Send.{adapt_send}
use adaptipc.Router.Recv.{adapt_recv, adapt_recv_uds_timeout}
use adaptipc.Router.Ledger.Start.{
  Started, init-Started, blank_ring, ring_close-rings, ring_close-held,
}
use adaptipc.Router.Ledger.Handles.{Moves, Via, >>=-Moves, Moves-refl, second, whole}
use adaptipc.Router.Ledger.Sending.{adapt_send-Moves}
use adaptipc.Router.Ledger.Receiving.{adapt_recv-Moves, adapt_recv_uds_timeout-Moves}

pub data Op : Type 0 where
  send : List ℕ → Op
  recv : ℕ → Op
  recv_uds : ℕ → ℕ → Op

module _ {D : Type 0} where
  grow_refused :
      (ctx : Ctx D) (cap : ℕ) (w : World) (rest : List Bool)
      → leb cap ctx.rxbuf_cap ≡ false
      → w.realloc ≡ false ∷ rest
      → grow_rxbuf ctx cap w ≡ some ((fail enomem, ctx), record w { realloc = rest })
  unfolding grow_rxbuf
  grow_refused ctx cap w rest over refused =
      by_fit (leb cap ctx.rxbuf_cap) over ∙ ap (λ answers. grow_with answers ctx cap w) refused
    where
      by_fit :
          (fits : Bool)
          → fits ≡ false
          → (if fits then some ((done 0, ctx), w) else grow_with w.realloc ctx cap w)
            ≡ grow_with w.realloc ctx cap w
      by_fit true e = absurd (ground arith)
      by_fit false e = refl

  module _ ⦃dbl : Double D⦄ where
    -- What an endpoint does between its start and its end.
    unfoldable pub step : Op → Ctx D → M (Ctx D)
    unfolding adapt_send adapt_recv adapt_recv_uds_timeout
    step (send bytes) c = adapt_send c bytes >>= λ out. return out.1
    step (recv max_size) c = adapt_recv c max_size >>= λ out. return out.1
    step (recv_uds max_size timeout_ms) c =
        adapt_recv_uds_timeout c max_size timeout_ms >>= λ out. return out.1

    unfoldable pub run : List Op → Ctx D → M (Ctx D)
    unfolding step
    run [] c = return c
    run (op ∷ ops) c = step op c >>= run ops

    step-Moves : (op : Op) (c : Ctx D) (w : World) → Post (Via whole c w) (step op c w)
    unfolding step
    step-Moves (send bytes) c w =
        >>=-Moves second whole c (adapt_send c bytes) (λ out. return out.1) w
          (adapt_send-Moves c bytes w) (λ out v. Moves-refl out.1 v)
    step-Moves (recv max_size) c w =
        >>=-Moves second whole c (adapt_recv c max_size) (λ out. return out.1) w
          (adapt_recv-Moves c max_size w) (λ out v. Moves-refl out.1 v)
    step-Moves (recv_uds max_size timeout_ms) c w =
        >>=-Moves second whole c (adapt_recv_uds_timeout c max_size timeout_ms)
          (λ out. return out.1) w (adapt_recv_uds_timeout-Moves c max_size timeout_ms w)
          (λ out v. Moves-refl out.1 v)

    run-Moves : (ops : List Op) (c : Ctx D) (w : World) → Post (Via whole c w) (run ops c w)
    unfolding run
    run-Moves [] c w = Moves-refl c w
    run-Moves (op ∷ ops) c w =
        >>=-Moves whole whole c (step op c) (run ops) w (step-Moves op c w) (run-Moves ops)

    -- A shutdown takes back what a start has left, and what happened in between.
    pub shutdown-held :
        (path : List ℕ) (rc : Rc) (c c' : Ctx D) (w w' w'' : World)
        → path ≢ []
        → Started path w (rc, some c) w'
        → Moves c w' c' w''
        → ((adapt_shutdown c' w'').1.held ≡ record w.held { files = unlink path w.held.files })
          × ((adapt_shutdown c' w'').1.rings ≡ w.rings)
    unfolding adapt_shutdown uds_close
    shutdown-held path rc c c' w w' w'' named (ok, has, held, rings) (same, held', rings') =
        let v = ring_close c'.ring (is_producer c'.role) w'' in
        let gone =
          ring_close-rings c'.ring (is_producer c'.role) w'' {n = w.rings}
            (omega (arith, rings, rings')) in
        (
          ap (λ u. (close_uds u v).held) (same ∙ has)
              ∙ uds_close-held path w.held v named
                  (ring_close-held c'.ring (is_producer c'.role) w'' ∙ held' ∙ held),
          ap (λ u. (close_uds u v).rings) (same ∙ has) ∙ gone,
        )

    -- The life of an endpoint is balanced. Where `adapt_init` has given a context on a path that is not
    -- empty, and then any sends and receives have returned, with whatever results, handshakes and
    -- failures, `adapt_shutdown` leaves the process with the endpoints, the sockets and the mapped rings
    -- that it had before the start, and with the paths that were bound but the configured one.
    pub life_cycle :
        (role : Role) (cfg : Config D) (env : Env D) (ops : List Op) (rc : Rc) (c c' : Ctx D)
        (w w' w'' : World)
        → cfg.local_sock ≢ []
        → adapt_init role cfg env w ≡ some ((rc, some c), w')
        → run ops c w' ≡ some (c', w'')
        → ((adapt_shutdown c' w'').1.held
            ≡ record w.held { files = unlink cfg.local_sock w.held.files })
          × ((adapt_shutdown c' w'').1.rings ≡ w.rings)
    life_cycle role cfg env ops rc c c' w w' w'' named e f =
        shutdown-held cfg.local_sock rc c c' w w' w'' named
          (Post_of (Started cfg.local_sock w) e (init-Started role cfg env w))
          (Post_of (Via whole c w') f (run-Moves ops c w'))

    -- A start and a shutdown at once.
    pub init_shutdown :
        (role : Role) (cfg : Config D) (env : Env D) (rc : Rc) (c : Ctx D) (w w' : World)
        → cfg.local_sock ≢ []
        → adapt_init role cfg env w ≡ some ((rc, some c), w')
        → (adapt_shutdown c w').1.held
          ≡ record w.held { files = unlink cfg.local_sock w.held.files }
    unfolding run
    init_shutdown role cfg env rc c w w' named e =
        (life_cycle role cfg env [] rc c c w w' w' named e refl).0

    blank_eager :
        (role : Role) (cfg : Config D) (env : Env D)
        → (blank role cfg env).eager_shm ≡ env.eager_shm
    unfolding blank
    blank_eager role cfg env = refl

    lazy_init :
        (role : Role) (cfg : Config D) (env : Env D) (w : World)
        → env.calloc ≡ true
        → env.eager_shm ≡ false
        → adapt_init role cfg env w ≡ open_socket cfg.local_sock (blank role cfg env) w
    unfolding adapt_init
    lazy_init role cfg env w memory lazy =
        by_calloc env.calloc (blank role cfg env).eager_shm memory (blank_eager role cfg env ∙ lazy)
      where
        by_calloc :
            (calloc eager : Bool)
            → calloc ≡ true
            → eager ≡ false
            → ((if not calloc
                  then return (fail enomem, none)
                  else if eager
                  then (open_ring role (blank role cfg env)
                      >>= after_ring cfg.local_sock (blank role cfg env))
                  else open_socket cfg.local_sock (blank role cfg env))
                w)
              ≡ open_socket cfg.local_sock (blank role cfg env) w
        by_calloc false eager m l = absurd (ground arith)
        by_calloc true true m l = absurd (ground arith)
        by_calloc true false m l = refl

    blank_room : (role : Role) (cfg : Config D) (env : Env D) → (blank role cfg env).rxbuf_cap ≡ 0
    unfolding blank
    blank_room role cfg env = refl

    open_socket_refused :
        (path : List ℕ) (ctx : Ctx D) (w w1 : World) (rest : List Bool)
        → ctx.rxbuf_cap ≡ 0
        → ctx.ring ≡ none
        → uds_open path w ≡ some ((done 0, some path), w1)
        → w1.realloc ≡ false ∷ rest
        → open_socket path ctx w ≡ some ((fail enomem, none), record w1 { realloc = rest })
    unfolding open_socket failed ring_close
    open_socket_refused path ctx w w1 rest room bare opened refused =
        >>=-run (uds_open path) (after_open ctx) opened
        ∙ >>=-run (grow_rxbuf (record ctx { uds = some path }) max_dgram) (if_done given)
            (grow_refused (record ctx { uds = some path }) max_dgram w1 rest (rw room refl) refused)
        ∙ ap
            (λ ring. some (
              (fail enomem, none),
              ring_close ring (is_producer ctx.role) (record w1 { realloc = rest }),
            ))
            bare

    -- A start that fails can leave a socket behind. Where the endpoint was opened and the buffer for
    -- datagrams is then refused, `adapt_init` on the lazy path answers -ENOMEM and gives no context, and
    -- the process keeps one more endpoint and one more open socket, of which no context knows.
    pub adapt_init_leaks :
        (role : Role) (cfg : Config D) (env : Env D) (w w1 : World) (rest : List Bool)
        → env.calloc ≡ true
        → env.eager_shm ≡ false
        → uds_open cfg.local_sock w ≡ some ((done 0, some cfg.local_sock), w1)
        → w1.realloc ≡ false ∷ rest
        → (w' : World) × (adapt_init role cfg env w ≡ some ((fail enomem, none), w'))
          × (w'.held.endpoints ≡ w.held.endpoints + 1)
          × (w'.held.sockets ≡ w.held.sockets + 1)
    adapt_init_leaks role cfg env w w1 rest memory lazy opened refused =
        let (ends, socks) =
          counted (Post_of (Opened cfg.local_sock w) opened (uds_open-Post cfg.local_sock w)) in
        (
          record w1 { realloc = rest },
          lazy_init role cfg env w memory lazy
              ∙ open_socket_refused cfg.local_sock (blank role cfg env) w w1 rest
                  (blank_room role cfg env) (blank_ring role cfg env) opened refused,
          ends,
          socks,
        )
      where
        counted :
            Opened cfg.local_sock w (done 0, some cfg.local_sock) w1
            → (w1.held.endpoints ≡ w.held.endpoints + 1) × (w1.held.sockets ≡ w.held.sockets + 1)
        counted (inl (ok, has, e)) = (ap (λ h. h.endpoints) e, ap (λ h. h.sockets) e)
        counted (inr (x, bad, gone, ends, socks)) = absurd (ground arith)
