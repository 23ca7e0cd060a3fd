-- ===== src/Router/Tests/Starts.antt =====
-- A start that succeeds, one that runs out of memory, and a policy from the environment.
use adaptipc.Base.{◌+◌, ◌≡◌, refl, true, false, none, some, [], ◌∷◌}
use adaptipc.Base.Errno.{done, fail, enomem}
use adaptipc.Double.Scaled.{Micro, micro_double}
use adaptipc.Ring.Open.{consumer}
use adaptipc.World.{World}
use adaptipc.Uds.Open.{uds_open}
use adaptipc.Router.Types.{Ctx}
use adaptipc.Router.Init.{adapt_init}
use adaptipc.Router.Ledger.{adapt_init_leaks}
use adaptipc.Router.Tests.{config, environment, endpoint, quiet}

abbrev opening : World
opening = record quiet {
  openings = record { calloc = true; socket = done 3; bind = done 0 } ∷ [];
  realloc = true ∷ [];
}

abbrev opened : World
opened = record opening {
  openings = [];
  held = record { endpoints = 1; sockets = 1; files = config.local_sock ∷ [] };
}

abbrev started : Ctx Micro
started = record (endpoint consumer) { uds = some config.local_sock; rxbuf_cap = 4096 }

is_started :
    adapt_init consumer config environment opening
    ≡ some ((done 0, some started), record opened { realloc = [] })
unfolding adapt_init
is_started = refl

is_opened :
    uds_open config.local_sock (record opening { realloc = false ∷ [] })
    ≡ some ((done 0, some config.local_sock), record opened { realloc = false ∷ [] })
unfolding uds_open
is_opened = refl

adapt_init_leaks_example :
    (w' : World) × (adapt_init consumer config environment (record opening { realloc = false ∷ [] })
      ≡ some ((fail enomem, none), w'))
    × (w'.held.endpoints ≡ 0 + 1)
    × (w'.held.sockets ≡ 0 + 1)
adapt_init_leaks_example =
    adapt_init_leaks consumer config environment (record opening { realloc = false ∷ [] })
      (record opened { realloc = false ∷ [] }) [] refl refl is_opened refl
