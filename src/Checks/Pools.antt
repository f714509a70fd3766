-- ===== src/Checks/Pools.antt =====
-- A pool of imou-rpc-server/imou-rpc-server/server_stub_pool.hpp with one procedure.
use isu_net.Base.{[], arith, false, none, refl, some, ◌∷◌, ◌≡◌, ◌⊎◌}
use isu_net.Stubs.{StubIdent, StubPool, emplace_register, registe}
use isu_net.Stubs.{StubIdentAllocer, try_alloc}
use isu_net.Stubs.Idents.{try_alloc-emplace_register}
use isu_net.Stubs.Registry.{IsKey, registe_lem}

abbrev procedure : StubIdent
procedure = record { prog = 1; vers = 2; proc = 3 }

abbrev pool : StubPool
pool = record { prog = 1; ver = 2; spinlock = false; stubs = (3, 70) ∷ [] }

registe_lem_example :
    (IsKey procedure pool × (registe procedure 71 pool ≡ none))
    ⊎ ((IsKey procedure pool → ⊥) × (registe procedure 71 pool ≡ some ((none, false), pool)))
registe_lem_example = registe_lem procedure 71 pool refl

abbrev allocer : StubIdentAllocer
allocer = record { progid = 1; default_ver = 2; alloced = [] }

try_alloc-emplace_register_example :
    emplace_register (try_alloc 3 2 allocer).0.0 71 pool ≡ some ((none, false), pool)
try_alloc-emplace_register_example =
    try_alloc-emplace_register 3 2 71 allocer pool refl refl (omega arith)
