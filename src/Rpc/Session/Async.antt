-- ===== src/Rpc/Session/Async.antt =====
-- imouto_rpc_client.hpp and imouto_rpc_server.hpp together: what the callback of
-- `async_timed_invoke_than` is told.
use isu_net.Base.{List, Option, find, if◌then◌else◌, none, some, true, ℕ, ◌==◌, ◌>>=◌}
use isu_net.Stubs.{StubIdent, StubPool}
use isu_net.Rpc.{rarchive_block}
use isu_net.Rpc.Client.{Client}
use isu_net.Rpc.Client.Invoke.{
  Raised, rpc_exception, rpc_remote_platform_exception, Local, AsyncCall, skip_exception_call,
}
use isu_net.Rpc.Server.{Ran, returned, runtime_error, unknow_exception, platform_exception, Server}
use isu_net.Rpc.Session.{Parties}

-- What a callback is told.
abbrev pub told : Option Raised → Option (Option AsyncCall)
told exp = some (some (record { io_success = true; exp = exp }))

module _ (result : List ℕ → Local) (unknow : List ℕ) where
  module _ (P : Parties) where
    -- Results go to the stub, and what that throws to the callback; so do the exceptions of the
    -- procedure, those of the platform too.
    abbrev pub async_outcome_of : Ran → Option (Option AsyncCall)
    async_outcome_of (returned results) = told (skip_exception_call unknow (result results))
    async_outcome_of (runtime_error what) = told (some (rpc_exception (P.archive_exception what)))
    async_outcome_of unknow_exception = told (some (rpc_exception (P.archive_exception P.unknow)))
    async_outcome_of platform_exception =
        told (some (rpc_remote_platform_exception (P.archive_exception P.platform)))

    abbrev pub async_outcome : StubIdent → List ℕ → StubPool → Option (Option AsyncCall)
    async_outcome ident stack pool =
        if P.check_verify (P.generic_verify ident) == 0
        then (rarchive_block (P.checked 0) >>= λ r. told (some (rpc_remote_platform_exception r.1)))
        else elim (find ident.proc pool.stubs) as (λ o. Option (Option AsyncCall)) [
          | none ↦ none
          | some f ↦ async_outcome_of (P.stub f stack)
        ]
