-- ===== src/Rpc/Session.antt =====
-- imouto_rpc_client.hpp and imouto_rpc_server.hpp together: one call, from `_call` of the client
-- over `_process_rpcmsg_impl` and a thread of the server to `_process_package_impl` of the client,
-- when nothing is lost on the way.
pub mod Served
pub mod Whole
pub mod Results
pub mod Async
use isu_net.Base.{
  Bool, List, Option, [], find, if◌then◌else◌, none, some, true, ℕ, ◌+◌, ◌==◌, ◌>>=◌, ◌∷◌,
}
use isu_net.Bitmap.Interface.{Bitset}
use isu_net.Stubs.{StubIdent, StubPool}
use isu_net.Rpc.{
  session_prog_mismatch, session_auth_error, session_success, RpcCallBody, ReplyBody, archive_block,
}
use isu_net.Rpc.Client.{Client, Called, Unset, Request, call}
use isu_net.Rpc.Client.Process.{Package, process_package}
use isu_net.Rpc.Server.{
  Trailer, nothing, block, mismatch, check, Reply, Task, Ran, Server, process_rpcmsg, run_task,
  result_of,
}

-- The bytes behind a reply body; those of `mismatch_info` and of the result of a check are
-- arguments.
unfoldable pub trailer_bytes : (ℕ → ℕ → List ℕ) → (ℕ → List ℕ) → Trailer → List ℕ
trailer_bytes info checked nothing = []
trailer_bytes info checked (block content) = archive_block content
trailer_bytes info checked (mismatch low high) = info low high
trailer_bytes info checked (check result) = checked result

-- A call that is answered by whoever answers it, as far as its callback can tell.
abbrev pub called_with : ℕ → ℕ → ℕ → ℕ → List ℕ → Called
called_with dest xid callback rpc_code memory = record {
  dest = dest;
  xid = xid;
  callback = callback;
  io_success = true;
  rpc_code = rpc_code;
  memory = memory;
  locked = true;
}

-- What the two sides are given: the verify of the client and that of the server, what the
-- procedures do and how an exception is archived, and the bytes of the other trailers.
pub record Parties : Type 0 where
  pub generic_verify : StubIdent → ℕ
  pub check_reply : ℕ → Bool
  pub check_verify : ℕ → ℕ
  pub reply_verify : ℕ → ℕ
  pub stub : ℕ → List ℕ → Ran
  pub archive_exception : List ℕ → List ℕ
  pub unknow : List ℕ
  pub platform : List ℕ
  pub info : ℕ → ℕ → List ℕ
  pub checked : ℕ → List ℕ

module _ (P : Parties) where
  -- The last reply of the server at the client; `memory` is its block.
  unfoldable pub answer : RpcCallBody → List ℕ → ℕ → List Reply → Client → Option Client
  unfolding process_package trailer_bytes
  answer as_call memory from [] c = none
  answer as_call memory from (reply ∷ sent) c =
      let p : Package = record {
        memory = memory;
        as_call = as_call;
        as_reply = reply.body;
        rest = trailer_bytes P.info P.checked reply.trailer;
      } in
      process_package P.check_reply true from p c

  -- What the callback is to be told: the statistic of the session, and the bytes.
  abbrev pub verdict : StubIdent → List ℕ → StubPool → ℕ × List ℕ
  verdict ident stack pool =
      if P.check_verify (P.generic_verify ident) == 0
      then (session_auth_error, P.checked 0)
      else elim (find ident.proc pool.stubs) as (λ o. ℕ × List ℕ) [
        | none ↦ (session_prog_mismatch, [])
        | some f ↦
            let r = result_of P.archive_exception P.unknow P.platform (P.stub f stack) in
            (r.0 + session_success, archive_block r.1)
      ]

  module _ {Bits : Type 0} ⦃B : Bitset Bits⦄ where
    -- A thread of the server runs the task that came last, if there is one.
    unfoldable pub run_first : List Task → Server Bits → Server Bits
    unfolding run_task
    run_first [] s = s
    run_first (t ∷ tasks) s = run_task P.archive_exception P.unknow P.platform P.stub [] t tasks s

    unfoldable pub run_last : Server Bits → Server Bits
    unfolding run_first
    run_last s = run_first s.threads s

    -- The last request of the client at the server.
    unfoldable pub serve : ReplyBody → ℕ → List Request → Server Bits → Option (Server Bits)
    unfolding process_rpcmsg run_last
    serve unset from [] s = none
    serve unset from (q ∷ sent) s = do
      r ←
          process_rpcmsg P.check_verify P.reply_verify unset true from q.body
            (archive_block q.stack) s
      some (run_last r)

    -- A call at the client, its request at the server, and its reply at the client. The client is
    -- `from` for the server, the server `dest` for the client; `blank`, `memory` and `as_call` are
    -- what a new reply body holds, and how the block of the reply looks.
    unfoldable pub exchange :
        ℕ
        → ℕ
        → ℕ
        → StubIdent
        → List ℕ
        → ℕ
        → Bool
        → ℕ
        → Unset
        → ReplyBody
        → RpcCallBody
        → List ℕ
        → Client
        → Server Bits
        → Option Client
    unfolding call serve answer
    exchange from dest ms ident stack callback sync timer unset blank as_call memory c s = do
      r ← call P.generic_verify dest ms ident stack callback sync timer unset c
      t ← serve blank from r.1.sent s
      answer as_call memory dest t.sent r.1
