-- ===== src/Rpc/Server.antt =====
-- imou-rpc-server/imou-rpc-server/imouto_rpc_server.hpp: `imouto_rpc_server`, what it does with a
-- call. Addresses, stubs and verify idents are numbers; the verify, what the stubs do and how an
-- exception is archived are parameters. `none` is an access of a bitmap past its end, a read past
-- the message, or a thread that waits for the spinlock of the pool for ever.
pub mod Checks
pub mod Account
pub mod Executed
pub mod Answering
pub mod Fresh
use isu_net.Base.{
  Bool, List, Option, [], false, if◌then◌else◌, none, not, some, true, ℕ, ◌++◌, ◌==◌, ◌>>=◌, ◌∷◌,
}
use isu_net.Bitmap.Interface.{Bitset}
use isu_net.Stubs.{
  FindStat, find_success, prog_unknow, proc_mismatch, ver_mismatch, StubPool, find_stub,
}
use isu_net.Rpc.{
  imouto_rpc_vers, msg_replay, msg_accepted, msg_denied, success, proc_cpp_exception,
  proc_c_exception, rpc_mismatch, auth_error, RpcCallBody, ReplyBody, rarchive_block,
}
use isu_net.Rpc.Kernel.{done, invalid_argument, fault, set_xid, verify_xid}

-- What is archived behind a reply body: nothing, a memory block, `mismatch_info`, or the result of
-- the check of the user.
pub data Trailer : Type 0 where
  nothing : Trailer
  block : List ℕ → Trailer
  mismatch : (low high : ℕ) → Trailer
  check : ℕ → Trailer

pub record Reply : Type 0 where
  pub dest : ℕ
  pub body : ReplyBody
  pub trailer : Trailer

-- A call that was given to the threads.
pub record Task : Type 0 where
  pub from : ℕ
  pub reply : ReplyBody
  pub stub : ℕ
  pub arguments : List ℕ

-- `threads` holds the tasks that wait in `_threads`, `ran` those that were carried out.
pub record Server (Bits : Type 0) : Type 0 where
  pub xidmap : List (ℕ × Bits)
  pub stubs : StubPool
  pub threads : List Task
  pub ran : List Task
  pub sent : List Reply

unfoldable pub make_server : {Bits : Type 0} → StubPool → Server Bits
make_server stubs = record { xidmap = []; stubs = stubs; threads = []; ran = []; sent = [] }

-- The value of a `find_stat`.
abbrev pub stat_value : FindStat → ℕ
stat_value find_success = 0
stat_value prog_unknow = 1
stat_value proc_mismatch = 2
stat_value ver_mismatch = 3

-- `_reply`.
abbrev pub send_reply : {Bits : Type 0} → ℕ → ReplyBody → Trailer → Server Bits → Server Bits
send_reply from body trailer s = record s {
  sent = record { dest = from; body = body; trailer = trailer } ∷ s.sent;
}

-- `_check_version`: `mismatch_info(0, IMOUTO_RPC_VERS)` has the version for its `low`.
unfoldable pub check_version :
    {Bits : Type 0} → ℕ → ReplyBody → ℕ → Server Bits → Bool × Server Bits
check_version from reply vers s =
    let refusal = record reply { what = msg_denied; stat = rpc_mismatch } in
    if vers == imouto_rpc_vers
    then (true, s)
    else (false, send_reply from refusal (mismatch imouto_rpc_vers 0) s)

-- `_check_user`: the refusal goes out before the ident of the reply is set.
unfoldable pub check_user :
    {Bits : Type 0}
    → (ℕ → ℕ)
    → (ℕ → ℕ)
    → ℕ
    → ReplyBody
    → ℕ
    → Server Bits
    → Bool × ReplyBody × Server Bits
check_user check_verify reply_verify from reply ident s =
    let refusal = record reply { what = msg_denied; stat = auth_error } in
    if check_verify ident == 0
    then (false, record refusal { ident = reply_verify ident }, send_reply from refusal (check 0) s)
    else (true, record reply { ident = reply_verify ident }, s)

module _ {Bits : Type 0} ⦃B : Bitset Bits⦄ where
  -- `_check_xid`.
  unfoldable pub check_xid : ℕ → ℕ → Server Bits → Option (Bool × Server Bits)
  unfolding set_xid
  check_xid from xid s = elim (set_xid from xid true s.xidmap) [
    | done r ↦ some (not r.0, record s { xidmap = r.1 })
    | invalid_argument ↦ some (false, s)
    | fault ↦ none
  ]

  -- The part of `_check_stub` for a stub that is there.
  unfoldable pub schedule_stub : ℕ → ReplyBody → List ℕ → ℕ → Server Bits → Option (Server Bits)
  unfolding verify_xid rarchive_block
  schedule_stub from reply memory stub s = do
    r ← rarchive_block memory
    elim (verify_xid from reply.head.xid s.xidmap) [
      | done verified ↦
          let t : Task = record { from = from; reply = reply; stub = stub; arguments = r.1 } in
          some (record s { xidmap = verified.1; threads = t ∷ s.threads })
      | invalid_argument ↦ none
      | fault ↦ none
    ]

  -- `_check_stub`, after the pool was asked.
  unfoldable pub found_stub :
      FindStat → Option ℕ → ℕ → ReplyBody → List ℕ → Server Bits → Option (Server Bits)
  unfolding schedule_stub
  found_stub find_success (some stub) from reply memory s = schedule_stub from reply memory stub s
  found_stub find_success none from reply memory s = none
  found_stub stat place from reply memory s =
      some
        (send_reply from (record reply { what = msg_accepted; stat = stat_value stat }) nothing s)

  unfoldable pub check_stub :
      ℕ → ReplyBody → List ℕ → RpcCallBody → Server Bits → Option (Server Bits)
  unfolding find_stub found_stub
  check_stub from reply memory body s = do
    pair ← find_stub body.body.body.ident s.stubs
    found_stub pair.1 pair.0 from reply memory s

  module _ (check_verify reply_verify : ℕ → ℕ) where
    -- `_check_user && _check_stub`.
    unfoldable pub check_user_and_stub :
        ℕ → ReplyBody → RpcCallBody → List ℕ → Server Bits → Option (Server Bits)
    unfolding check_user check_stub
    check_user_and_stub from reply body memory s =
        let user = check_user check_verify reply_verify from reply body.ident s in
        let after = check_stub from user.1 memory body user.2 in
        if user.0 then after else some user.2

    -- `_check_version && _check_user && _check_stub`.
    unfoldable pub check_rest :
        ℕ → ReplyBody → RpcCallBody → List ℕ → Server Bits → Option (Server Bits)
    unfolding check_version check_user_and_stub
    check_rest from reply body memory s =
        let version = check_version from reply body.body.body.rpcvers s in
        let after = check_user_and_stub from reply body memory version.1 in
        if version.0 then after else some version.1

    -- The chain of checks of `_process_rpcmsg_impl`.
    unfoldable pub check_all :
        ℕ → ReplyBody → RpcCallBody → List ℕ → Server Bits → Option (Server Bits)
    unfolding check_xid check_rest
    check_all from reply body memory s = do
      known ← check_xid from reply.head.xid s
      (if known.0 then check_rest from reply body memory known.1 else some known.1)

    -- `_process_rpcmsg_impl`, for a block that holds this call body and these bytes behind it;
    -- what a new `reply_body` holds is an argument.
    unfoldable pub process_rpcmsg :
        ReplyBody → Bool → ℕ → RpcCallBody → List ℕ → Server Bits → Option (Server Bits)
    unfolding check_all
    process_rpcmsg unset io_success from body memory s =
        let head = record body.body.head { magic = msg_replay } in
        let reply = record unset { head = head; trunk = body.trunk } in
        let checked = check_all from reply body memory s in if io_success then checked else some s

-- What the function of a stub comes to: the archived results, a `std::runtime_error` with what it
-- says, another C++ exception, or an exception of the platform.
pub data Ran : Type 0 where
  returned : List ℕ → Ran
  runtime_error : List ℕ → Ran
  unknow_exception : Ran
  platform_exception : Ran

module _ (archive_exception : List ℕ → List ℕ) (unknow platform : List ℕ) where
  -- `_call_stub`, `_call_stub_with_cppexp` and `_my_filter`: the statistic and the block.
  unfoldable pub result_of : Ran → ℕ × List ℕ
  result_of (returned results) = (success, results)
  result_of (runtime_error what) = (proc_cpp_exception, archive_exception what)
  result_of unknow_exception = (proc_cpp_exception, archive_exception unknow)
  result_of platform_exception = (proc_c_exception, archive_exception platform)

  module _ (stub : ℕ → List ℕ → Ran) where
    unfoldable pub call_stub : {Bits : Type 0} → Task → Server Bits → Server Bits
    unfolding result_of
    call_stub t s =
        let r = result_of (stub t.stub t.arguments) in
        send_reply t.from (record t.reply { what = msg_accepted; stat = r.0 }) (block r.1)
          (record s { ran = t ∷ s.ran })

    -- A thread takes the task behind these.
    unfoldable pub run_task :
        {Bits : Type 0} → List Task → Task → List Task → Server Bits → Server Bits
    unfolding call_stub
    run_task before t after s = call_stub t (record s { threads = before ++ after })
