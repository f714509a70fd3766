-- ===== src/Rpc/Client/Process.antt =====
-- imou-rpc-client/imou-rpc-client/imouto_rpc_client.hpp: what `_process_package_impl` does with a
-- package, and `_rpc_timeout`.
use isu_net.Base.{
  Bool, List, Option, [], add_size, false, if◌then◌else◌, none, some, true, ℕ, ◌&&◌, ◌==◌, ◌>>=◌,
}
use isu_net.Rpc.{
  msg_replay, msg_accepted, msg_denied, session_io_failed, session_timeout, session_success,
  session_rpc_mismatch, RpcCallBody, ReplyBody,
}
use isu_net.Rpc.Client.{TimerArg, Client, have, mission, erase_mission, call_back, cancel_timer}

-- `_to_session_stat`.
unfoldable pub to_session_stat : ℕ → ℕ → ℕ
to_session_stat what stat =
    add_size stat (if what == msg_accepted then session_success else session_rpc_mismatch)

-- A package as it comes in: its bytes, and what they are when they are read as a call body or as a
-- reply body with the bytes behind it.
pub record Package : Type 0 where
  pub memory : List ℕ
  pub as_call : RpcCallBody
  pub as_reply : ReplyBody
  pub rest : List ℕ

-- `_if_have_call` as `_process_package_impl` calls it: the mission is erased, and the timer that
-- `handle` names, which no call sets, is cancelled.
unfoldable pub fail_mission : ℕ → Package → Client → Option Client
unfolding mission erase_mission cancel_timer
fail_mission from p c =
    let xid = p.as_call.body.head.xid in
    if c.spinlock then none else elim (mission from xid c) [
      | none ↦ some c
      | some callback ↦
          let held = record c { spinlock = true } in
          let told = call_back from xid callback false session_io_failed p.memory held in
          cancel_timer p.as_call.handle told >>= λ rest.
          some (record (erase_mission from xid rest) { spinlock = false })
    ]

-- `if (reply.trunk) _timeout_timer.cancel_timer(..)`.
unfoldable pub cancel_trunk : ℕ → Client → Option Client
unfolding cancel_timer
cancel_trunk trunk c =
    let cancelled = cancel_timer trunk c in if trunk == 0 then some c else cancelled

-- The second region of `_process_package_impl` that holds the lock: `end()` is not looked for.
unfoldable pub answer_mission : ℕ → Package → Client → Option Client
unfolding mission erase_mission to_session_stat cancel_trunk
answer_mission from p c =
    let reply = p.as_reply in
    let code = to_session_stat reply.what reply.stat in
    if c.spinlock then none else elim (mission from reply.head.xid c) [
      | none ↦ none
      | some callback ↦ cancel_trunk reply.trunk (record c { spinlock = true }) >>= λ held.
          let told = call_back from reply.head.xid callback true code p.rest held in
          some (record (erase_mission from reply.head.xid told) { spinlock = false })
    ]

-- Whether it is a reply, and to a mission in flight.
unfoldable pub knows_call : ℕ → Package → Client → Option Bool
unfolding have
knows_call from p c =
    let known = have from p.as_reply.head.xid c in
    if p.as_reply.head.magic == msg_replay then known else some false

module _ (check_verify : ℕ → Bool) where
  -- Whether a reply is let through to the mission it answers.
  unfoldable pub lets_through : ReplyBody → Bool
  lets_through reply =
      if reply.what == msg_accepted then check_verify reply.ident else reply.what == msg_denied

  -- `_process_package_impl`.
  unfoldable pub process_package : Bool → ℕ → Package → Client → Option Client
  unfolding fail_mission knows_call lets_through answer_mission
  process_package false from p c = fail_mission from p c
  process_package true from p c = do
    known ← knows_call from p c
    (if known && lets_through p.as_reply then answer_mission from p c else some c)

-- The callback of a call that timed out is called through the pointer into the map, without the
-- lock, if the mission is there.
unfoldable pub tell_timeout : Bool → TimerArg → Client → Option Client
unfolding mission
tell_timeout false info c = some c
tell_timeout true info c = do
  callback ← mission info.callback.0 info.callback.1 c
  some (call_back info.callback.0 info.callback.1 callback false session_timeout [] c)

-- `_rpc_timeout`; the timer is cancelled when the callback exits.
unfoldable pub rpc_timeout : ℕ → TimerArg → Client → Option Client
unfolding have tell_timeout cancel_timer
rpc_timeout handle info c = do
  known ← have info.dest info.xid c
  told ← tell_timeout known info c
  cancel_timer handle told
