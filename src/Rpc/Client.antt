-- ===== src/Rpc/Client.antt =====
-- imou-rpc-client/imou-rpc-client/imouto_rpc_client.hpp: `imouto_rpc_client`, the calls in flight
-- and what ends them. Addresses, callbacks, timers and verify idents are numbers. `none` is a
-- thread that waits for the spinlock for ever, or an access through an iterator, a pointer or a
-- handle to a mission or a timer that is not there.
pub mod Process
pub mod Missions
pub mod Replies
pub mod Begins
pub mod Counting
pub mod Once
pub mod Answers
pub mod Answered
pub mod Timeout
pub mod Lost
pub mod Invoke
use isu_net.Base.{
  Bool, List, Option, [], add_size, erase, false, find, if◌then◌else◌, none, put, some, true, ℕ,
  ◌>>=◌, ◌∷◌,
}
use isu_net.Stubs.{StubIdent}
use isu_net.Rpc.{imouto_rpc_vers, msg_call, RpcmsgHead, RpcstubIdent, RpcCallBody}

-- `_timer_arg`; the pointer to the callback is the place of the mission it points into.
pub record TimerArg : Type 0 where
  pub xid : ℕ
  pub dest : ℕ
  pub callback : ℕ × ℕ

-- A call of the callback of a mission: which mission, whose callback, with what, and whether
-- `_xidmap_lock` is held meanwhile.
pub record Called : Type 0 where
  pub dest : ℕ
  pub xid : ℕ
  pub callback : ℕ
  pub io_success : Bool
  pub rpc_code : ℕ
  pub memory : List ℕ
  pub locked : Bool

-- What is sent, before it is archived: the call body and the stack.
pub record Request : Type 0 where
  pub dest : ℕ
  pub body : RpcCallBody
  pub stack : List ℕ

-- `missions` is `_missions`, and `timers` what `_timeout_timer` holds, with the interval.
pub record Client : Type 0 where
  pub last_xid : ℕ
  pub spinlock : Bool
  pub missions : List (ℕ × List (ℕ × ℕ))
  pub timers : List (ℕ × (ℕ × TimerArg))
  pub called : List Called
  pub sent : List Request

-- `_last_xid` is set by no constructor.
unfoldable pub make_client : ℕ → Client
make_client unset_xid = record {
  last_xid = unset_xid;
  spinlock = false;
  missions = [];
  timers = [];
  called = [];
  sent = [];
}

-- `_missions[dest]`.
unfoldable pub missions_of : ℕ → List (ℕ × List (ℕ × ℕ)) → List (ℕ × ℕ)
missions_of dest m = elim (find dest m) [ none ↦ [] | some calls ↦ calls ]

-- The callback of a mission.
unfoldable pub mission : ℕ → ℕ → Client → Option ℕ
unfolding missions_of
mission dest xid c = find xid (missions_of dest c.missions)

-- `iter->second.erase`.
unfoldable pub erase_mission : ℕ → ℕ → Client → Client
unfolding missions_of
erase_mission dest xid c = record c {
  missions = put dest (erase xid (missions_of dest c.missions)) c.missions;
}

-- `std::map::insert`: an entry that is there stays.
unfoldable pub insert_mission : ℕ → ℕ → ℕ → Client → Client
unfolding missions_of
insert_mission dest xid callback c =
    let calls = missions_of dest c.missions in
    let inserted : List (ℕ × ℕ) = elim (find xid calls) [
      | none ↦ put xid callback calls
      | some old ↦ calls
    ] in
    record c { missions = put dest inserted c.missions }

unfoldable pub alloc_xid : ℕ → ℕ → Client → Option (ℕ × Client)
unfolding insert_mission
alloc_xid dest callback c =
    let ret = add_size c.last_xid 1 in
    if c.spinlock
    then none
    else some (ret, insert_mission dest ret callback (record c { last_xid = ret }))

unfoldable pub have : ℕ → ℕ → Client → Option Bool
unfolding mission
have from xid c =
    if c.spinlock
    then none
    else elim (mission from xid c) [ none ↦ some false | some callback ↦ some true ]

unfoldable pub force_check_it : ℕ → ℕ → Client → Option Client
unfolding erase_mission
force_check_it dest xid c = if c.spinlock then none else elim (find dest c.missions) [
  | none ↦ some c
  | some calls ↦ some (erase_mission dest xid c)
]

unfoldable pub abort_all_mission : Client → Option Client
abort_all_mission c = if c.spinlock then none else some (record c { missions = [] })

-- `multiplex_timer::cancel_timer`, which ends with `_relase_timer_arg`; a handle that is no timer's
-- is followed all the same.
unfoldable pub cancel_timer : ℕ → Client → Option Client
cancel_timer handle c = find handle c.timers >>= λ timer.
    some (record c { timers = erase {V = ℕ × TimerArg} handle c.timers })

-- A callback is called with the lock as it is.
abbrev pub call_back : ℕ → ℕ → ℕ → Bool → ℕ → List ℕ → Client → Client
call_back dest xid callback io_success rpc_code memory c =
    let made : Called = record {
      dest = dest;
      xid = xid;
      callback = callback;
      io_success = io_success;
      rpc_code = rpc_code;
      memory = memory;
      locked = c.spinlock;
    } in
    record c { called = made ∷ c.called }

-- What a call leaves unset: `trunk` and `handle` of its body, and the destination of the argument
-- of its timer.
pub record Unset : Type 0 where
  pub trunk : ℕ
  pub handle : ℕ
  pub dest : ℕ

-- `ident` and `body` of `_call`, but for `trunk`.
unfoldable pub call_body_of : ℕ → StubIdent → ℕ → Unset → ℕ → RpcCallBody
call_body_of xid stub verify_ident unset trunk =
    let head : RpcmsgHead = record { xid = xid; magic = msg_call } in
    let body : RpcstubIdent = record {
      head = head;
      body = record { ident = stub; rpcvers = imouto_rpc_vers };
    } in
    record { body = body; trunk = trunk; ident = verify_ident; handle = unset.handle }

-- `_timeout_timer.set_timer(arg, timeout_ms)`, which gives this handle.
abbrev pub set_timer : ℕ → ℕ → TimerArg → Client → Client
set_timer handle ms arg c = record c { timers = put {V = ℕ × TimerArg} handle (ms, arg) c.timers }

abbrev pub send_request : ℕ → RpcCallBody → List ℕ → Client → Client
send_request dest body stack c = record c {
  sent = record { dest = dest; body = body; stack = stack } ∷ c.sent;
}

-- The argument that `_call` makes.
unfoldable pub timer_of : ℕ → ℕ → Unset → TimerArg
timer_of dest xid unset = record { xid = xid; dest = unset.dest; callback = (dest, xid) }

module _ (generic_verify : StubIdent → ℕ) where
  -- `_call`, with the handle that the timer gives; `_missions[dest][xid]` is there by then.
  unfoldable pub call :
      ℕ → ℕ → StubIdent → List ℕ → ℕ → Bool → ℕ → Unset → Client → Option (ℕ × Client)
  unfolding alloc_xid call_body_of timer_of
  call dest timeout_ms stub stack callback sync timer unset c = do
    r ← alloc_xid dest callback c
    let trunk = if sync then unset.trunk else timer
    let timed = if sync then r.1 else set_timer timer timeout_ms (timer_of dest r.0 unset) r.1
    let body = call_body_of r.0 stub (generic_verify stub) unset trunk
    some (r.0, send_request dest body stack timed)
