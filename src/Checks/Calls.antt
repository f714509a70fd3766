-- ===== src/Checks/Calls.antt =====
-- A client of imou-rpc-client/imou-rpc-client/imouto_rpc_client.hpp that makes one call.
use isu_net.Base.{
  Bool, [], arith, erase, false, find, if◌then◌else◌, map, none, put, refl, some, suc, true, ℕ, ◌<◌,
  ◌==◌, ◌^◌, ◌∷◌, ◌≡◌, ◌≢◌, ◌≤◌, ◌⊎◌,
}
use isu_net.Stubs.{StubIdent}
use isu_net.Rpc.{same, msg_replay, RpcCallBody, ReplyBody, archive_block}
use isu_net.Rpc.Blocks.{frames, block_content, for_each_memory_block-frames}
use isu_net.Rpc.{for_each_memory_block}
use isu_net.Rpc.Client.{
  timer_of, Client, Unset, make_client, mission, missions_of, insert_mission, alloc_xid, call,
  call_body_of, erase_mission, have, cancel_timer,
}
use isu_net.Rpc.Client.Process.{
  cancel_trunk, Package, knows_call, lets_through, to_session_stat, answer_mission, process_package,
  rpc_timeout,
}
use isu_net.Rpc.Client.Replies.{answers}
use isu_net.Rpc.Client.Answers.{answer_to}
use isu_net.Rpc.Client.Answered.{process_package_lem}
use isu_net.Rpc.Client.Once.{calls, receives, ClientReach, stays, steps, answered_once}
use isu_net.Rpc.Client.Timeout.{timeout_of, timeout_then_reply}
use isu_net.Rpc.Client.Lost.{timeout_lost}

abbrev procedure : StubIdent
procedure = record { prog = 1; vers = 2; proc = 3 }

abbrev unset : Unset
unset = record { trunk = 0; handle = 0; dest = 0 }

abbrev verify : StubIdent → ℕ
verify ident = 9

abbrev knows : ℕ → Bool
knows ident = ident == 9

-- The client after an asynchronous call to the address 7, with the callback 50 and the timer 8.
abbrev calling : Client
calling = record {
  last_xid = 5;
  spinlock = false;
  missions = (7, (5, 50) ∷ []) ∷ [];
  timers = (8, (100, record { xid = 5; dest = 0; callback = (7, 5) })) ∷ [];
  called = [];
  sent =
      record {
        dest = 7;
        body = record {
          body = record {
            head = record { xid = 5; magic = 0 };
            body = record { ident = procedure; rpcvers = 2 };
          };
          trunk = 8;
          ident = 9;
          handle = 0;
        };
        stack = 1 ∷ [];
      }
      ∷ [];
}

called_is :
    call verify 7 100 procedure (1 ∷ []) 50 false 8 unset (make_client 4) ≡ some (5, calling)
unfolding call timer_of alloc_xid insert_mission missions_of call_body_of make_client find put
called_is = refl

-- The accepted reply to it.
abbrev reply : ReplyBody
reply = record { head = record { xid = 5; magic = 1 }; what = 0; stat = 0; ident = 9; trunk = 8 }

abbrev request : RpcCallBody
request = record {
  body = record {
    head = record { xid = 5; magic = 0 };
    body = record { ident = procedure; rpcvers = 2 };
  };
  trunk = 8;
  ident = 9;
  handle = 0;
}

abbrev accepted : Package
accepted = record {
  memory = [];
  as_call = request;
  as_reply = reply;
  rest = archive_block (1 ∷ []);
}

abbrev answered : Client
answered = record calling {
  missions = (7, []) ∷ [];
  timers = [];
  called = answer_to 7 50 accepted ∷ [];
}

answered_is : process_package knows true 7 accepted calling ≡ some answered
unfolding process_package knows_call have mission missions_of lets_through answer_mission
    cancel_trunk cancel_timer erase_mission find put erase to_session_stat
answered_is = refl

-- A call and its reply.
both : ClientReach verify knows (make_client 4) answered
unfolding make_client
both =
    steps calling answered
      (steps (make_client 4) calling stays
        (calls 7 100 procedure (1 ∷ []) 50 false 8 unset 5 calling (omega arith) called_is))
      (receives true 7 accepted answered answered_is)

answered_once_example :
    ((mission 7 5 answered ≡ none) × (answers 7 5 answered.called ≤ 1))
    ⊎ ((callback : ℕ) × (mission 7 5 answered ≡ some callback) × (answers 7 5 answered.called ≡ 0))
answered_once_example = answered_once verify knows 4 7 5 answered both

there : mission 7 5 calling ≡ some 50
unfolding mission missions_of find
there = refl

through : lets_through knows reply ≡ true
unfolding lets_through
through = refl

process_package_lem_example :
    (((reply.head.magic ≢ msg_replay)
        ⊎ (mission 7 5 calling ≡ none)
        ⊎ (lets_through knows reply ≡ false))
      × (process_package knows true 7 accepted calling ≡ some calling))
    ⊎ ((reply.trunk ≢ 0)
        × (find 8 calling.timers ≡ none)
        × (process_package knows true 7 accepted calling ≡ none))
    ⊎ ((callback : ℕ) × (w : Client) × (mission 7 5 calling ≡ some callback)
        × (process_package knows true 7 accepted calling ≡ some w)
        × (w.called ≡ answer_to 7 callback accepted ∷ [])
        × ((d x : ℕ) → mission d x w ≡ (if same 7 5 d x then none else mission d x calling))
        × (w.spinlock ≡ false))
process_package_lem_example = process_package_lem knows 7 accepted calling refl

running : find 8 calling.timers ≡ some (100, record { xid = 5; dest = 0; callback = (7, 5) })
unfolding find
running = refl

timeout_then_reply_example :
    (w : Client) × (rpc_timeout 8 (record { xid = 5; dest = 7; callback = (7, 5) }) calling
      ≡ some w)
    × (w.called ≡ timeout_of 7 5 50 ∷ [])
    × ((reply.trunk ≢ 8) ⊎ (process_package knows true 7 accepted w ≡ none))
    × ((reply.trunk ≢ 0)
        ⊎ ((v : Client) × (process_package knows true 7 accepted w ≡ some v)
            × (v.called ≡ answer_to 7 50 accepted ∷ timeout_of 7 5 50 ∷ [])))
timeout_then_reply_example =
    timeout_then_reply knows 8 7 50 (100, record { xid = 5; dest = 0; callback = (7, 5) }) accepted
      calling refl refl there through running (omega arith)

unused : mission 0 5 (make_client 4) ≡ none
unfolding mission missions_of make_client find
unused = refl

small_xid : suc (make_client 4).last_xid < 2 ^ 32
unfolding make_client
small_xid = omega arith

timeout_lost_example : rpc_timeout 8 (timer_of 7 5 unset) calling ≡ cancel_timer 8 calling
timeout_lost_example =
    timeout_lost verify knows 7 100 procedure (1 ∷ []) 50 8 unset 5 (make_client 4) calling calling
      small_xid (omega arith) unused called_is stays

for_each_memory_block-frames_example :
    let r = for_each_memory_block (frames ((1 ∷ 2 ∷ []) ∷ [] ∷ (3 ∷ []) ∷ [])) in
    (r.1 ≡ true)
    × (map (block_content (frames ((1 ∷ 2 ∷ []) ∷ [] ∷ (3 ∷ []) ∷ []))) r.0
        ≡ (1 ∷ 2 ∷ []) ∷ [] ∷ (3 ∷ []) ∷ [])
for_each_memory_block-frames_example =
    for_each_memory_block-frames ((1 ∷ 2 ∷ []) ∷ [] ∷ (3 ∷ []) ∷ [])
      (omega arith, (omega arith, (omega arith, tt)))
