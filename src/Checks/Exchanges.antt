-- ===== src/Checks/Exchanges.antt =====
-- A call of a procedure of imou-rpc-server/imou-rpc-server/imouto_rpc_server.hpp by a client.
use isu_net.Base.{
  Bool, List, [], arith, false, find, length, none, put, refl, replicate, some, take, true, ℕ, ◌+◌,
  ◌<◌, ◌^◌, ◌∷◌, ◌≡◌, ◌≤◌,
}
use isu_net.Bitmap.Interface.{list_bitset}
use isu_net.Bitmap.{create, have, have_bit, just_set, just_test, set, try_extern, append_blocks}
use isu_net.Bitmap.Growth.{grown}
use isu_net.Stubs.{StubIdent, StubPool, enter_read, find_stub, key_stat}
use isu_net.Rpc.{ReplyBody, RpcCallBody, rarchive_block, archive_block}
use isu_net.Rpc.Kernel.{bitmap_of, get_iter, of_access, set_xid, store_bit, verify_xid}
use isu_net.Rpc.Kernel.Marks.{marked}
use isu_net.Rpc.Client.{Client, Called, Unset, mission, missions_of}
use isu_net.Rpc.Client.Invoke.{invoke_end}
use isu_net.Rpc.Server.{
  Task, returned, Server, make_server, process_rpcmsg, check_all, check_rest, check_xid,
  check_version, check_user_and_stub, check_user, check_stub, found_stub, schedule_stub, run_task,
  call_stub, result_of,
}
use isu_net.Rpc.Server.Account.{executions}
use isu_net.Rpc.Server.Executed.{ServerReach, stays, steps, receives, runs, executed_once}
use isu_net.Rpc.Server.Fresh.{process_rpcmsg_fault}
use isu_net.Rpc.Session.{Parties, exchange}
use isu_net.Rpc.Session.Results.{event_of, results_of, outcome, invoke_lem}

abbrev procedure : StubIdent
procedure = record { prog = 1; vers = 2; proc = 3 }

abbrev pool : StubPool
pool = record { prog = 1; ver = 2; spinlock = false; stubs = (3, 70) ∷ [] }

-- Every procedure gives back what it is called with, and everybody is known.
abbrev parties : Parties
parties = record {
  generic_verify = λ ident. 9;
  check_reply = λ ident. true;
  check_verify = λ ident. ident;
  reply_verify = λ ident. ident;
  stub = λ f stack. returned (take 1 stack);
  archive_exception = λ what. what;
  unknow = [];
  platform = [];
  info = λ low high. [];
  checked = λ result. [];
}

abbrev blank : ReplyBody
blank = record { head = record { xid = 0; magic = 0 }; what = 0; stat = 0; ident = 0; trunk = 0 }

abbrev request : RpcCallBody
request = record {
  body = record {
    head = record { xid = 5; magic = 0 };
    body = record { ident = procedure; rpcvers = 2 };
  };
  trunk = 8;
  ident = 9;
  handle = 0;
}

abbrev start : Server (List Bool)
start = record { xidmap = []; stubs = pool; threads = []; ran = []; sent = [] }

start_is : make_server pool ≡ start
unfolding make_server
start_is = refl

abbrev task : Task
task = record {
  from = 4;
  reply = record { head = record { xid = 5; magic = 1 }; what = 0; stat = 0; ident = 9; trunk = 8 };
  stub = 70;
  arguments = 1 ∷ [];
}

-- The request has come once.
abbrev scheduled : Server (List Bool)
scheduled = record start {
  xidmap = (4, list_bitset.set (replicate 32 false) 5 true) ∷ [];
  threads = task ∷ [];
}

scheduled_is :
    process_rpcmsg
      (λ ident. ident)
      (λ ident. ident)
      blank
      true
      4
      request
      (archive_block (1 ∷ []))
      start
    ≡ some scheduled
unfolding process_rpcmsg check_all check_rest check_xid check_version check_user_and_stub check_user
    check_stub found_stub schedule_stub set_xid verify_xid get_iter store_bit of_access bitmap_of
    set just_set just_test try_extern append_blocks create have_bit find put find_stub enter_read
    key_stat rarchive_block
scheduled_is = refl

-- It comes a second time: nothing happens.
again_is :
    process_rpcmsg
      (λ ident. ident)
      (λ ident. ident)
      blank
      true
      4
      request
      (archive_block (1 ∷ []))
      scheduled
    ≡ some scheduled
unfolding process_rpcmsg check_all check_rest check_xid check_version check_user_and_stub check_user
    check_stub found_stub schedule_stub set_xid verify_xid get_iter store_bit of_access bitmap_of
    set just_set just_test try_extern append_blocks create have_bit find put find_stub enter_read
    key_stat rarchive_block
again_is = refl

run : Server (List Bool)
unfolding run_task call_stub result_of
run = run_task (λ what. what) [] [] parties.stub [] task [] scheduled

-- Twice the request, and then its task.
thrice :
    ServerReach
      (λ ident. ident)
      (λ ident. ident)
      parties.stub
      (λ what. what)
      []
      []
      (make_server pool)
      run
unfolding make_server run
thrice =
    steps scheduled run
      (steps scheduled scheduled
        (steps start scheduled stays
          (receives blank true 4 request (archive_block (1 ∷ [])) scheduled scheduled_is))
        (receives blank true 4 request (archive_block (1 ∷ [])) scheduled again_is))
      (runs [] task [] run refl refl)

executed_once_example : executions 4 5 run ≤ 1
executed_once_example =
    executed_once (λ ident. ident) (λ ident. ident) parties.stub (λ what. what) [] [] pool 4 5 run
      thrice

-- A request with the xid 32.
abbrev far : RpcCallBody
far = record request { body = record request.body { head = record { xid = 32; magic = 0 } } }

out_of_reach : grown (list_bitset.size (bitmap_of 4 start.xidmap)) ≤ 32
unfolding bitmap_of create find
out_of_reach = omega arith

process_rpcmsg_fault_example :
    process_rpcmsg (λ ident. ident) (λ ident. ident) blank true 4 far [] start ≡ none
process_rpcmsg_fault_example =
    process_rpcmsg_fault (λ ident. ident) (λ ident. ident) blank 4 far [] start out_of_reach

abbrev client : Client
client = record {
  last_xid = 4;
  spinlock = false;
  missions = [];
  timers = [];
  called = [];
  sent = [];
}

abbrev unset : Unset
unset = record { trunk = 0; handle = 0; dest = 0 }

unused : mission 7 5 client ≡ none
unfolding mission missions_of find
unused = refl

new : marked 4 5 start.xidmap ≡ false
unfolding marked bitmap_of create find have have_bit
new = refl

in_reach : 5 < grown (list_bitset.size (bitmap_of 4 start.xidmap))
unfolding bitmap_of create find
in_reach = omega arith

short : (f : ℕ) → length (results_of parties f (1 ∷ [])).1 + 4 < 2 ^ 32
unfolding result_of
short f = omega arith

invoke_lem_example :
    (w : Client) × (made : Called) × (exchange parties 4 7 100 procedure
        (1 ∷ [])
        50
        true
        8
        unset
        blank
        request
        []
        client
        start
      ≡ some w)
    × (w.called ≡ made ∷ [])
    × (made.callback ≡ 50)
    × (invoke_end (some (event_of made)) true ≡ outcome parties procedure (1 ∷ []) pool)
invoke_lem_example =
    invoke_lem parties 4 7 100 procedure (1 ∷ []) 50 8 unset blank request [] client start true refl
      refl refl refl unused new in_reach (omega arith) refl short
