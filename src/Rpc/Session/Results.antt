-- ===== src/Rpc/Session/Results.antt =====
-- imouto_rpc_client.hpp and imouto_rpc_server.hpp together: what `timed_invoke` returns or raises.
use isu_net.Base.{
  Bool, Bool-cases, List, Option, Option-cases, [], add_size, arith, false, find, if◌then◌else◌,
  inl, inr, leb, length, none, refl, size_mod, some, true, ℕ, ◌+◌, ◌<◌, ◌==◌, ◌∷◌, ◌≡◌,
}
use isu_net.Bitmap.Interface.{Bitset}
use isu_net.Bitmap.Growth.{grown}
use isu_net.Stubs.{StubIdent, StubPool}
use isu_net.Rpc.{
  session_prog_mismatch, session_auth_error, session_success, session_cpp_exception,
  session_c_exception, rarchive_block, archive_block, RpcCallBody, ReplyBody,
}
use isu_net.Rpc.Kernel.{bitmap_of}
use isu_net.Rpc.Kernel.Marks.{marked}
use isu_net.Rpc.Client.{Client, Called, Unset, mission}
use isu_net.Rpc.Client.Invoke.{
  rpc_exception, EventType, Invoked, returns, raises, async_callback, make_exception,
  make_rpc_exception_and_raise, raise_or_return, exception_of, invoke_end,
}
use isu_net.Rpc.Server.{
  Ran, returned, runtime_error, unknow_exception, platform_exception, Server, result_of,
}
use isu_net.Rpc.Server.Answering.{rarchive_block-archive_block}
use isu_net.Rpc.Session.{Parties, called_with, verdict, exchange}
use isu_net.Rpc.Session.Whole.{session_lem}

-- What the event of a call holds after its callback.
abbrev pub event_of : Called → EventType
event_of made = record { io_success = made.io_success; value = made.rpc_code; memory = made.memory }

-- A code and a block that a reply brought.
abbrev pub answered : ℕ → List ℕ → EventType
answered code memory = record { io_success = true; value = code; memory = memory }

-- Codes past `enum_value_boundary` raise nothing.
past_boundary :
    (code : ℕ) (memory : List ℕ) (in_flight : Bool)
    → (code == session_success) ≡ false
    → leb code 8 ≡ false
    → invoke_end (some (answered code memory)) in_flight ≡ some (returns none)
unfolding invoke_end async_callback make_rpc_exception_and_raise raise_or_return
past_boundary code memory in_flight other past = rw other (rw past refl)

success_returns :
    (content : List ℕ) (in_flight : Bool)
    → length content + 4 < size_mod
    → invoke_end (some (answered session_success (archive_block content))) in_flight
      ≡ some (returns (some content))
unfolding invoke_end async_callback
success_returns content in_flight small =
    let read = rarchive_block-archive_block content (omega arith) in
    let size : (add_size (length content) 4 == 0) ≡ false = ground (arith, small) in
    rw read (rw size refl)

cpp_exception_raises :
    (content : List ℕ) (in_flight : Bool)
    → length content + 4 < size_mod
    → invoke_end (some (answered session_cpp_exception (archive_block content))) in_flight
      ≡ some (raises (rpc_exception content))
unfolding invoke_end async_callback make_rpc_exception_and_raise make_exception exception_of
    raise_or_return
cpp_exception_raises content in_flight small =
    let read = rarchive_block-archive_block content (omega arith) in rw read refl

missing_faults :
    (in_flight : Bool) → invoke_end (some (answered session_prog_mismatch [])) in_flight ≡ none
unfolding invoke_end async_callback make_rpc_exception_and_raise make_exception rarchive_block
missing_faults in_flight = refl

module _ (P : Parties) where
  -- What becomes of what a procedure comes to: results and C++ exceptions arrive; an exception of
  -- the platform does not, the caller is given a result that was only constructed.
  abbrev pub outcome_of : Ran → Option Invoked
  outcome_of (returned results) = some (returns (some results))
  outcome_of (runtime_error what) = some (raises (rpc_exception (P.archive_exception what)))
  outcome_of unknow_exception = some (raises (rpc_exception (P.archive_exception P.unknow)))
  outcome_of platform_exception = some (returns none)

  -- Somebody unknown is given such a result too, and for a missing procedure the caller reads past
  -- the end of the reply.
  abbrev pub outcome : StubIdent → List ℕ → StubPool → Option Invoked
  outcome ident stack pool =
      if P.check_verify (P.generic_verify ident) == 0
      then some (returns none)
      else elim (find ident.proc pool.stubs) as (λ o. Option Invoked) [
        | none ↦ none
        | some f ↦ outcome_of (P.stub f stack)
      ]

  -- The bytes that a procedure's end is answered with.
  abbrev pub results_of : ℕ → List ℕ → ℕ × List ℕ
  results_of f stack = result_of P.archive_exception P.unknow P.platform (P.stub f stack)

  ran_outcome :
      (ran : Ran) (in_flight : Bool)
      → let r = result_of P.archive_exception P.unknow P.platform ran in
        length r.1 + 4 < size_mod
        → invoke_end (some (answered (r.0 + session_success) (archive_block r.1))) in_flight
          ≡ outcome_of ran
  unfolding result_of
  ran_outcome (returned results) in_flight small = success_returns results in_flight small
  ran_outcome (runtime_error what) in_flight small =
      cpp_exception_raises (P.archive_exception what) in_flight small
  ran_outcome unknow_exception in_flight small =
      cpp_exception_raises (P.archive_exception P.unknow) in_flight small
  ran_outcome platform_exception in_flight small =
      past_boundary session_c_exception (archive_block (P.archive_exception P.platform)) in_flight
        refl refl

  verdict-outcome :
      (ident : StubIdent) (stack : List ℕ) (pool : StubPool) (in_flight : Bool)
      → ((f : ℕ) → length (results_of f stack).1 + 4 < size_mod)
      → let v = verdict P ident stack pool in
        invoke_end (some (answered v.0 v.1)) in_flight ≡ outcome ident stack pool
  verdict-outcome ident stack pool in_flight small =
      elim (Bool-cases (P.check_verify (P.generic_verify ident) == 0)) [
        | inl unknown ↦
            rw unknown (past_boundary session_auth_error (P.checked 0) in_flight refl refl)
        | inr user ↦ elim (Option-cases (find ident.proc pool.stubs)) [
          | inl missing ↦ rw user (rw missing (missing_faults in_flight))
          | inr (f, there) ↦ rw user (rw there (ran_outcome (P.stub f stack) in_flight (small f)))
        ]
      ]

  -- A synchronous call under the conditions of a call that is answered (nothing lost or doubled,
  -- its trunk null by chance, the lock of the client and the pool free, the server idle, the xid
  -- new to both and in reach, a stack below 2^32 bytes, the ident of the server's answer known),
  -- whose answers are below 2^32 - 4 bytes. It returns the results of the procedure, or raises its
  -- C++ exception; an exception of the platform and a refusal of the user are not raised, and a
  -- missing procedure is a read past the end of the reply.
  pub invoke_lem :
      {Bits : Type 0}
      → ⦃B : Bitset Bits⦄
      → (from dest ms : ℕ) (ident : StubIdent) (stack : List ℕ) (callback timer : ℕ) (unset : Unset)
        (blank : ReplyBody) (as_call : RpcCallBody) (memory : List ℕ) (c : Client) (s : Server Bits)
        (in_flight : Bool)
      → c.spinlock ≡ false
      → unset.trunk ≡ 0
      → s.stubs.spinlock ≡ false
      → s.threads ≡ []
      → mission dest (add_size c.last_xid 1) c ≡ none
      → marked from (add_size c.last_xid 1) s.xidmap ≡ false
      → add_size c.last_xid 1 < grown (B.size (bitmap_of from s.xidmap))
      → length stack < size_mod
      → P.check_reply (P.reply_verify (P.generic_verify ident)) ≡ true
      → ((f : ℕ) → length (results_of f stack).1 + 4 < size_mod)
      → (w : Client) × (made : Called) × (exchange P from dest ms ident stack callback true timer
            unset blank as_call memory c s
          ≡ some w)
        × (w.called ≡ made ∷ c.called)
        × (made.callback ≡ callback)
        × (invoke_end (some (event_of made)) in_flight ≡ outcome ident stack s.stubs)
  invoke_lem from dest ms ident stack callback timer unset blank as_call memory c s in_flight locked
        null busy idle unused new reach small known answers =
      let (w, is, told, gone) =
        session_lem P from dest ms ident stack callback true timer unset blank as_call memory c s
          locked (inr null) busy idle unused new reach small known in
      let v = verdict P ident stack s.stubs in
      (
        w,
        called_with dest (add_size c.last_xid 1) callback v.0 v.1,
        is,
        told,
        refl,
        verdict-outcome ident stack s.stubs in_flight answers,
      )
