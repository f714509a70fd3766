-- ===== src/Rpc/Client/Once.antt =====
-- imou-rpc-client/imou-rpc-client/imouto_rpc_client.hpp: what the threads do to the missions of one
-- client, in any order.
use isu_net.Base.{
  Bool, List, arith, find, inl, inr, none, refl, size_mod, some, subst, suc, sym, ℕ, ◌<◌, ◌≡◌, ◌≤◌,
  ◌⊎◌,
}
use isu_net.Stubs.{StubIdent}
use isu_net.Rpc.Client.{
  Client, missions_of, Unset, TimerArg, make_client, mission, call, force_check_it,
  abort_all_mission,
}
use isu_net.Rpc.Client.Process.{Package, answer_mission, process_package, rpc_timeout}
use isu_net.Rpc.Client.Replies.{answers, answer_mission-Takes, process_package-Takes}
use isu_net.Rpc.Client.Begins.{call-Begins}
use isu_net.Rpc.Client.Counting.{
  Counted, call-Counted, Takes-Counted, force_check_it-Counted, abort_all_mission-Counted,
  rpc_timeout-Counted,
}

module _ (generic_verify : StubIdent → ℕ) (check_verify : ℕ → Bool) where
  -- A call, as long as the xids have not run out; a package, whole or, when another thread came in
  -- between, from its second look at the missions on; a timeout; and what the client drops itself.
  pub data ClientStep (c : Client) : Client → Type 0 where
    calls :
        (dest ms : ℕ) (stub : StubIdent) (stack : List ℕ) (callback : ℕ) (sync : Bool) (timer : ℕ)
        (unset : Unset) (xid : ℕ) (w : Client)
        → suc c.last_xid < size_mod
        → call generic_verify dest ms stub stack callback sync timer unset c ≡ some (xid, w)
        → ClientStep c w
    receives :
        (io_success : Bool) (from : ℕ) (p : Package) (w : Client)
        → process_package check_verify io_success from p c ≡ some w
        → ClientStep c w
    goes_on :
        (from : ℕ) (p : Package) (w : Client) → answer_mission from p c ≡ some w → ClientStep c w
    times_out :
        (handle : ℕ) (info : TimerArg) (w : Client)
        → rpc_timeout handle info c ≡ some w
        → ClientStep c w
    checks : (dest xid : ℕ) (w : Client) → force_check_it dest xid c ≡ some w → ClientStep c w
    aborts : (w : Client) → abort_all_mission c ≡ some w → ClientStep c w

  pub data ClientReach (c : Client) : Client → Type 0 where
    stays : ClientReach c c
    steps : (r w : Client) → ClientReach c r → ClientStep r w → ClientReach c w

  ClientStep-Counted : (d x : ℕ) (c w : Client) → Counted d x c → ClientStep c w → Counted d x w
  ClientStep-Counted d x c w v (calls dest ms stub stack callback sync timer unset xid _ small is) =
      call-Counted d x dest xid c w v
        (call-Begins generic_verify dest ms stub stack callback sync timer unset xid c w small is)
  ClientStep-Counted d x c w v (receives io_success from p _ is) =
      elim (process_package-Takes check_verify io_success from p c w is) [
        | inl nothing ↦ subst (Counted d x) (sym nothing) v
        | inr (xid, takes) ↦ Takes-Counted d x from xid c w v takes
      ]
  ClientStep-Counted d x c w v (goes_on from p _ is) =
      Takes-Counted d x from p.as_reply.head.xid c w v (answer_mission-Takes from p c w is)
  ClientStep-Counted d x c w v (times_out handle info _ is) =
      rpc_timeout-Counted d x handle info c w v is
  ClientStep-Counted d x c w v (checks dest xid _ is) = force_check_it-Counted d x dest xid c w v is
  ClientStep-Counted d x c w v (aborts _ is) = abort_all_mission-Counted d x c w v is

  ClientReach-Counted : (d x : ℕ) (c w : Client) → Counted d x c → ClientReach c w → Counted d x w
  ClientReach-Counted d x c _ v stays = v
  ClientReach-Counted d x c _ v (steps r w reach step) =
      ClientStep-Counted d x r w (ClientReach-Counted d x c r v reach) step

  -- In every history of a new client in which the xids do not run out, that is, no call is made
  -- once the last xid is 2^32 - 1, however its calls, the packages of any sender, the timeouts and
  -- what it drops itself are mixed, and however two threads with packages come in between each
  -- other: as long as the mission of an address and a xid is in flight, no package has called its
  -- callback, and afterwards at most one has.
  pub answered_once :
      (unset_xid d x : ℕ) (c : Client)
      → ClientReach (make_client unset_xid) c
      → ((mission d x c ≡ none) × (answers d x c.called ≤ 1))
        ⊎ ((callback : ℕ) × (mission d x c ≡ some callback) × (answers d x c.called ≡ 0))
  unfolding make_client mission missions_of find
  answered_once unset_xid d x c reach =
      let start : Counted d x (make_client unset_xid) = record {
        entry = inl (refl, omega arith);
        new = inr (refl, refl);
        free = refl;
      } in
      (ClientReach-Counted d x (make_client unset_xid) c start reach).entry
