-- ===== src/Rpc/Client/Lost.antt =====
-- imou-rpc-client/imou-rpc-client/imouto_rpc_client.hpp: the timeout of an asynchronous call, whose
-- argument has no destination.
use isu_net.Base.{
  ==_ne, >>=-eq-some, Bool, Bool-cases, List, Option-cases, [], arith, erase, false, find, inl, inr,
  none, refl, size_mod, some, some-injective, subst, suc, sym, true, ℕ, ◌<◌, ◌>>=◌, ◌∙◌, ◌≡◌, ◌≢◌,
  ◌≤◌,
}
use isu_net.Stubs.{StubIdent}
use isu_net.Rpc.{same, session_timeout}
use isu_net.Rpc.Client.{
  timer_of, Client, TimerArg, Unset, mission, missions_of, have, call, call_back, cancel_timer,
  force_check_it, abort_all_mission, erase_mission,
}
use isu_net.Rpc.Client.Process.{rpc_timeout, tell_timeout}
use isu_net.Rpc.Client.Missions.{mission-same, mission-erase_mission}
use isu_net.Rpc.Client.Replies.{Takes, answer_mission-Takes, process_package-Takes}
use isu_net.Rpc.Client.Counting.{free_then}
use isu_net.Rpc.Client.Begins.{Begins, call-Begins}
use isu_net.Rpc.Client.Answers.{have-free}
use isu_net.Rpc.Client.Once.{
  ClientStep, calls, receives, goes_on, times_out, checks, aborts, ClientReach, stays, steps,
}
use isu_net.Rpc.Client.Timeout.{rpc_timeout-steps}

-- A xid that was given out, with no mission under this address.
record Absent (d x : ℕ) (c : Client) : Type 0 where
  pub old : x ≤ c.last_xid
  pub none_is : mission d x c ≡ none
  pub free : c.spinlock ≡ false

Takes-Absent : (d x from xid : ℕ) (c w : Client) → Absent d x c → Takes from xid c w → Absent d x w
Takes-Absent d x from xid c w v t = record {
  old = rw t.last_xid v.old;
  none_is = t.gone d x ∙ (elim (Bool-cases (same from xid d x)) [
    | inl is ↦ rw is refl
    | inr other ↦ rw other v.none_is
  ]);
  free = t.free;
}

Begins-Absent :
    (d x dest xid : ℕ) (c w : Client) → Absent d x c → Begins dest xid c w → Absent d x w
Begins-Absent d x dest xid c w v b = elim (Bool-cases (same dest xid d x)) [
  | inl is ↦
      let at : (dest ≡ d) × (xid ≡ x) = ground (arith, is) in
      absurd (omega (arith, at.1, b.next, v.old))
  | inr other ↦ record {
    old = omega (arith, b.last_xid, b.next, v.old);
    none_is = b.others d x other ∙ v.none_is;
    free = b.free;
  }
]

force_check_it-Absent :
    (d x dest xid : ℕ) (c w : Client)
    → Absent d x c
    → force_check_it dest xid c ≡ some w
    → Absent d x w
unfolding force_check_it erase_mission
force_check_it-Absent d x dest xid c w v is = elim (Option-cases (find dest c.missions)) [
  | inl nobody ↦ subst (Absent d x) (some-injective (rw (v.free, nobody) at is)) v
  | inr (missions, there) ↦ subst (Absent d x) (some-injective (rw (v.free, there) at is)) (record {
    old = v.old;
    none_is = mission-erase_mission dest xid d x c ∙ (elim (Bool-cases (same dest xid d x)) [
      | inl same_is ↦ rw same_is refl
      | inr other ↦ rw other v.none_is
    ]);
    free = v.free;
  })
]

abort_all_mission-Absent :
    (d x : ℕ) (c w : Client) → Absent d x c → abort_all_mission c ≡ some w → Absent d x w
unfolding abort_all_mission mission missions_of find
abort_all_mission-Absent d x c w v is =
    subst (Absent d x) (free_then v.free is) (record { old = v.old; none_is = refl; free = v.free })

tell_timeout-Absent :
    (d x : ℕ) (known : Bool) (info : TimerArg) (c w : Client)
    → Absent d x c
    → tell_timeout known info c ≡ some w
    → Absent d x w
unfolding tell_timeout
tell_timeout-Absent d x false info c w v is = subst (Absent d x) (some-injective is) v
tell_timeout-Absent d x true info c w v is =
    let (callback, there, told) =
      >>=-eq-some (mission info.callback.0 info.callback.1 c)
        (λ k. some (call_back info.callback.0 info.callback.1 k false session_timeout [] c)) is in
    subst (Absent d x) (some-injective told) (record {
      old = v.old;
      none_is =
          mission-same d x c
            (call_back info.callback.0 info.callback.1 callback false session_timeout [] c) refl
          ∙ v.none_is;
      free = v.free;
    })

rpc_timeout-Absent :
    (d x handle : ℕ) (info : TimerArg) (c w : Client)
    → Absent d x c
    → rpc_timeout handle info c ≡ some w
    → Absent d x w
unfolding rpc_timeout cancel_timer
rpc_timeout-Absent d x handle info c w v is =
    let (known, had, then_is) =
      >>=-eq-some (have info.dest info.xid c)
        (λ k. tell_timeout k info c >>= λ told. cancel_timer handle told) is in
    let (told, tells, ended) =
      >>=-eq-some (tell_timeout known info c) (λ told. cancel_timer handle told) then_is in
    let u = tell_timeout-Absent d x known info c told v tells in
    let (timer, at, now) =
      >>=-eq-some (find handle told.timers)
        (λ timer. some (record told { timers = erase {V = ℕ × TimerArg} handle told.timers }))
        ended in
    let after = record told { timers = erase {V = ℕ × TimerArg} handle told.timers } in
    subst (Absent d x) (some-injective now) (record {
      old = u.old;
      none_is = mission-same d x told after refl ∙ u.none_is;
      free = u.free;
    })

module _ (generic_verify : StubIdent → ℕ) (check_verify : ℕ → Bool) where
  ClientStep-Absent :
      (d x : ℕ) (c w : Client)
      → Absent d x c
      → ClientStep generic_verify check_verify c w
      → Absent d x w
  ClientStep-Absent d x c w v (calls dest ms stub stack callback sync timer unset xid _ small is) =
      Begins-Absent d x dest xid c w v
        (call-Begins generic_verify dest ms stub stack callback sync timer unset xid c w small is)
  ClientStep-Absent d x c w v (receives io_success from p _ is) =
      elim (process_package-Takes check_verify io_success from p c w is) [
        | inl nothing ↦ subst (Absent d x) (sym nothing) v
        | inr (xid, takes) ↦ Takes-Absent d x from xid c w v takes
      ]
  ClientStep-Absent d x c w v (goes_on from p _ is) =
      Takes-Absent d x from p.as_reply.head.xid c w v (answer_mission-Takes from p c w is)
  ClientStep-Absent d x c w v (times_out handle info _ is) =
      rpc_timeout-Absent d x handle info c w v is
  ClientStep-Absent d x c w v (checks dest xid _ is) = force_check_it-Absent d x dest xid c w v is
  ClientStep-Absent d x c w v (aborts _ is) = abort_all_mission-Absent d x c w v is

  ClientReach-Absent :
      (d x : ℕ) (c w : Client)
      → Absent d x c
      → ClientReach generic_verify check_verify c w
      → Absent d x w
  ClientReach-Absent d x c _ v stays = v
  ClientReach-Absent d x c _ v (steps r w reach step) =
      ClientStep-Absent d x r w (ClientReach-Absent d x c r v reach) step

  -- An asynchronous call at a client whose lock is free and whose xids have not run out, whose
  -- timer argument was left with another address than that of the call, one that has no mission of
  -- the new xid. However the client goes on without running out of xids, that is, with no call once
  -- the last xid is 2^32 - 1, the timeout of the call changes nothing but the timer: no callback is
  -- called, even if the mission is still in flight.
  pub timeout_lost :
      (dest ms : ℕ) (stub : StubIdent) (stack : List ℕ) (callback : ℕ) (timer : ℕ) (unset : Unset)
      (xid : ℕ) (c r w : Client)
      → suc c.last_xid < size_mod
      → unset.dest ≢ dest
      → mission unset.dest xid c ≡ none
      → call generic_verify dest ms stub stack callback false timer unset c ≡ some (xid, r)
      → ClientReach generic_verify check_verify r w
      → rpc_timeout timer (timer_of dest xid unset) w ≡ cancel_timer timer w
  unfolding timer_of tell_timeout
  timeout_lost dest ms stub stack callback timer unset xid c r w small differ unused is reach =
      let b =
        call-Begins generic_verify dest ms stub stack callback false timer unset xid c r small is in
      let other : same dest xid unset.dest xid ≡ false =
        rw (==_ne dest unset.dest (λ e. differ (sym e))) refl in
      let start : Absent unset.dest xid r = record {
        old = omega (arith, b.last_xid);
        none_is = b.others unset.dest xid other ∙ unused;
        free = b.free;
      } in
      let v = ClientReach-Absent unset.dest xid r w start reach in
      rpc_timeout-steps timer false (timer_of dest xid unset) w w
        (have-free unset.dest xid w v.free ∙ (rw v.none_is refl)) refl
