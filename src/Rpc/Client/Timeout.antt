-- ===== src/Rpc/Client/Timeout.antt =====
-- imou-rpc-client/imou-rpc-client/imouto_rpc_client.hpp: `_rpc_timeout` and the missions.
use isu_net.Base.{
  ==_false, ==_iff, ==_refl, Bool, Bool-cases, [], ap, erase, false, find, find-erase, inl, inr,
  none, refl, some, sym, true, ℕ, ◌==◌, ◌∙◌, ◌∷◌, ◌≡◌, ◌≢◌, ◌⊎◌,
}
use isu_net.Rpc.{msg_replay, session_timeout}
use isu_net.Rpc.Client.{Client, Called, TimerArg, mission, have, call_back, cancel_timer}
use isu_net.Rpc.Client.Process.{Package, lets_through, process_package, rpc_timeout, tell_timeout}
use isu_net.Rpc.Client.Missions.{mission-same}
use isu_net.Rpc.Client.Answers.{answer_to, have-free}
use isu_net.Rpc.Client.Answered.{process_package-answers, process_package-dangling}

-- The call of the callback that a timeout makes.
abbrev pub timeout_of : ℕ → ℕ → ℕ → Called
timeout_of dest xid callback = record {
  dest = dest;
  xid = xid;
  callback = callback;
  io_success = false;
  rpc_code = session_timeout;
  memory = [];
  locked = false;
}

pub rpc_timeout-steps :
    (handle : ℕ) (known : Bool) (info : TimerArg) (c w : Client)
    → have info.dest info.xid c ≡ some known
    → tell_timeout known info c ≡ some w
    → rpc_timeout handle info c ≡ cancel_timer handle w
unfolding rpc_timeout
rpc_timeout-steps handle known info c w is tells = rw (rpc_timeout, is) (rw tells refl)

tell_timeout-there :
    (info : TimerArg) (callback : ℕ) (c : Client)
    → mission info.callback.0 info.callback.1 c ≡ some callback
    → tell_timeout true info c
      ≡ some (call_back info.callback.0 info.callback.1 callback false session_timeout [] c)
unfolding tell_timeout
tell_timeout-there info callback c there = rw (tell_timeout, there) refl

timeout-called :
    (handle dest xid callback : ℕ) (timer : ℕ × TimerArg) (c : Client)
    → c.spinlock ≡ false
    → mission dest xid c ≡ some callback
    → find handle c.timers ≡ some timer
    → (w : Client) × (rpc_timeout handle
          (record { xid = xid; dest = dest; callback = (dest, xid) })
          c
        ≡ some w)
      × (w.called ≡ timeout_of dest xid callback ∷ c.called)
      × (w.missions ≡ c.missions)
      × (w.spinlock ≡ false)
      × (find handle w.timers ≡ none)
unfolding cancel_timer
timeout-called handle dest xid callback timer c free there running =
    let info : TimerArg = record { xid = xid; dest = dest; callback = (dest, xid) } in
    let t = call_back dest xid callback false session_timeout [] c in
    let known : have dest xid c ≡ some true = have-free dest xid c free ∙ (rw there refl) in
    (
      record t { timers = erase {V = ℕ × TimerArg} handle c.timers },
      rpc_timeout-steps handle true info c t known (tell_timeout-there info callback c there)
          ∙ (rw running refl),
      ap (λ l. record (timeout_of dest xid callback) { locked = l } ∷ c.called) free,
      refl,
      free,
      find-erase handle handle c.timers ∙ (rw (==_refl handle) refl),
    )

-- A timeout that finds its mission calls the callback, and leaves the mission in flight without its
-- timer. A reply that comes then and is let through, with the handle of the timer for its trunk,
-- cancels a timer that is deleted; with a null trunk it calls the callback a second time.
pub timeout_then_reply :
    (check_verify : ℕ → Bool) (handle dest callback : ℕ) (timer : ℕ × TimerArg) (p : Package)
    (c : Client)
    → c.spinlock ≡ false
    → (p.as_reply.head.magic == msg_replay) ≡ true
    → mission dest p.as_reply.head.xid c ≡ some callback
    → lets_through check_verify p.as_reply ≡ true
    → find handle c.timers ≡ some timer
    → handle ≢ 0
    → let xid = p.as_reply.head.xid in
      (w : Client) × (rpc_timeout handle
          (record { xid = xid; dest = dest; callback = (dest, xid) })
          c
        ≡ some w)
      × (w.called ≡ timeout_of dest xid callback ∷ c.called)
      × ((p.as_reply.trunk ≢ handle) ⊎ (process_package check_verify true dest p w ≡ none))
      × ((p.as_reply.trunk ≢ 0)
          ⊎ ((v : Client) × (process_package check_verify true dest p w ≡ some v)
              × (v.called ≡ answer_to dest callback p ∷ timeout_of dest xid callback ∷ c.called)))
timeout_then_reply check_verify handle dest callback timer p c free reply there through running
      real =
    let xid = p.as_reply.head.xid in
    let (w, timed_out, told, missions, unlocked, deleted) =
      timeout-called handle dest xid callback timer c free there running in
    let still : mission dest xid w ≡ some callback = mission-same dest xid c w missions ∙ there in
    (
      w,
      timed_out,
      told,
      elim (Bool-cases (p.as_reply.trunk == handle)) [
        | inr other ↦ inl (==_false p.as_reply.trunk handle other)
        | inl is ↦
            let at : p.as_reply.trunk ≡ handle = (==_iff p.as_reply.trunk handle).0 is in
            inr (
              process_package-dangling check_verify dest callback p w unlocked reply still through
                (λ null. real (sym at ∙ null)) (ap (λ h. find h w.timers) at ∙ deleted))
      ],
      elim (Bool-cases (p.as_reply.trunk == 0)) [
        | inr other ↦ inl (==_false p.as_reply.trunk 0 other)
        | inl is ↦
            let (v, answers, twice, takes) =
              process_package-answers check_verify dest callback p w unlocked reply still through
                (inl ((==_iff p.as_reply.trunk 0).0 is)) in
            inr (v, answers, twice ∙ ap (λ before. answer_to dest callback p ∷ before) told)
      ],
    )
