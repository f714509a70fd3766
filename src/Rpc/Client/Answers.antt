-- ===== src/Rpc/Client/Answers.antt =====
-- imou-rpc-client/imou-rpc-client/imouto_rpc_client.hpp: what a reply to a mission in flight
-- comes to.
use isu_net.Base.{
  ==_false, Bool, Bool-cases, Option, Option-cases, ap, erase, false, find, if◌then◌else◌, inl, inr,
  none, refl, some, true, ℕ, ◌==◌, ◌∙◌, ◌∷◌, ◌≡◌, ◌≢◌, ◌⊎◌,
}
use isu_net.Rpc.{msg_replay}
use isu_net.Rpc.Client.{
  Client, Called, TimerArg, mission, have, erase_mission, call_back, cancel_timer,
}
use isu_net.Rpc.Client.Process.{Package, knows_call, cancel_trunk, answer_mission, to_session_stat}
use isu_net.Rpc.Client.Replies.{Takes, cancel_trunk-Holds, answer_mission-steps, take_mission}

-- The call of the callback that a package makes.
abbrev pub answer_to : ℕ → ℕ → Package → Called
answer_to from callback p = record {
  dest = from;
  xid = p.as_reply.head.xid;
  callback = callback;
  io_success = true;
  rpc_code = to_session_stat p.as_reply.what p.as_reply.stat;
  memory = p.rest;
  locked = true;
}

pub have-free :
    (from xid : ℕ) (c : Client)
    → c.spinlock ≡ false
    → have from xid c ≡ elim (mission from xid c) as (λ o. Option Bool) [
      | none ↦ some false
      | some callback ↦ some true
    ]
unfolding have
have-free from xid c free =
    ap
      (λ b. if b then none else elim (mission from xid c) as (λ o. Option Bool) [
        | none ↦ some false
        | some callback ↦ some true
      ])
      free

pub knows_call-free :
    (from callback : ℕ) (p : Package) (c : Client)
    → c.spinlock ≡ false
    → ((p.as_reply.head.magic == msg_replay) ≡ true
        → mission from p.as_reply.head.xid c ≡ some callback
        → knows_call from p c ≡ some true)
      × ((p.as_reply.head.magic == msg_replay) ≡ false → knows_call from p c ≡ some false)
      × (mission from p.as_reply.head.xid c ≡ none → knows_call from p c ≡ some false)
unfolding knows_call
knows_call-free from callback p c free =
    let at = have-free from p.as_reply.head.xid c free in
    (
      λ reply there. rw (knows_call, reply) (at ∙ (rw there refl)),
      λ other. rw (knows_call, other) refl,
      λ gone. elim (Bool-cases (p.as_reply.head.magic == msg_replay)) [
        | inl reply ↦ rw (knows_call, reply) (at ∙ (rw gone refl))
        | inr other ↦ rw (knows_call, other) refl
      ],
    )

-- The trunk of a reply is null or the handle of a timer, which is then cancelled.
abbrev pub Releases : ℕ → Client → Type 0
Releases trunk c = (trunk ≡ 0) ⊎ ((timer : ℕ × TimerArg) × (find trunk c.timers ≡ some timer))

pub cancel_trunk-Releases :
    (trunk : ℕ) (c : Client)
    → ((held : Client) × (cancel_trunk trunk (record c { spinlock = true }) ≡ some held))
      ⊎ ((trunk ≢ 0)
          × (find trunk c.timers ≡ none)
          × (cancel_trunk trunk (record c { spinlock = true }) ≡ none))
unfolding cancel_trunk cancel_timer
cancel_trunk-Releases trunk c = elim (Bool-cases (trunk == 0)) [
  | inl null ↦ inl (record c { spinlock = true }, rw (cancel_trunk, null) refl)
  | inr other ↦ elim (Option-cases (find trunk c.timers)) [
    | inl gone ↦
        inr (==_false trunk 0 other, gone, rw (cancel_trunk, other) (rw (cancel_timer, gone) refl))
    | inr (timer, there) ↦ inl (
      record c { spinlock = true; timers = erase {V = ℕ × TimerArg} trunk c.timers },
      rw (cancel_trunk, other) (rw (cancel_timer, there) refl),
    )
  ]
]

pub answer_mission-answers :
    (from callback : ℕ) (p : Package) (c held : Client)
    → c.spinlock ≡ false
    → mission from p.as_reply.head.xid c ≡ some callback
    → cancel_trunk p.as_reply.trunk (record c { spinlock = true }) ≡ some held
    → (w : Client) × (answer_mission from p c ≡ some w)
      × (w.called ≡ answer_to from callback p ∷ c.called)
      × Takes from p.as_reply.head.xid c w
unfolding erase_mission
answer_mission-answers from callback p c held free there released =
    let holds = cancel_trunk-Holds p.as_reply.trunk c held released in
    (
      record (erase_mission from p.as_reply.head.xid (
          call_back from p.as_reply.head.xid callback true
            (to_session_stat p.as_reply.what p.as_reply.stat) p.rest held)) { spinlock = false },
      answer_mission-steps from callback p c free there ∙ (rw released refl),
      rw holds.locked (rw holds.called refl),
      take_mission from p.as_reply.head.xid callback
          (to_session_stat p.as_reply.what p.as_reply.stat) true p.rest c held there holds,
    )

pub answer_mission-dangling :
    (from callback : ℕ) (p : Package) (c : Client)
    → c.spinlock ≡ false
    → mission from p.as_reply.head.xid c ≡ some callback
    → cancel_trunk p.as_reply.trunk (record c { spinlock = true }) ≡ none
    → answer_mission from p c ≡ none
answer_mission-dangling from callback p c free there gone =
    answer_mission-steps from callback p c free there ∙ (rw gone refl)
