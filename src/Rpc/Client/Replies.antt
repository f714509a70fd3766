-- ===== src/Rpc/Client/Replies.antt =====
-- imou-rpc-client/imou-rpc-client/imouto_rpc_client.hpp: what a package does to the missions.
use isu_net.Base.{
  >>=-eq-some, Bool, Bool-cases, List, Option-cases, [], ap, erase, false, find, if◌then◌else◌, inl,
  inr, none, refl, some, some-injective, subst, sym, true, ℕ, ◌&&◌, ◌+◌, ◌==◌, ◌>>=◌, ◌∙◌, ◌∷◌, ◌≡◌,
  ◌⊎◌,
}
use isu_net.Rpc.{same, session_io_failed}
use isu_net.Rpc.Client.{Client, TimerArg, Called, mission, erase_mission, call_back, cancel_timer}
use isu_net.Rpc.Client.Missions.{mission-erase_mission, mission-same}
use isu_net.Rpc.Client.Process.{
  knows_call, Package, fail_mission, cancel_trunk, answer_mission, process_package, lets_through,
  to_session_stat,
}

-- How often the callback of a mission was called by a package, which holds the lock.
abbrev pub answers : ℕ → ℕ → List Called → ℕ
answers d x [] = 0
answers d x (made ∷ called) =
    (if made.locked && same made.dest made.xid d x then 1 else 0) + answers d x called

-- One mission is taken out, and its callback called with the lock held.
pub record Takes (dest xid : ℕ) (c w : Client) : Type 0 where
  pub callback : ℕ
  pub there : mission dest xid c ≡ some callback
  pub gone : (d x : ℕ) → mission d x w ≡ (if same dest xid d x then none else mission d x c)
  pub told :
      (d x : ℕ) → answers d x w.called ≡ (if same dest xid d x then 1 else 0) + answers d x c.called
  pub last_xid : w.last_xid ≡ c.last_xid
  pub free : w.spinlock ≡ false

-- What the lock holds before the callback is called, as far as the missions go.
pub record Holds (c held : Client) : Type 0 where
  pub missions : held.missions ≡ c.missions
  pub called : held.called ≡ c.called
  pub last_xid : held.last_xid ≡ c.last_xid
  pub locked : held.spinlock ≡ true

pub take_mission :
    (from xid callback code : ℕ) (io_success : Bool) (memory : List ℕ) (c held : Client)
    → mission from xid c ≡ some callback
    → Holds c held
    → Takes from xid c
        (record (erase_mission from xid (call_back from xid callback io_success code memory held)) {
          spinlock = false;
        })
unfolding erase_mission
take_mission from xid callback code io_success memory c held there holds =
    let told = call_back from xid callback io_success code memory held in
    record {
      callback = callback;
      there = there;
      gone = λ d x.
          mission-same d x (erase_mission from xid told) _ refl
          ∙ mission-erase_mission from xid d x told
          ∙ ap (λ o. if same from xid d x then none else o)
              (mission-same d x c told holds.missions);
      told = λ d x. rw holds.locked (rw holds.called refl);
      last_xid = holds.last_xid;
      free = refl;
    }

cancel_timer-Holds :
    (handle : ℕ) (c held w : Client) → Holds c held → cancel_timer handle held ≡ some w → Holds c w
unfolding cancel_timer
cancel_timer-Holds handle c held w v is =
    let (timer, there, now) =
      >>=-eq-some (find handle held.timers)
        (λ timer. some (record held { timers = erase {V = ℕ × TimerArg} handle held.timers })) is in
    subst (Holds c) (some-injective now) (record {
      missions = v.missions;
      called = v.called;
      last_xid = v.last_xid;
      locked = v.locked;
    })

lock-Holds : (c : Client) → Holds c (record c { spinlock = true })
lock-Holds c = record { missions = refl; called = refl; last_xid = refl; locked = refl }

pub cancel_trunk-Holds :
    (trunk : ℕ) (c held : Client)
    → cancel_trunk trunk (record c { spinlock = true }) ≡ some held
    → Holds c held
unfolding cancel_trunk
cancel_trunk-Holds trunk c held is = elim (Bool-cases (trunk == 0)) [
  | inl null ↦ subst (Holds c) (some-injective (rw null at is)) (lock-Holds c)
  | inr timer ↦
      cancel_timer-Holds trunk c (record c { spinlock = true }) held (lock-Holds c) (rw timer at is)
]

pub answer_mission-steps :
    (from callback : ℕ) (p : Package) (c : Client)
    → c.spinlock ≡ false
    → mission from p.as_reply.head.xid c ≡ some callback
    → answer_mission from p c ≡ (
        cancel_trunk p.as_reply.trunk (record c { spinlock = true }) >>= λ held.
        some
          (record (erase_mission from p.as_reply.head.xid (
            call_back from p.as_reply.head.xid callback true
              (to_session_stat p.as_reply.what p.as_reply.stat)
              p.rest
              held)) { spinlock = false }))
unfolding answer_mission
answer_mission-steps from callback p c free there = rw (answer_mission, free) (rw there refl)

pub answer_mission-Takes :
    (from : ℕ) (p : Package) (c w : Client)
    → answer_mission from p c ≡ some w
    → Takes from p.as_reply.head.xid c w
unfolding answer_mission
answer_mission-Takes from p c w is = elim (Bool-cases c.spinlock) [
  | inl locked ↦ let none_is = rw locked at is in absurd (cc)
  | inr free ↦ elim (Option-cases (mission from p.as_reply.head.xid c)) [
    | inl gone ↦ let none_is = rw (free, gone) at is in absurd (cc)
    | inr (callback, there) ↦
        let (held, at_held, then_is) =
          >>=-eq-some (cancel_trunk p.as_reply.trunk (record c { spinlock = true }))
            (λ held.
              some
                (record (erase_mission from p.as_reply.head.xid (
                  call_back from p.as_reply.head.xid callback true
                    (to_session_stat p.as_reply.what p.as_reply.stat) p.rest held)) {
                      spinlock = false;
                    }))
            (sym (answer_mission-steps from callback p c free there) ∙ is) in
        subst (Takes from p.as_reply.head.xid c) (some-injective then_is) (
          take_mission from p.as_reply.head.xid callback
            (to_session_stat p.as_reply.what p.as_reply.stat) true p.rest c held there
            (cancel_trunk-Holds p.as_reply.trunk c held at_held))
  ]
]

fail_mission-steps :
    (from callback : ℕ) (p : Package) (c : Client)
    → c.spinlock ≡ false
    → mission from p.as_call.body.head.xid c ≡ some callback
    → fail_mission from p c ≡ (
        find p.as_call.handle c.timers >>= λ timer.
        let held = record c {
          spinlock = true;
          timers = erase {V = ℕ × TimerArg} p.as_call.handle c.timers;
        } in
        some
          (record (erase_mission from p.as_call.body.head.xid (
            call_back from p.as_call.body.head.xid callback false session_io_failed p.memory
              held)) { spinlock = false }))
unfolding fail_mission cancel_timer
fail_mission-steps from callback p c free there =
    rw (fail_mission, free)
      (rw there (elim (Option-cases (find p.as_call.handle c.timers)) [
        | inl gone ↦ rw (cancel_timer, gone) refl
        | inr (timer, at) ↦ rw (cancel_timer, at) refl
      ]))

pub fail_mission-Takes :
    (from : ℕ) (p : Package) (c w : Client)
    → fail_mission from p c ≡ some w
    → (w ≡ c) ⊎ Takes from p.as_call.body.head.xid c w
unfolding fail_mission
fail_mission-Takes from p c w is = elim (Bool-cases c.spinlock) [
  | inl locked ↦ let none_is = rw locked at is in absurd (cc)
  | inr free ↦ elim (Option-cases (mission from p.as_call.body.head.xid c)) [
    | inl gone ↦ inl (sym (some-injective (rw (free, gone) at is)))
    | inr (callback, there) ↦
        let held = record c {
          spinlock = true;
          timers = erase {V = ℕ × TimerArg} p.as_call.handle c.timers;
        } in
        let xid = p.as_call.body.head.xid in
        let (timer, at_timer, then_is) =
          >>=-eq-some (find p.as_call.handle c.timers)
            (λ timer.
              some
                (record (erase_mission from xid
                  (call_back from xid callback false session_io_failed p.memory held)) {
                    spinlock = false;
                  }))
            (sym (fail_mission-steps from callback p c free there) ∙ is) in
        inr (
          subst (Takes from xid c) (some-injective then_is) (
            take_mission from xid callback session_io_failed false p.memory c held there
              (record { missions = refl; called = refl; last_xid = refl; locked = refl })))
  ]
]

-- A package leaves everything as it is, or takes out one mission.
pub process_package-Takes :
    (check_verify : ℕ → Bool) (io_success : Bool) (from : ℕ) (p : Package) (c w : Client)
    → process_package check_verify io_success from p c ≡ some w
    → (w ≡ c) ⊎ ((xid : ℕ) × Takes from xid c w)
unfolding process_package
process_package-Takes check_verify false from p c w is = elim (fail_mission-Takes from p c w is) [
  | inl nothing ↦ inl nothing
  | inr takes ↦ inr (p.as_call.body.head.xid, takes)
]
process_package-Takes check_verify true from p c w is =
    let (known, had, then_is) =
      >>=-eq-some (knows_call from p c)
        (λ k. if k && lets_through check_verify p.as_reply then answer_mission from p c else some c)
        is in
    elim (Bool-cases (known && lets_through check_verify p.as_reply)) [
      | inl through ↦
          inr (p.as_reply.head.xid, answer_mission-Takes from p c w (rw through at then_is))
      | inr refused ↦ inl (sym (some-injective (rw refused at then_is)))
    ]
