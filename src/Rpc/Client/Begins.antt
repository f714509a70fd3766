-- ===== src/Rpc/Client/Begins.antt =====
-- imou-rpc-client/imou-rpc-client/imouto_rpc_client.hpp: what `_call` does to the missions.
use isu_net.Base.{
  ==_refl, Bool, Bool-cases, List, add_size, ap, arith, false, find, find-put_self, if◌then◌else◌,
  inl, inr, none, refl, size_mod, some, some-injective, subst, suc, sym, true, true-false, ℕ, ◌<◌,
  ◌∙◌, ◌∷◌, ◌≡◌, ◌⊎◌,
}
use isu_net.Stubs.{StubIdent}
use isu_net.Rpc.{same}
use isu_net.Rpc.Client.{
  TimerArg, timer_of, Client, set_timer, send_request, call_body_of, Request, Unset, mission, call,
  alloc_xid, insert_mission,
}
use isu_net.Rpc.Client.Missions.{mission-same, mission-insert_mission, mission-insert_mission_other}

-- A call makes the mission of one xid, the next, and nothing else of it.
pub record Begins (dest xid : ℕ) (c w : Client) : Type 0 where
  pub next : xid ≡ suc c.last_xid
  pub last_xid : w.last_xid ≡ xid
  pub called : w.called ≡ c.called
  pub free : w.spinlock ≡ false
  pub callback : ℕ
  pub others : (d x : ℕ) → same dest xid d x ≡ false → mission d x w ≡ mission d x c
  pub missions :
      mission dest xid c ≡ none
      → (d x : ℕ) → mission d x w ≡ (if same dest xid d x then some callback else mission d x c)

alloc-Begins :
    (dest callback ret : ℕ) (c t : Client)
    → ret ≡ suc c.last_xid
    → t.missions ≡ (insert_mission dest ret callback (record c { last_xid = ret })).missions
    → t.called ≡ c.called
    → t.last_xid ≡ ret
    → t.spinlock ≡ false
    → Begins dest ret c t
alloc-Begins dest callback ret c t next missions called last free = record {
  next = next;
  last_xid = last;
  called = called;
  free = free;
  callback = callback;
  others = λ d x other.
      let at = record c { last_xid = ret } in
      mission-same d x (insert_mission dest ret callback at) t missions
      ∙ mission-insert_mission_other dest ret callback d x at other
      ∙ mission-same d x c at refl;
  missions = λ fresh d x.
      let at = record c { last_xid = ret } in
      mission-same d x (insert_mission dest ret callback at) t missions
      ∙ mission-insert_mission dest ret callback d x at (mission-same dest ret c at refl ∙ fresh)
      ∙ ap (λ o. if same dest ret d x then some callback else o) (mission-same d x c at refl);
}

-- The mission is in, for a call that waits or with its timer.
unfoldable pub allocated : ℕ → ℕ → Client → Client
unfolding insert_mission
allocated dest callback c =
    insert_mission dest (add_size c.last_xid 1) callback
      (record c { last_xid = add_size c.last_xid 1 })

alloc_xid-free :
    (dest callback : ℕ) (c : Client)
    → c.spinlock ≡ false
    → alloc_xid dest callback c ≡ some (add_size c.last_xid 1, allocated dest callback c)
unfolding alloc_xid allocated
alloc_xid-free dest callback c free =
    ap (λ b. if b then none else some (add_size c.last_xid 1, allocated dest callback c)) free

pub call-steps :
    (generic_verify : StubIdent → ℕ) (dest ms : ℕ) (stub : StubIdent) (stack : List ℕ)
    (callback : ℕ) (sync : Bool) (timer : ℕ) (unset : Unset) (c t : Client)
    → c.spinlock ≡ false
    → let ret = add_size c.last_xid 1 in
      (if sync
          then allocated dest callback c
          else set_timer timer ms (timer_of dest ret unset) (allocated dest callback c))
        ≡ t
      → call generic_verify dest ms stub stack callback sync timer unset c
        ≡ some (
          ret,
          send_request dest
              (call_body_of ret stub
                (generic_verify stub)
                unset
                (if sync then unset.trunk else timer))
              stack
              t,
        )
unfolding call
call-steps generic_verify dest ms stub stack callback sync timer unset c t free is =
    let ret = add_size c.last_xid 1 in
    let body =
      call_body_of ret stub (generic_verify stub) unset (if sync then unset.trunk else timer) in
    rw (alloc_xid-free dest callback c free)
      (ap (λ t. some (ret, send_request dest body stack t)) is)

pub call-Begins :
    (generic_verify : StubIdent → ℕ) (dest ms : ℕ) (stub : StubIdent) (stack : List ℕ)
    (callback : ℕ) (sync : Bool) (timer : ℕ) (unset : Unset) (xid : ℕ) (c w : Client)
    → suc c.last_xid < size_mod
    → call generic_verify dest ms stub stack callback sync timer unset c ≡ some (xid, w)
    → Begins dest xid c w
unfolding call alloc_xid insert_mission allocated
call-Begins generic_verify dest ms stub stack callback sync timer unset xid c w small is =
    elim (Bool-cases c.spinlock) [
      | inl locked ↦ let none_is = rw locked at is in absurd (cc)
      | inr free ↦
          let ret = add_size c.last_xid 1 in
          let next : ret ≡ suc c.last_xid = omega arith in
          elim (Bool-cases sync) [
            | inl waits ↦
                let steps =
                  call-steps generic_verify dest ms stub stack callback sync timer unset c
                    (allocated dest callback c) free (rw waits refl) in
                subst (λ r. Begins dest r.0 c r.1) (some-injective (sym steps ∙ is))
                  (alloc-Begins dest callback ret c _ next refl refl refl free)
            | inr later ↦
                let steps =
                  call-steps generic_verify dest ms stub stack callback sync timer unset c
                    (set_timer timer ms (timer_of dest ret unset) (allocated dest callback c)) free
                    (rw later refl) in
                subst (λ r. Begins dest r.0 c r.1) (some-injective (sym steps ∙ is))
                  (alloc-Begins dest callback ret c _ next refl refl refl free)
          ]
    ]

-- What a call of a client whose lock is free, with a xid that is new, leaves behind.
pub record Made (dest xid callback : ℕ) (q : Request) (c w : Client) : Type 0 where
  pub sent : w.sent ≡ q ∷ c.sent
  pub called : w.called ≡ c.called
  pub free : w.spinlock ≡ false
  pub there : mission dest xid w ≡ some callback
  pub releases : (q.body.trunk ≡ 0) ⊎ ((t : ℕ × TimerArg) × (find q.body.trunk w.timers ≡ some t))

allocated-Made :
    (dest callback : ℕ) (q : Request) (c t : Client)
    → c.spinlock ≡ false
    → mission dest (add_size c.last_xid 1) c ≡ none
    → t.missions ≡ (allocated dest callback c).missions
    → t.called ≡ c.called
    → t.spinlock ≡ false
    → t.sent ≡ q ∷ c.sent
    → (q.body.trunk ≡ 0) ⊎ ((a : ℕ × TimerArg) × (find q.body.trunk t.timers ≡ some a))
    → Made dest (add_size c.last_xid 1) callback q c t
unfolding allocated
allocated-Made dest callback q c t free new missions called unlocked sent releases =
    let ret = add_size c.last_xid 1 in
    let at = record c { last_xid = ret } in
    record {
      sent = sent;
      called = called;
      free = unlocked;
      there =
          mission-same dest ret (allocated dest callback c) t missions
          ∙ mission-insert_mission dest ret callback dest ret at
              (mission-same dest ret c at refl ∙ new)
          ∙ (rw (==_refl dest, ==_refl ret) refl);
      releases = releases;
    }

pub call-Made :
    (generic_verify : StubIdent → ℕ) (dest ms : ℕ) (stub : StubIdent) (stack : List ℕ)
    (callback : ℕ) (sync : Bool) (timer : ℕ) (unset : Unset) (c : Client)
    → c.spinlock ≡ false
    → mission dest (add_size c.last_xid 1) c ≡ none
    → (sync ≡ false) ⊎ (unset.trunk ≡ 0)
    → let ret = add_size c.last_xid 1 in
      (w : Client) × (trunk : ℕ) × (call generic_verify dest ms stub stack callback sync timer unset
          c
        ≡ some (ret, w))
      × Made dest ret callback
          (record {
            dest = dest;
            body = call_body_of ret stub (generic_verify stub) unset trunk;
            stack = stack;
          })
          c
          w
unfolding allocated insert_mission call_body_of
call-Made generic_verify dest ms stub stack callback true timer unset c free new kept =
    let ret = add_size c.last_xid 1 in
    let body = call_body_of ret stub (generic_verify stub) unset unset.trunk in
    (
      send_request dest body stack (allocated dest callback c),
      unset.trunk,
      call-steps generic_verify dest ms stub stack callback true timer unset c
          (allocated dest callback c) free refl,
      allocated-Made dest callback _ c _ free new refl refl free refl
          (elim kept [ inl later ↦ absurd (true-false later) | inr null ↦ inl null ]),
    )
call-Made generic_verify dest ms stub stack callback false timer unset c free new kept =
    let ret = add_size c.last_xid 1 in
    let body = call_body_of ret stub (generic_verify stub) unset timer in
    let t = set_timer timer ms (timer_of dest ret unset) (allocated dest callback c) in
    (
      send_request dest body stack t,
      timer,
      call-steps generic_verify dest ms stub stack callback false timer unset c t free refl,
      allocated-Made dest callback _ c _ free new refl refl free refl (
          inr (
            (ms, timer_of dest ret unset),
            find-put_self timer (ms, timer_of dest ret unset) (allocated dest callback c).timers,
          )),
    )
