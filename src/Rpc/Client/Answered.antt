-- ===== src/Rpc/Client/Answered.antt =====
-- imou-rpc-client/imou-rpc-client/imouto_rpc_client.hpp: what a package comes to.
use isu_net.Base.{
  ==_false, ==_ne, Bool, Bool-cases, Option-cases, false, find, if◌then◌else◌, inl, inr, none,
  none-some, refl, some, sym, true, ℕ, ◌&&◌, ◌==◌, ◌∙◌, ◌∷◌, ◌≡◌, ◌≢◌, ◌⊎◌,
}
use isu_net.Rpc.{msg_replay, same}
use isu_net.Rpc.Client.{Client, mission, cancel_timer}
use isu_net.Rpc.Client.Process.{
  Package, knows_call, lets_through, cancel_trunk, answer_mission, process_package,
}
use isu_net.Rpc.Client.Replies.{Takes}
use isu_net.Rpc.Client.Answers.{
  answer_to, knows_call-free, Releases, cancel_trunk-Releases, answer_mission-answers,
  answer_mission-dangling,
}

dangles :
    (trunk : ℕ) (c : Client)
    → trunk ≢ 0
    → find trunk c.timers ≡ none
    → cancel_trunk trunk (record c { spinlock = true }) ≡ none
unfolding cancel_trunk cancel_timer
dangles trunk c other gone = rw (cancel_trunk, ==_ne trunk 0 other) (rw (cancel_timer, gone) refl)

module _ (check_verify : ℕ → Bool) where
  process_package-known :
      (from : ℕ) (known : Bool) (p : Package) (c : Client)
      → knows_call from p c ≡ some known
      → process_package check_verify true from p c ≡ (
          if known && lets_through check_verify p.as_reply then answer_mission from p c else some c)
  unfolding process_package
  process_package-known from known p c is = rw (process_package, is) refl

  process_package-through :
      (from callback : ℕ) (p : Package) (c : Client)
      → c.spinlock ≡ false
      → (p.as_reply.head.magic == msg_replay) ≡ true
      → mission from p.as_reply.head.xid c ≡ some callback
      → lets_through check_verify p.as_reply ≡ true
      → process_package check_verify true from p c ≡ answer_mission from p c
  process_package-through from callback p c free reply there through =
      let known = (knows_call-free from callback p c free).0 reply there in
      process_package-known from true p c known ∙ (rw through refl)

  pub process_package-answers :
      (from callback : ℕ) (p : Package) (c : Client)
      → c.spinlock ≡ false
      → (p.as_reply.head.magic == msg_replay) ≡ true
      → mission from p.as_reply.head.xid c ≡ some callback
      → lets_through check_verify p.as_reply ≡ true
      → Releases p.as_reply.trunk c
      → (w : Client) × (process_package check_verify true from p c ≡ some w)
        × (w.called ≡ answer_to from callback p ∷ c.called)
        × Takes from p.as_reply.head.xid c w
  process_package-answers from callback p c free reply there through releases =
      elim (cancel_trunk-Releases p.as_reply.trunk c) [
        | inl (held, released) ↦
            let (w, is, told, takes) =
              answer_mission-answers from callback p c held free there released in
            (
              w,
              process_package-through from callback p c free reply there through ∙ is,
              told,
              takes,
            )
        | inr (other, gone, dangling) ↦ elim releases [
          | inl null ↦ absurd (other null)
          | inr (timer, running) ↦ absurd (cc)
        ]
      ]

  pub process_package-dangling :
      (from callback : ℕ) (p : Package) (c : Client)
      → c.spinlock ≡ false
      → (p.as_reply.head.magic == msg_replay) ≡ true
      → mission from p.as_reply.head.xid c ≡ some callback
      → lets_through check_verify p.as_reply ≡ true
      → p.as_reply.trunk ≢ 0
      → find p.as_reply.trunk c.timers ≡ none
      → process_package check_verify true from p c ≡ none
  process_package-dangling from callback p c free reply there through other gone =
      process_package-through from callback p c free reply there through
      ∙ (elim (cancel_trunk-Releases p.as_reply.trunk c) [
        | inl (held, released) ↦
            absurd (none-some (sym (sym released ∙ dangles p.as_reply.trunk c other gone)))
        | inr (differs, unknown, dangling) ↦
            answer_mission-dangling from callback p c free there dangling
      ])

  -- A package that came in well, at a client whose lock is free: if it is no reply, or answers no
  -- mission in flight of its sender, or is neither denied nor accepted with an ident that the
  -- verify knows, nothing happens. Otherwise, if its trunk is not null and no timer's handle, a
  -- timer is cancelled that is not there. Otherwise the callback of that mission is called, with
  -- the statistic of the session and with the bytes behind the reply body, while the lock is held;
  -- the mission is gone, the others are as before, and the lock is free again.
  pub process_package_lem :
      (from : ℕ) (p : Package) (c : Client)
      → c.spinlock ≡ false
      → (((p.as_reply.head.magic ≢ msg_replay)
            ⊎ (mission from p.as_reply.head.xid c ≡ none)
            ⊎ (lets_through check_verify p.as_reply ≡ false))
          × (process_package check_verify true from p c ≡ some c))
        ⊎ ((p.as_reply.trunk ≢ 0)
            × (find p.as_reply.trunk c.timers ≡ none)
            × (process_package check_verify true from p c ≡ none))
        ⊎ ((callback : ℕ) × (w : Client) × (mission from p.as_reply.head.xid c ≡ some callback)
            × (process_package check_verify true from p c ≡ some w)
            × (w.called ≡ answer_to from callback p ∷ c.called)
            × ((d x : ℕ)
                → mission d x w
                  ≡ (if same from p.as_reply.head.xid d x then none else mission d x c))
            × (w.spinlock ≡ false))
  process_package_lem from p c free = elim (Bool-cases (p.as_reply.head.magic == msg_replay)) [
    | inr other ↦ inl (
      inl (==_false p.as_reply.head.magic msg_replay other),
      process_package-known from false p c ((knows_call-free from 0 p c free).1 other),
    )
    | inl reply ↦ elim (Option-cases (mission from p.as_reply.head.xid c)) [
      | inl gone ↦ inl (
        inr (inl gone),
        process_package-known from false p c ((knows_call-free from 0 p c free).2 gone),
      )
      | inr (callback, there) ↦ elim (Bool-cases (lets_through check_verify p.as_reply)) [
        | inr refused ↦
            let known = (knows_call-free from callback p c free).0 reply there in
            inl (inr (inr refused), process_package-known from true p c known ∙ (rw refused refl))
        | inl through ↦
            let is = process_package-through from callback p c free reply there through in
            elim (cancel_trunk-Releases p.as_reply.trunk c) [
              | inr (other, unknown, dangling) ↦ inr (
                  inl (
                    other,
                    unknown,
                    is ∙ answer_mission-dangling from callback p c free there dangling,
                  ))
              | inl (held, released) ↦
                  let (w, answers, told, takes) =
                    answer_mission-answers from callback p c held free there released in
                  inr (inr (callback, w, there, is ∙ answers, told, takes.gone, takes.free))
            ]
      ]
    ]
  ]
