-- ===== src/Rpc/Client/Counting.antt =====
-- imou-rpc-client/imou-rpc-client/imouto_rpc_client.hpp: how each operation keeps the account of
-- one mission.
use isu_net.Base.{
  >>=-eq-some, Bool, Bool-cases, Option-cases, [], ap, arith, erase, false, find, if◌then◌else◌,
  inl, inr, none, refl, some, some-injective, subst, true, ℕ, ◌+◌, ◌>>=◌, ◌∙◌, ◌≡◌, ◌≤◌, ◌⊎◌,
}
use isu_net.Rpc.{session_timeout}
use isu_net.Rpc.{same}
use isu_net.Rpc.Client.{
  Client, missions_of, TimerArg, mission, have, force_check_it, abort_all_mission, call_back,
  cancel_timer, erase_mission,
}
use isu_net.Rpc.Client.Process.{rpc_timeout, tell_timeout}
use isu_net.Rpc.Client.Missions.{mission-same, mission-erase_mission}
use isu_net.Rpc.Client.Replies.{answers, Takes}
use isu_net.Rpc.Client.Begins.{Begins}

-- A mission that is in flight was not answered, and any mission was answered once at most.
pub record Counted (d x : ℕ) (c : Client) : Type 0 where
  pub entry :
      ((mission d x c ≡ none) × (answers d x c.called ≤ 1))
      ⊎ ((callback : ℕ) × (mission d x c ≡ some callback) × (answers d x c.called ≡ 0))
  pub new : (x ≤ c.last_xid) ⊎ ((mission d x c ≡ none) × (answers d x c.called ≡ 0))
  pub free : c.spinlock ≡ false

-- Missions may be dropped without an answer.
drops-Counted :
    (d x : ℕ) (c w : Client)
    → Counted d x c
    → (mission d x w ≡ none) ⊎ (mission d x w ≡ mission d x c)
    → answers d x w.called ≡ answers d x c.called
    → w.last_xid ≡ c.last_xid
    → w.spinlock ≡ false
    → Counted d x w
drops-Counted d x c w v (inr kept) told last free = record {
  entry = rw (kept, told) v.entry;
  new = rw (kept, told, last) v.new;
  free = free;
}
drops-Counted d x c w v (inl gone) told last free = record {
  entry = inl (
    gone,
    rw told (elim v.entry [
      | inl (none_is, most) ↦ most
      | inr (callback, there, none_yet) ↦ omega (arith, none_yet)
    ]),
  );
  new = elim v.new [
    | inl old ↦ inl (rw last old)
    | inr (none_is, none_yet) ↦ inr (gone, told ∙ none_yet)
  ];
  free = free;
}

pub Takes-Counted :
    (d x from xid : ℕ) (c w : Client) → Counted d x c → Takes from xid c w → Counted d x w
Takes-Counted d x from xid c w v t = elim (Bool-cases (same from xid d x)) [
  | inr other ↦
      let none_more : (if same from xid d x then 1 else 0) + answers d x c.called
          ≡ answers d x c.called =
        rw other (omega arith) in
      drops-Counted d x c w v (inr (t.gone d x ∙ (rw other refl))) (t.told d x ∙ none_more)
        t.last_xid t.free
  | inl is ↦
      let at : (from ≡ d) × (xid ≡ x) = ground (arith, is) in
      let was : mission d x c ≡ some t.callback = rw (← at.0, ← at.1) t.there in
      let none_yet : answers d x c.called ≡ 0 = elim v.entry [
        | inl (none_is, most) ↦ absurd (cc)
        | inr (callback, there, none_yet) ↦ none_yet
      ] in
      let now : answers d x w.called ≡ 1 = t.told d x ∙ (rw (is, none_yet) refl) in
      record {
        entry = inl (t.gone d x ∙ (rw is refl), omega (arith, now));
        new = elim v.new [
          | inl old ↦ inl (rw t.last_xid old)
          | inr (none_is, none_at) ↦ absurd (cc)
        ];
        free = t.free;
      }
]

pub call-Counted :
    (d x dest xid : ℕ) (c w : Client) → Counted d x c → Begins dest xid c w → Counted d x w
call-Counted d x dest xid c w v b = elim (Bool-cases (same dest xid d x)) [
  | inl is ↦
      let at : (dest ≡ d) × (xid ≡ x) = ground (arith, is) in
      let (none_is, none_yet) : (mission d x c ≡ none) × (answers d x c.called ≡ 0) = elim v.new [
        | inl old ↦ absurd (omega (arith, at.1, b.next))
        | inr new ↦ new
      ] in
      let fresh : mission dest xid c ≡ none = rw (at.0, at.1) none_is in
      record {
        entry =
            inr (
              b.callback,
              b.missions fresh d x ∙ (rw is refl),
              ap (answers d x) b.called ∙ none_yet,
            );
        new = inl (omega (arith, at.1, b.last_xid));
        free = b.free;
      }
  | inr other ↦ record {
    entry = rw (b.others d x other, b.called) v.entry;
    new = elim v.new [
      | inl old ↦ inl (omega (arith, b.last_xid, b.next))
      | inr (none_is, none_yet) ↦
          inr (b.others d x other ∙ none_is, ap (answers d x) b.called ∙ none_yet)
    ];
    free = b.free;
  }
]

pub free_then :
    {b : Bool} {c w : Client} → b ≡ false → (if b then none else some c) ≡ some w → c ≡ w
free_then free is = some-injective (rw free at is)

pub force_check_it-Counted :
    (d x dest xid : ℕ) (c w : Client)
    → Counted d x c
    → force_check_it dest xid c ≡ some w
    → Counted d x w
unfolding force_check_it erase_mission
force_check_it-Counted d x dest xid c w v is = elim (Option-cases (find dest c.missions)) [
  | inl nobody ↦ subst (Counted d x) (some-injective (rw (v.free, nobody) at is)) v
  | inr (missions, there) ↦
      let now = some-injective (rw (v.free, there) at is) in
      subst (Counted d x) now (
        drops-Counted d x c (erase_mission dest xid c) v
          (elim (Bool-cases (same dest xid d x)) [
            | inl same_is ↦ inl (mission-erase_mission dest xid d x c ∙ (rw same_is refl))
            | inr other ↦ inr (mission-erase_mission dest xid d x c ∙ (rw other refl))
          ])
          refl refl v.free)
]

pub abort_all_mission-Counted :
    (d x : ℕ) (c w : Client) → Counted d x c → abort_all_mission c ≡ some w → Counted d x w
unfolding abort_all_mission mission missions_of find
abort_all_mission-Counted d x c w v is =
    subst (Counted d x) (free_then v.free is)
      (drops-Counted d x c (record c { missions = [] }) v (inl refl) refl refl v.free)

tell_timeout-Counted :
    (d x : ℕ) (known : Bool) (info : TimerArg) (c w : Client)
    → Counted d x c
    → tell_timeout known info c ≡ some w
    → Counted d x w
unfolding tell_timeout
tell_timeout-Counted d x false info c w v is = subst (Counted d x) (some-injective is) v
tell_timeout-Counted d x true info c w v is =
    let (callback, there, told) =
      >>=-eq-some (mission info.callback.0 info.callback.1 c)
        (λ k. some (call_back info.callback.0 info.callback.1 k false session_timeout [] c)) is in
    subst (Counted d x) (some-injective told) (
      drops-Counted d x c
        (call_back info.callback.0 info.callback.1 callback false session_timeout [] c) v
        (inr (
          mission-same d x c
            (call_back info.callback.0 info.callback.1 callback false session_timeout [] c) refl))
        (rw v.free (omega arith)) refl v.free)

pub rpc_timeout-Counted :
    (d x handle : ℕ) (info : TimerArg) (c w : Client)
    → Counted d x c
    → rpc_timeout handle info c ≡ some w
    → Counted d x w
unfolding rpc_timeout cancel_timer
rpc_timeout-Counted d x handle info c w v is =
    let (known, had, then_is) =
      >>=-eq-some (have info.dest info.xid c)
        (λ k. tell_timeout k info c >>= λ told. cancel_timer handle told) is in
    let (told, tells, ended) =
      >>=-eq-some (tell_timeout known info c) (λ told. cancel_timer handle told) then_is in
    let u = tell_timeout-Counted d x known info c told v tells in
    let (timer, at, now) =
      >>=-eq-some (find handle told.timers)
        (λ timer. some (record told { timers = erase {V = ℕ × TimerArg} handle told.timers }))
        ended in
    let after = record told { timers = erase {V = ℕ × TimerArg} handle told.timers } in
    subst (Counted d x) (some-injective now)
      (drops-Counted d x told after u (inr (mission-same d x told after refl)) refl refl u.free)
