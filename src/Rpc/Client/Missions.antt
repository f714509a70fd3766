-- ===== src/Rpc/Client/Missions.antt =====
-- imou-rpc-client/imou-rpc-client/imouto_rpc_client.hpp: `_missions`, where entries are put and
-- erased.
use isu_net.Base.{
  ==_iff, Bool-cases, List, Option-cases, ap, erase, false, find, find-erase, find-put,
  if◌then◌else◌, inl, inr, none, put, refl, some, ℕ, ◌==◌, ◌∙◌, ◌≡◌,
}
use isu_net.Rpc.{same}
use isu_net.Rpc.Client.{Client, mission, erase_mission, insert_mission, missions_of}

missions_of-put :
    (dest d : ℕ) (calls : List (ℕ × ℕ)) (m : List (ℕ × List (ℕ × ℕ)))
    → missions_of d (put dest calls m) ≡ (if dest == d then calls else missions_of d m)
unfolding missions_of
missions_of-put dest d calls m = elim (Bool-cases (dest == d)) [
  | inl at_dest ↦ rw (missions_of, find-put dest d calls m, at_dest) refl
  | inr other ↦ rw (missions_of, find-put dest d calls m, other) refl
]

pub mission-erase_mission :
    (dest xid d x : ℕ) (c : Client)
    → mission d x (erase_mission dest xid c) ≡ (if same dest xid d x then none else mission d x c)
unfolding mission erase_mission
mission-erase_mission dest xid d x c =
    let calls = erase xid (missions_of dest c.missions) in
    elim (Bool-cases (dest == d)) [
      | inr other ↦ rw (missions_of-put dest d calls c.missions, other) refl
      | inl at_dest ↦
          let is : dest ≡ d = (==_iff dest d).0 at_dest in
          rw (missions_of-put dest d calls c.missions, at_dest)
            (rw (find-erase xid x (missions_of dest c.missions)) (rw is refl))
    ]

missions_of-insert_mission :
    (dest xid callback : ℕ) (c : Client)
    → mission dest xid c ≡ none
    → insert_mission dest xid callback c
      ≡ record c { missions = put dest (put xid callback (missions_of dest c.missions)) c.missions }
unfolding insert_mission mission
missions_of-insert_mission dest xid callback c fresh = rw (insert_mission, fresh) refl

pub mission-insert_mission :
    (dest xid callback d x : ℕ) (c : Client)
    → mission dest xid c ≡ none
    → mission d x (insert_mission dest xid callback c)
      ≡ (if same dest xid d x then some callback else mission d x c)
unfolding mission
mission-insert_mission dest xid callback d x c fresh =
    let calls = put xid callback (missions_of dest c.missions) in
    rw (missions_of-insert_mission dest xid callback c fresh) (elim (Bool-cases (dest == d)) [
      | inr other ↦ rw (missions_of-put dest d calls c.missions, other) refl
      | inl at_dest ↦
          let is : dest ≡ d = (==_iff dest d).0 at_dest in
          rw (missions_of-put dest d calls c.missions, at_dest)
            (rw (find-put xid x callback (missions_of dest c.missions)) (rw is refl))
    ])

insert_mission-known :
    (dest xid callback old d x : ℕ) (c : Client)
    → mission dest xid c ≡ some old
    → mission d x (insert_mission dest xid callback c) ≡ mission d x c
unfolding mission insert_mission
insert_mission-known dest xid callback old d x c there = elim (Bool-cases (dest == d)) [
  | inr other ↦
      rw (insert_mission, there)
        (rw (missions_of-put dest d (missions_of dest c.missions) c.missions, other) refl)
  | inl at_dest ↦
      let is : dest ≡ d = (==_iff dest d).0 at_dest in
      rw (insert_mission, there)
        (rw (missions_of-put dest d (missions_of dest c.missions) c.missions, at_dest) (rw is refl))
]

pub mission-insert_mission_other :
    (dest xid callback d x : ℕ) (c : Client)
    → same dest xid d x ≡ false
    → mission d x (insert_mission dest xid callback c) ≡ mission d x c
mission-insert_mission_other dest xid callback d x c other =
    elim (Option-cases (mission dest xid c)) [
      | inl fresh ↦ mission-insert_mission dest xid callback d x c fresh ∙ (rw other refl)
      | inr (old, there) ↦ insert_mission-known dest xid callback old d x c there
    ]

-- `mission` looks at nothing but the missions.
pub mission-same :
    (d x : ℕ) (c w : Client) → w.missions ≡ c.missions → mission d x w ≡ mission d x c
unfolding mission
mission-same d x c w is = ap (λ m. find x (missions_of d m)) is
