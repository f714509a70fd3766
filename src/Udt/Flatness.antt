-- ===== src/Udt/Flatness.antt =====
-- isu-net/src/udt.cpp: the lists between the nodes through the operations of a `udt`.
use isu_net.Base.{
  Bool, Bool-cases, Option-cases, add_size, ap, false, find, find-put, find-put_self, if◌then◌else◌,
  inl, inr, none, not, put, refl, some, some-injective, subst, suc, sym, true, ℕ, ◌==◌, ◌||◌, ◌∙◌,
  ◌≡◌,
}
use isu_net.Udt.{
  GroupListNode, UdtGroup, Udt, new_node, set_next, detach, delete_mission, cancel_node,
  cancel_group, cancel_slice, minus_one, complete, erase_group,
}
use isu_net.Udt.Send.{begin_send, set_count}
use isu_net.Udt.Nodes.{IsFlat, cancel_group_lem, cancel_group-none}
use isu_net.Udt.Linking.{at_nodes, IsFlat-same, put-IsFlat, find-put_ne}

module _ (is_root : ℕ → Bool) where
  pub cancel_slice-IsFlat :
      (address : ℕ) (u u1 : Udt)
      → IsFlat is_root u
      → is_root address ≡ false
      → cancel_slice address u ≡ some u1
      → IsFlat is_root u1
  unfolding cancel_slice detach set_next delete_mission
  cancel_slice-IsFlat address u u1 v packet is = elim (Option-cases (find address u.nodes)) [
    | inl absent ↦ let none_is = rw absent at is in absurd (cc)
    | inr (node, there) ↦
        let (r, pre, root, m, at_root) = v.packet_pre address node there packet in
        let next = v.packet_next address node there packet in
        let alone : GroupListNode = record m { next = node.next } in
        let still = (find-put_ne is_root r address alone u.nodes root packet).1 ∙ there in
        let flat =
          put-IsFlat is_root r alone u v
            (λ k. (v.root_pre r m at_root root, v.root_value r m at_root root))
            (λ k. absurd (cc)) in
        elim (Option-cases node.value) [
          | inl nothing ↦
              let done = rw (there, pre, at_root, next, still, nothing) at is in
              subst (IsFlat is_root) (some-injective done)
                (IsFlat-same is_root _ _ flat (λ b. refl) refl)
          | inr (mission, value) ↦ elim (Option-cases (find mission u.missions)) [
            | inl gone ↦
                let none_is = rw (there, pre, at_root, next, still, value, gone) at is in
                absurd (cc)
            | inr (id, found) ↦
                let done = rw (there, pre, at_root, next, still, value, found) at is in
                subst (IsFlat is_root) (some-injective done)
                  (IsFlat-same is_root _ _ flat (λ b. refl) refl)
          ]
        ]
  ]

  pub cancel_group-IsFlat :
      (fuel address : ℕ) (u u1 : Udt)
      → IsFlat is_root u
      → is_root address ≡ false
      → cancel_group (suc fuel) address u ≡ some u1
      → IsFlat is_root u1
  unfolding cancel_group cancel_node delete_mission
  cancel_group-IsFlat fuel address u u1 v packet is = elim (Option-cases (find address u.nodes)) [
    | inl absent ↦ let none_is = rw absent at is in absurd (cc)
    | inr (node, there) ↦ elim (Option-cases node.value) [
      | inl nothing ↦
          let same = cancel_group-none is_root fuel address node u v packet there nothing in
          subst (IsFlat is_root) (some-injective (sym same ∙ is)) v
      | inr (mission, value) ↦ elim (Option-cases (find mission u.missions)) [
        | inl gone ↦ let none_is = rw (there, value, gone) at is in absurd (cc)
        | inr (id, found) ↦
            let done =
              cancel_group_lem is_root fuel address mission id node u v packet there value found in
            subst (IsFlat is_root) (some-injective (sym done ∙ is))
              (IsFlat-same is_root u _ v (λ b. refl) refl)
      ]
    ]
  ]

  -- Groups that keep their roots.
  pub groups-IsFlat :
      (u w : Udt)
      → IsFlat is_root u
      → w.nodes ≡ u.nodes
      → ((h : ℕ) (g : UdtGroup)
          → find h w.groups ≡ some g
          → (h0 : ℕ) × (g0 : UdtGroup) × (find h0 u.groups ≡ some g0) × (g0.root ≡ g.root))
      → IsFlat is_root w
  groups-IsFlat u w v nodes groups =
      let same = IsFlat-same is_root u (at_nodes w.nodes u) v (λ b. ap (find b) nodes) refl in
      record {
        root_pre = same.root_pre;
        root_value = same.root_value;
        packet_next = same.packet_next;
        packet_pre = same.packet_pre;
        group_root = λ h g e.
            let (h0, g0, there, root) = groups h g e in
            subst (λ r. (is_root r ≡ true) × (m : GroupListNode) × (find r w.nodes ≡ some m)) root
              (same.group_root h0 g0 there);
      }

  put-same_root :
      (handle : ℕ) (old new : UdtGroup) (u : Udt)
      → find handle u.groups ≡ some old
      → old.root ≡ new.root
      → (h : ℕ) (g : UdtGroup) → find h (put handle new u.groups) ≡ some g
      → (h0 : ℕ) × (g0 : UdtGroup) × (find h0 u.groups ≡ some g0) × (g0.root ≡ g.root)
  put-same_root handle old new u there root h g e = elim (Bool-cases (handle == h)) [
    | inl same ↦
        let is = rw (find-put handle h new u.groups, same) at e in
        (handle, old, there, root ∙ ap (λ x. x.root) (some-injective is))
    | inr differ ↦ (h, g, rw (find-put handle h new u.groups, differ) at e, refl)
  ]

  pub set_count-IsFlat :
      (handle count : ℕ) (u u1 : Udt)
      → IsFlat is_root u
      → set_count handle count u ≡ some u1
      → IsFlat is_root u1
  unfolding set_count
  set_count-IsFlat handle count u u1 v is = elim (Option-cases (find handle u.groups)) [
    | inl absent ↦ let none_is = rw absent at is in absurd (cc)
    | inr (g, there) ↦
        subst (IsFlat is_root) (some-injective (rw there at is))
          (groups-IsFlat u _ v refl (put-same_root handle g _ u there refl))
  ]

  pub begin_send-IsFlat :
      (is_multicast : Bool) (group_id handle root : ℕ) (u u1 : Udt)
      → IsFlat is_root u
      → is_root root ≡ true
      → begin_send is_multicast group_id handle root u ≡ some u1
      → IsFlat is_root u1
  unfolding begin_send
  begin_send-IsFlat true group_id handle root u u1 v at_root is = absurd (cc)
  begin_send-IsFlat false group_id handle root u u1 v at_root is =
      elim (Option-cases (find group_id u.sending_groups)) [
        | inr (other, there) ↦ let none_is = rw there at is in absurd (cc)
        | inl absent ↦
            let flat =
              put-IsFlat is_root root (new_node none) u v (λ k. (refl, refl)) (λ k. absurd (cc)) in
            let g : UdtGroup = record {
              group_id = group_id;
              root = root;
              count = minus_one;
              geted = 0;
            } in
            subst (IsFlat is_root) (some-injective (rw absent at is)) (record {
              root_pre = flat.root_pre;
              root_value = flat.root_value;
              packet_next = flat.packet_next;
              packet_pre = flat.packet_pre;
              group_root = λ h x e. elim (Bool-cases (handle == h)) [
                | inl same ↦
                    let mine = some-injective (rw (find-put handle h g u.groups, same) at e) in
                    subst
                      (λ y.
                        (is_root y.root ≡ true)
                        × (m : GroupListNode) × (find y.root (put root (new_node none) u.nodes)
                            ≡ some m))
                      mine (at_root, new_node none, find-put_self root (new_node none) u.nodes)
                | inr differ ↦ flat.group_root h x (rw (find-put handle h g u.groups, differ) at e)
              ];
            })
      ]

  pub erase_group-IsFlat :
      (group_id : ℕ) (tick : Bool) (u u1 : Udt)
      → IsFlat is_root u
      → erase_group group_id tick u ≡ some u1
      → IsFlat is_root u1
  unfolding erase_group complete
  erase_group-IsFlat group_id tick u u1 v is =
      elim (Option-cases (find group_id u.sending_groups)) [
        | inl absent ↦ subst (IsFlat is_root) (some-injective (rw (erase_group, absent) at is)) v
        | inr (handle, there) ↦ elim (Option-cases (find handle u.groups)) [
          | inl gone ↦ let none_is = rw (erase_group, there, gone) at is in absurd (cc)
          | inr (g, found) ↦
              let geted = if tick then add_size g.geted 1 else g.geted in
              let roots = put-same_root handle g (record g { geted = geted }) u found refl in
              elim (Bool-cases (not tick || geted == g.count)) [
                | inr more ↦
                    subst (IsFlat is_root)
                      (some-injective (rw (erase_group, there, found, more) at is))
                      (groups-IsFlat u _ v refl roots)
                | inl ended ↦ elim (Bool-cases u.has_send_callback) [
                  | inl told ↦
                      subst (IsFlat is_root)
                        (some-injective (rw (erase_group, there, found, ended, told) at is))
                        (groups-IsFlat u _ v refl roots)
                  | inr empty ↦
                      let none_is = rw (erase_group, there, found, ended, empty) at is in
                      absurd (cc)
                ]
              ]
        ]
      ]
