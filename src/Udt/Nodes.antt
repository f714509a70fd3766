-- ===== src/Udt/Nodes.antt =====
-- isu-net/isu-net/udt.hpp, `group_list_node`: the shape of the lists between the packets of a
-- group.
use isu_net.Base.{
  Bool, [], erase, false, find, none, refl, some, suc, true, zero, ℕ, ◌++◌, ◌∷◌, ◌≡◌,
}
use isu_net.Udt.{
  GroupListNode, UdtGroup, Udt, delete_mission, cancel_node, forward_fetch, back_fetch,
  cancel_group,
}

-- Which addresses are those of groups' roots; packets lie elsewhere.
module _ (is_root : ℕ → Bool) where
  -- A packet's node has no next, and its previous is a root; a root has neither a previous nor a
  -- value.
  pub record IsFlat (u : Udt) : Type 0 where
    pub root_pre :
        (a : ℕ) (n : GroupListNode) → find a u.nodes ≡ some n → is_root a ≡ true → n.pre ≡ none
    pub root_value :
        (a : ℕ) (n : GroupListNode) → find a u.nodes ≡ some n → is_root a ≡ true → n.value ≡ none
    pub packet_next :
        (a : ℕ) (n : GroupListNode) → find a u.nodes ≡ some n → is_root a ≡ false → n.next ≡ none
    pub packet_pre :
        (a : ℕ) (n : GroupListNode)
        → find a u.nodes ≡ some n
        → is_root a ≡ false
        → (r : ℕ) × (n.pre ≡ some r)
          × (is_root r ≡ true)
          × (m : GroupListNode) × (find r u.nodes ≡ some m)
    pub group_root :
        (h : ℕ) (g : UdtGroup)
        → find h u.groups ≡ some g
        → (is_root g.root ≡ true) × (m : GroupListNode) × (find g.root u.nodes ≡ some m)

forward_fetch-none : (fuel : ℕ) (u : Udt) → forward_fetch fuel none u ≡ some u
unfolding forward_fetch
forward_fetch-none zero u = refl
forward_fetch-none (suc fuel) u = refl

back_fetch-none : (fuel : ℕ) (u : Udt) → back_fetch fuel none u ≡ some u
unfolding back_fetch
back_fetch-none zero u = refl
back_fetch-none (suc fuel) u = refl

-- Cancelling from a packet's node: nothing but the packet itself.
pub cancel_group_lem :
    (is_root : ℕ → Bool) (fuel address mission id : ℕ) (node : GroupListNode) (u : Udt)
    → IsFlat is_root u
    → is_root address ≡ false
    → find address u.nodes ≡ some node
    → node.value ≡ some mission
    → find mission u.missions ≡ some id
    → cancel_group (suc fuel) address u
      ≡ some (record u { cancelled = u.cancelled ++ id ∷ []; missions = erase mission u.missions })
unfolding cancel_group cancel_node forward_fetch back_fetch delete_mission
cancel_group_lem is_root fuel address mission id node u v packet is value there =
    let (r, pre, root, m, at_root) = v.packet_pre address node is packet in
    let next = v.packet_next address node is packet in
    let root_value = v.root_value r m at_root root in
    let root_pre = v.root_pre r m at_root root in
    rw is (
      rw value (
        rw there (
          rw is (
            rw pre (
              rw at_root (
                rw root_value (
                  rw at_root
                    (rw root_pre (rw (forward_fetch-none fuel) (rw is (rw next refl)))))))))))

-- A packet without a value: nothing is cancelled.
pub cancel_group-none :
    (is_root : ℕ → Bool) (fuel address : ℕ) (node : GroupListNode) (u : Udt)
    → IsFlat is_root u
    → is_root address ≡ false
    → find address u.nodes ≡ some node
    → node.value ≡ none
    → cancel_group (suc fuel) address u ≡ some u
unfolding cancel_group cancel_node forward_fetch back_fetch
cancel_group-none is_root fuel address node u v packet is value =
    let (r, pre, root, m, at_root) = v.packet_pre address node is packet in
    let next = v.packet_next address node is packet in
    let root_value = v.root_value r m at_root root in
    let root_pre = v.root_pre r m at_root root in
    rw is (
      rw value (
        rw is (
          rw pre (
            rw at_root (
              rw root_value (
                rw at_root (rw root_pre (rw (forward_fetch-none fuel) (rw is (rw next refl))))))))))
