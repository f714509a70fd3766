-- ===== src/Udt/Linking.antt =====
-- isu-net/src/udt.cpp: how a node is put into the lists in the loop of `send_block`.
use isu_net.Base.{
  ==_iff, ==_ne, Bool, Bool-cases, List, Option-cases, ap, arith, false, find, find-put,
  find-put_self, inl, inr, none, put, refl, some, some-injective, subst, sym, true, ℕ, ◌==◌, ◌∙◌,
  ◌≡◌, ◌⊎◌,
}
use isu_net.Udt.{GroupListNode, Udt, new_node, set_next, set_pre, connect}
use isu_net.Udt.Send.{Assembled, send_slice}
use isu_net.Udt.Nodes.{IsFlat}

abbrev pub at_nodes : List (ℕ × GroupListNode) → Udt → Udt
at_nodes nodes u = record u { nodes = nodes }

module _ (is_root : ℕ → Bool) where
  -- Nothing of it depends on more than the nodes found and the groups.
  pub IsFlat-same :
      (u w : Udt)
      → IsFlat is_root u
      → ((a : ℕ) → find a w.nodes ≡ find a u.nodes)
      → w.groups ≡ u.groups
      → IsFlat is_root w
  IsFlat-same u w v nodes groups = record {
    root_pre = λ a n e. v.root_pre a n (sym (nodes a) ∙ e);
    root_value = λ a n e. v.root_value a n (sym (nodes a) ∙ e);
    packet_next = λ a n e. v.packet_next a n (sym (nodes a) ∙ e);
    packet_pre = λ a n e k.
        let (r, pre, root, m, there) = v.packet_pre a n (sym (nodes a) ∙ e) k in
        (r, pre, root, m, nodes r ∙ there);
    group_root = λ h g e.
        let (root, m, there) = v.group_root h g (sym (ap (λ x. find h x) groups) ∙ e) in
        (root, m, nodes g.root ∙ there);
  }

  -- A node that is there stays there.
  kept :
      (a r : ℕ) (n m : GroupListNode) (nodes : List (ℕ × GroupListNode))
      → find r nodes ≡ some m
      → (x : GroupListNode) × (find r (put a n nodes) ≡ some x)
  kept a r n m nodes h = elim (Bool-cases (a == r)) [
    | inl same ↦ (n, rw (find-put a r n nodes, same) refl)
    | inr differ ↦ (m, rw (find-put a r n nodes, differ) h)
  ]

  pub put-IsFlat :
      (a : ℕ) (n : GroupListNode) (u : Udt)
      → IsFlat is_root u
      → (is_root a ≡ true → (n.pre ≡ none) × (n.value ≡ none))
      → (is_root a ≡ false
          → (n.next ≡ none)
            × (r : ℕ) × (n.pre ≡ some r)
            × (is_root r ≡ true)
            × (m : GroupListNode) × (find r u.nodes ≡ some m))
      → IsFlat is_root (at_nodes (put a n u.nodes) u)
  put-IsFlat a n u v root packet = record {
    root_pre = λ b x e k. elim (which b x e) [
      | inl is ↦ ap (λ y. y.pre) (sym is.1) ∙ (root (ap is_root is.0 ∙ k)).0
      | inr old ↦ v.root_pre b x old k
    ];
    root_value = λ b x e k. elim (which b x e) [
      | inl is ↦ ap (λ y. y.value) (sym is.1) ∙ (root (ap is_root is.0 ∙ k)).1
      | inr old ↦ v.root_value b x old k
    ];
    packet_next = λ b x e k. elim (which b x e) [
      | inl is ↦ ap (λ y. y.next) (sym is.1) ∙ (packet (ap is_root is.0 ∙ k)).0
      | inr old ↦ v.packet_next b x old k
    ];
    packet_pre = λ b x e k. elim (which b x e) [
      | inl is ↦
          let (next, r, pre, at_root, m, there) = packet (ap is_root is.0 ∙ k) in
          let (y, found) = kept a r n m u.nodes there in
          (r, ap (λ y. y.pre) (sym is.1) ∙ pre, at_root, y, found)
      | inr old ↦
          let (r, pre, at_root, m, there) = v.packet_pre b x old k in
          let (y, found) = kept a r n m u.nodes there in (r, pre, at_root, y, found)
    ];
    group_root = λ h g e.
        let (at_root, m, there) = v.group_root h g e in
        let (y, found) = kept a g.root n m u.nodes there in (at_root, y, found);
  }
    where
      which :
          (b : ℕ) (x : GroupListNode)
          → find b (put a n u.nodes) ≡ some x
          → ((a ≡ b) × (n ≡ x)) ⊎ (find b u.nodes ≡ some x)
      which b x e = elim (Bool-cases (a == b)) [
        | inl same ↦
            let is = rw (find-put a b n u.nodes, same) at e in
            inl ((==_iff a b).0 same, some-injective is)
        | inr differ ↦ inr (rw (find-put a b n u.nodes, differ) at e)
      ]

  pub find-put_ne :
      (a b : ℕ) (n : GroupListNode) (nodes : List (ℕ × GroupListNode))
      → is_root a ≡ true
      → is_root b ≡ false
      → (find a (put b n nodes) ≡ find a nodes) × (find b (put a n nodes) ≡ find b nodes)
  find-put_ne a b n nodes h k =
      let one : (b == a) ≡ false = ==_ne b a (λ e. let same = ap is_root e in absurd (cc)) in
      let two : (a == b) ≡ false = ==_ne a b (λ e. let same = ap is_root e in absurd (cc)) in
      (rw (find-put b a n nodes, one) refl, rw (find-put a b n nodes, two) refl)

  -- A packet's node is connected behind the root of its group.
  pub send_slice-IsFlat :
      (handle : ℕ) (a : Assembled) (u u1 : Udt)
      → IsFlat is_root u
      → is_root a.node ≡ false
      → send_slice handle a u ≡ some u1
      → IsFlat is_root u1
  unfolding send_slice connect set_next set_pre
  send_slice-IsFlat handle a u u1 v packet is = elim (Option-cases (find handle u.groups)) [
    | inl absent ↦ let none_is = rw absent at is in absurd (cc)
    | inr (g, there) ↦
        let (root, m, at_root) = v.group_root handle g there in
        let new = new_node (some a.mission) in
        let behind : GroupListNode = record m { next = some a.node } in
        let linked : GroupListNode = record new { pre = some g.root } in
        let first = (find-put_ne g.root a.node new u.nodes root packet).0 ∙ at_root in
        let second =
          (find-put_ne g.root a.node behind (put a.node new u.nodes) root packet).1
          ∙ find-put_self a.node new u.nodes in
        let u2 : Udt = record u { missions = put a.mission a.id u.missions } in
        let done = rw (there, first, second) at is in
        let with_root =
          put-IsFlat g.root behind u2 (IsFlat-same u u2 v (λ b. refl) refl)
            (λ k. (v.root_pre g.root m at_root root, v.root_value g.root m at_root root))
            (λ k. absurd (cc)) in
        let flat =
          put-IsFlat a.node linked (at_nodes (put g.root behind u.nodes) u2) with_root
            (λ k. absurd (cc))
            (λ k. (refl, g.root, refl, root, behind, find-put_self g.root behind u.nodes)) in
        subst (IsFlat is_root) (some-injective done)
          (IsFlat-same _ _ flat (λ b. twice a.node g.root b new linked behind u.nodes) refl)
  ]
    where
      twice :
          (x r b : ℕ) (n n1 m : GroupListNode) (nodes : List (ℕ × GroupListNode))
          → find b (put x n1 (put r m (put x n nodes))) ≡ find b (put x n1 (put r m nodes))
      twice x r b n n1 m nodes = ground (
        arith,
        find-put x b n1 (put r m (put x n nodes)),
        find-put x b n1 (put r m nodes),
        find-put r b m (put x n nodes),
        find-put r b m nodes,
        find-put x b n nodes,
      )
