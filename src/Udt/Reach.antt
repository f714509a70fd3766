-- ===== src/Udt/Reach.antt =====
-- isu-net/src/udt.cpp: what a `udt` comes to through its operations, and what `cancel_io` does
-- there.
use isu_net.Base.{
  >>=-eq-some, Bool, Bool-cases, List, Option, [], false, find, inl, inr, none, refl, some,
  some-injective, subst, suc, true, ℕ, ◌≡◌,
}
use isu_net.Udt.{
  GroupListNode, UdtGroup, GroupIdent, Udt, cancel_group, cancel_slice, udt_bad_send, bad_handle,
  cancel_io, erase_group,
}
use isu_net.Udt.Send.{Assembled, send_slice, begin_send, set_count}
use isu_net.Udt.Receive.{udt_insert, combin_of}
use isu_net.Slice.{insert, accepted_all}
use isu_net.Udt.Nodes.{IsFlat}
use isu_net.Udt.Linking.{send_slice-IsFlat}
use isu_net.Udt.Flatness.{
  cancel_slice-IsFlat, cancel_group-IsFlat, set_count-IsFlat, begin_send-IsFlat, erase_group-IsFlat,
  groups-IsFlat,
}

-- The operations of a `udt`, as their callers interleave them; the roots of groups and the nodes in
-- packets lie at different addresses.
pub data Step (is_root : ℕ → Bool) (u : Udt) : Udt → Type 0 where
  begins :
      (is_multicast : Bool) (group_id handle root : ℕ) (w : Udt)
      → is_root root ≡ true
      → begin_send is_multicast group_id handle root u ≡ some w
      → Step is_root u w
  sends :
      (handle : ℕ) (a : Assembled) (w : Udt)
      → is_root a.node ≡ false
      → send_slice handle a u ≡ some w
      → Step is_root u w
  counts : (handle count : ℕ) (w : Udt) → set_count handle count u ≡ some w → Step is_root u w
  ends :
      (node : ℕ) (w : Udt) → is_root node ≡ false → cancel_slice node u ≡ some w → Step is_root u w
  erases :
      (group_id : ℕ) (tick : Bool) (w : Udt)
      → erase_group group_id tick u ≡ some w
      → Step is_root u w
  gives_up :
      (fuel group_id node : ℕ) (w : Udt)
      → is_root node ≡ false
      → udt_bad_send (suc fuel) group_id node u ≡ some w
      → Step is_root u w
  receives :
      (new_block : ℕ → List ℕ) (ident : GroupIdent) (content : List ℕ) (r : Option (List ℕ) × Udt)
      → udt_insert new_block ident content u ≡ some r
      → Step is_root u r.1

pub data Reach (is_root : ℕ → Bool) (u : Udt) : Udt → Type 0 where
  stays : Reach is_root u u
  steps : (v w : Udt) → Reach is_root u v → Step is_root v w → Reach is_root u w

udt_bad_send-IsFlat :
    (is_root : ℕ → Bool) (fuel group_id node : ℕ) (u u1 : Udt)
    → IsFlat is_root u
    → is_root node ≡ false
    → udt_bad_send (suc fuel) group_id node u ≡ some u1
    → IsFlat is_root u1
unfolding udt_bad_send
udt_bad_send-IsFlat is_root fuel group_id node u u1 v packet is =
    let (w, cancels, told) = >>=-eq-some (cancel_group (suc fuel) node u) _ is in
    let flat = cancel_group-IsFlat is_root fuel node u w v packet cancels in
    elim (Bool-cases w.has_bad_send) [
      | inl called ↦
          subst (IsFlat is_root) (some-injective (rw called at told))
            (groups-IsFlat is_root w _ flat refl (λ h g e. (h, g, e, refl)))
      | inr silent ↦
          subst (IsFlat is_root) (some-injective (rw silent at told))
            (groups-IsFlat is_root w _ flat refl (λ h g e. (h, g, e, refl)))
    ]

udt_insert-IsFlat :
    (is_root : ℕ → Bool) (new_block : ℕ → List ℕ) (ident : GroupIdent) (content : List ℕ) (u : Udt)
    (r : Option (List ℕ) × Udt)
    → IsFlat is_root u
    → udt_insert new_block ident content u ≡ some r
    → IsFlat is_root r.1
unfolding udt_insert
udt_insert-IsFlat is_root new_block ident content u r v is =
    let (c, one, two) =
      >>=-eq-some
        (insert ident.slice_start content
          (combin_of new_block ident (find ident.group_id u.recv_groups)))
        _ is in
    elim (Bool-cases (accepted_all c)) [
      | inl every ↦
          subst {A = Option (List ℕ) × Udt} (λ x. IsFlat is_root x.1)
            (some-injective (rw every at two))
            (groups-IsFlat is_root u _ v refl (λ h g e. (h, g, e, refl)))
      | inr part ↦
          subst {A = Option (List ℕ) × Udt} (λ x. IsFlat is_root x.1)
            (some-injective (rw part at two))
            (groups-IsFlat is_root u _ v refl (λ h g e. (h, g, e, refl)))
    ]

Step-IsFlat :
    (is_root : ℕ → Bool) (u w : Udt) → IsFlat is_root u → Step is_root u w → IsFlat is_root w
Step-IsFlat is_root u _ v (begins is_multicast group_id handle root w root_at is) =
    begin_send-IsFlat is_root is_multicast group_id handle root u w v root_at is
Step-IsFlat is_root u _ v (sends handle a w packet is) =
    send_slice-IsFlat is_root handle a u w v packet is
Step-IsFlat is_root u _ v (counts handle count w is) =
    set_count-IsFlat is_root handle count u w v is
Step-IsFlat is_root u _ v (ends node w packet is) = cancel_slice-IsFlat is_root node u w v packet is
Step-IsFlat is_root u _ v (erases group_id tick w is) =
    erase_group-IsFlat is_root group_id tick u w v is
Step-IsFlat is_root u _ v (gives_up fuel group_id node w packet is) =
    udt_bad_send-IsFlat is_root fuel group_id node u w v packet is
Step-IsFlat is_root u _ v (receives new_block ident content r is) =
    udt_insert-IsFlat is_root new_block ident content u r v is

-- From a `udt` without nodes and groups, whatever sends, ends, failures and receptions follow: the
-- node of a packet never has a next, its previous is a root, and a root has neither a previous nor
-- a value.
pub Reach-IsFlat :
    (is_root : ℕ → Bool) (u w : Udt)
    → u.nodes ≡ []
    → u.groups ≡ []
    → Reach is_root u w
    → IsFlat is_root w
unfolding find
Reach-IsFlat is_root u _ nodes groups stays = record {
  root_pre = λ a n e. let none_is = rw nodes at e in absurd (cc);
  root_value = λ a n e. let none_is = rw nodes at e in absurd (cc);
  packet_next = λ a n e. let none_is = rw nodes at e in absurd (cc);
  packet_pre = λ a n e. let none_is = rw nodes at e in absurd (cc);
  group_root = λ h g e. let none_is = rw groups at e in absurd (cc);
}
Reach-IsFlat is_root u _ nodes groups (steps v w reach step) =
    Step-IsFlat is_root v w (Reach-IsFlat is_root u v nodes groups reach) step

cancel_io-bad :
    (retry_limit : ℕ → ℕ) (fuel handle : ℕ) (active_io_failed : Bool) (group : UdtGroup)
    (root : GroupListNode) (w : Udt)
    → find handle w.groups ≡ some group
    → find group.root w.nodes ≡ some root
    → root.value ≡ none
    → cancel_io retry_limit fuel handle active_io_failed w ≡ some w
unfolding cancel_io bad_handle
cancel_io-bad retry_limit fuel handle active_io_failed group root w there at_root nothing =
    rw there (rw at_root (rw nothing refl))

-- In the state that such a run comes to, `cancel_io` of a group that is there changes nothing.
pub cancel_io-Reach :
    (is_root : ℕ → Bool) (retry_limit : ℕ → ℕ) (fuel handle : ℕ) (active_io_failed : Bool)
    (group : UdtGroup) (u w : Udt)
    → u.nodes ≡ []
    → u.groups ≡ []
    → Reach is_root u w
    → find handle w.groups ≡ some group
    → cancel_io retry_limit fuel handle active_io_failed w ≡ some w
cancel_io-Reach is_root retry_limit fuel handle active_io_failed group u w nodes groups reach
      there =
    let v = Reach-IsFlat is_root u w nodes groups reach in
    let (root, m, at_root) = v.group_root handle group there in
    cancel_io-bad retry_limit fuel handle active_io_failed group m w there at_root
      (v.root_value group.root m at_root root)
