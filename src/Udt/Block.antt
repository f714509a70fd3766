-- ===== src/Udt/Block.antt =====
-- isu-net/src/udt.cpp, `send_block` as a whole: when it comes to its end.
use isu_net.Base.{
  ==_false, ==_iff, Bool, Bool-cases, List, Option, Option-cases, [], ap, arith, false, find,
  find-put_self, if◌then◌else◌, inl, inr, length, none, put, refl, size_mod, some, some-injective,
  sym, true, ℕ, ◌<◌, ◌==◌, ◌>>=◌, ◌↔◌, ◌∙◌, ◌∷◌, ◌≡◌, ◌⊎◌,
}
use isu_net.Udt.{Udt, UdtGroup, new_node, minus_one, complete, erase_group}
use isu_net.Udt.Send.{Assembled, begin_send, send_slices, set_count, all_geted, send_block}
use isu_net.Udt.Rounds.{IsThere, send_slices-IsThere}

send_slices-empty :
    (handle : ℕ) (slices : List Assembled) (u w : Udt) (n : ℕ)
    → send_slices handle slices 0 u ≡ some (n, w)
    → length slices ≡ 0
    → n ≡ 0
unfolding send_slices
send_slices-empty handle [] u w n is h = ap (λ r. r.0) (sym (some-injective is))
send_slices-empty handle (a ∷ slices) u w n is h = absurd (omega arith)

-- The end of `send_block`, after the loop.
block_end : (group_id handle n : ℕ) (w : Udt) → Option Udt
unfolding set_count all_geted erase_group
block_end group_id handle n w = do
  u2 ← set_count handle n w
  ended ← all_geted handle u2
  let erased = erase_group group_id false u2
  if ended then erased else some u2

block_end-none :
    (group_id handle root n : ℕ) (w : Udt)
    → find handle w.groups
      ≡ some (record { group_id = group_id; root = root; count = minus_one; geted = 0 })
    → find group_id w.sending_groups ≡ some handle
    → (block_end group_id handle n w ≡ none) ↔ ((n ≡ 0) × (w.has_send_callback ≡ false))
unfolding block_end set_count all_geted erase_group complete
block_end-none group_id handle root n w there entry =
    let g : UdtGroup = record { group_id = group_id; root = root; count = n; geted = 0 } in
    let again = find-put_self handle g w.groups in
    elim (Bool-cases (0 == n)) [
      | inr some_sent ↦
          rw (there, again, some_sent)
            (λ e. absurd (cc), λ h. absurd (==_false 0 n some_sent (sym h.0)))
      | inl nothing ↦ elim (Bool-cases w.has_send_callback) [
        | inl told ↦
            rw (there, again, nothing)
              (rw (erase_group, entry, again) (rw told (λ e. absurd (cc), λ h. absurd (cc))))
        | inr empty ↦
            rw (there, again, nothing)
              (rw (erase_group, entry, again)
                (rw empty (λ e. (sym ((==_iff 0 n).0 nothing), refl), λ h. refl)))
      ]
    ]

-- `send_block` in one piece.
send_block-parts :
    (group_id handle root : ℕ) (slices : List Assembled) (u u1 : Udt) (n : ℕ) (w : Udt)
    → begin_send false group_id handle root u ≡ some u1
    → send_slices handle slices 0 u1 ≡ some (n, w)
    → send_block false group_id handle root slices u ≡ block_end group_id handle n w
unfolding send_block block_end
send_block-parts group_id handle root slices u u1 n w begins loop = rw begins (rw loop refl)

-- With fewer than 2^32 slices, `send_block` fails, by writing through a null handle or by an
-- exception, exactly when the destination is a multicast address, or the group id is being sent, or
-- there is no slice and no send callback.
pub send_block_fault :
    (is_multicast : Bool) (group_id handle root : ℕ) (slices : List Assembled) (u : Udt)
    → length slices < size_mod
    → (send_block is_multicast group_id handle root slices u ≡ none) ↔ (
        (is_multicast ≡ true)
        ⊎ (((h : ℕ) × (find group_id u.sending_groups ≡ some h))
            ⊎ ((length slices ≡ 0) × (u.has_send_callback ≡ false))))
unfolding send_block begin_send
send_block_fault true group_id handle root slices u small = (λ e. inl refl, λ h. refl)
send_block_fault false group_id handle root slices u small =
    elim (Option-cases (find group_id u.sending_groups)) [
      | inr (h, busy) ↦ (λ e. inr (inl (h, busy)), λ e. rw busy refl)
      | inl absent ↦
          let g : UdtGroup = record {
            group_id = group_id;
            root = root;
            count = minus_one;
            geted = 0;
          } in
          let u1 : Udt = record u {
            sending_groups = put group_id handle u.sending_groups;
            groups = put handle g u.groups;
            nodes = put root (new_node none) u.nodes;
          } in
          let begins : begin_send false group_id handle root u ≡ some u1 = rw absent refl in
          let ready : IsThere handle g u1 = record {
            group = find-put_self handle g u.groups;
            root = (new_node none, find-put_self root (new_node none) u.nodes);
          } in
          let (n, w, loop, same, low, more) =
            send_slices-IsThere handle g slices 0 u1 ready (omega arith) in
          let whole = send_block-parts group_id handle root slices u u1 n w begins loop in
          let ends =
            block_end-none group_id handle root n w (ap (find handle) same.groups ∙ ready.group)
              (ap (find group_id) same.entries ∙ find-put_self group_id handle u.sending_groups) in
          (
            λ e.
                let (zero_sent, silent) = ends.0 (sym whole ∙ e) in
                inr (inr (empty_of slices n more zero_sent, sym same.callback ∙ silent)),
            λ e. elim e [
              | inl never ↦ absurd (cc)
              | inr other ↦ elim other [
                | inl (h, busy) ↦ absurd (let x = sym absent ∙ busy in cc)
                | inr (empty, silent) ↦
                    whole
                    ∙ ends.1
                        (send_slices-empty handle slices u1 w n loop empty, same.callback ∙ silent)
              ]
            ],
          )
    ]
  where
    empty_of : (l : List Assembled) (n : ℕ) → (0 < length l → 0 < n) → n ≡ 0 → length l ≡ 0
    empty_of [] n more none_sent = refl
    empty_of (a ∷ l) n more none_sent = absurd (omega (arith, more (omega arith), none_sent))
