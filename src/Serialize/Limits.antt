-- ===== src/Serialize/Limits.antt =====
-- sul-serialize/sul-serialize/serialize.hpp: what the array of sizes does not allow.
use isu_net.Base.{
  ==_ne, >>=-eq-some, Bool-cases, List, Option-cases, [], ap, arith, find, find-put, find-put_self,
  if◌then◌else◌, inl, inr, length, ltb, mymemcpy, mymemcpy_fault, none, put, refl, some,
  some-injective, sym, ℕ, ◌+◌, ◌<◌, ◌>>=◌, ◌↔◌, ◌∙◌, ◌∷◌, ◌≡◌, ◌≤◌,
}
use isu_net.Serialize.{
  size_of_argument, MetaProcess, fresh_process, archived_size, archive_to_real, archive_to,
}

-- A serialize with some sizes in its array, at most 20: `archived_size` reaches past the array
-- exactly when the values, together with those sized before in its life, are more than 20.
pub archived_size-fault :
    (args : List (List ℕ)) (s : MetaProcess)
    → s.myindex ≤ size_of_argument
    → (archived_size args s ≡ none) ↔ (size_of_argument < s.myindex + length args)
unfolding archived_size
archived_size-fault [] s room = (λ e. absurd (cc), λ h. absurd (omega arith))
archived_size-fault (arg ∷ args) s room = elim (Bool-cases (ltb s.myindex size_of_argument)) [
  | inr full ↦ rw full (λ e. ground arith, λ h. refl)
  | inl inside ↦
      let s1 : MetaProcess = record s {
        sizes = put s.myindex (length arg) s.sizes;
        myindex = s.myindex + 1;
      } in
      let rest = archived_size-fault args s1 (ground (arith, inside)) in
      elim (Option-cases (archived_size args s1)) [
        | inl stops ↦ rw (inside, stops) (λ e. omega (arith, rest.0 stops), λ h. refl)
        | inr (r, is) ↦
            rw (inside, is) (λ e. absurd (cc), λ h. absurd (let gone = rest.1 (omega arith) in cc))
      ]
]

-- `_sizes` keeps its first element.
archived_size-first :
    (args : List (List ℕ)) (s s1 : MetaProcess) (n : ℕ)
    → 0 < s.myindex
    → archived_size args s ≡ some (n, s1)
    → (find 0 s1.sizes ≡ find 0 s.sizes) × (s1.index ≡ s.index) × (s.myindex ≤ s1.myindex)
unfolding archived_size
archived_size-first [] s s1 n h e =
    let is = ap (λ r. r.1) (some-injective e) in
    (
      ap (λ x. find 0 x.sizes) (sym is),
      ap (λ x. x.index) (sym is),
      omega (arith, ap (λ x. x.myindex) is),
    )
archived_size-first (arg ∷ args) s s1 n h e = elim (Bool-cases (ltb s.myindex size_of_argument)) [
  | inr full ↦ let none_is = rw full at e in absurd (cc)
  | inl inside ↦
      let s0 : MetaProcess = record s {
        sizes = put s.myindex (length arg) s.sizes;
        myindex = s.myindex + 1;
      } in
      let (r, is, last) = >>=-eq-some (archived_size args s0) _ (rw inside at e) in
      let end = ap (λ x. x.1) (some-injective last) in
      let (found, index, grows) = archived_size-first args s0 r.1 r.0 (omega arith) is in
      (
        ap (λ x. find 0 x.sizes) (sym end)
            ∙ found
            ∙ find-put s.myindex 0 (length arg) s.sizes
            ∙ ap (λ b. if b then some (length arg) else find 0 s.sizes)
                (==_ne s.myindex 0 (λ z. omega (arith, z))),
        ap (λ x. x.index) (sym end) ∙ index,
        omega (arith, ap (λ x. x.myindex) end, grows),
      )
]

archive_to-reads :
    (b : List ℕ) (others : List (List ℕ)) (buffer : List ℕ) (s s1 : MetaProcess) (n size : ℕ)
    → archived_size (b ∷ others) s ≡ some (n, s1)
    → s1.index ≡ 0
    → find 0 s1.sizes ≡ some size
    → mymemcpy buffer 0 b size ≡ none
    → archive_to (b ∷ others) buffer s ≡ none
unfolding archive_to archive_to_real
archive_to-reads b others buffer s s1 n size sized at first faults =
    rw sized (rw at (rw first (rw faults refl)))

-- A new serialize that has sized some values, and then archives others of which the first is
-- smaller than the first of those: whatever follows it, and whatever the buffer, it reads past that
-- value.
archive_to-stale :
    (a b : List ℕ) (args others : List (List ℕ)) (buffer : List ℕ) (n : ℕ) (s : MetaProcess)
    → archived_size (a ∷ args) fresh_process ≡ some (n, s)
    → length b < length a
    → archive_to (b ∷ others) buffer s ≡ none
unfolding archive_to archive_to_real archived_size
archive_to-stale a b args others buffer n s sized shorter =
    let s0 : MetaProcess = record { index = 0; myindex = 1; sizes = put 0 (length a) [] } in
    let (r, is, last) = >>=-eq-some (archived_size args s0) _ sized in
    let end : r.1 ≡ s = ap (λ x. x.1) (some-injective last) in
    let (found, index, grows) = archived_size-first args s0 r.1 r.0 (omega arith) is in
    let first : find 0 s.sizes ≡ some (length a) =
      ap (λ x. find 0 x.sizes) (sym end) ∙ found ∙ find-put_self 0 (length a) [] in
    let faults = (mymemcpy_fault buffer 0 b (length a)).1 (inl shorter) in
    elim (Option-cases (archived_size (b ∷ others) s)) [
      | inl stops ↦
          ap
            (λ o.
              o >>= λ q. archive_to_real (b ∷ others) 0 buffer q.1 >>= λ z. some (q.0, z.1, z.2))
            stops
      | inr (q, sized_again) ↦
          let (again, still, more) =
            archived_size-first (b ∷ others) s q.1 q.0
              (omega (arith, ap (λ x. x.myindex) end, grows)) sized_again in
          let at : q.1.index ≡ 0 = still ∙ ap (λ x. x.index) (sym end) ∙ index in
          archive_to-reads b others buffer s q.1 q.0 (length a) sized_again at (again ∙ first)
            faults
    ]
