-- ===== src/Checks/Slicing.antt =====
-- Messages of a few bytes, cut and put together by ex-utility/src/slice.cpp.
use isu_net.Base.{
  All, Bool-cases, List, [], arith, if◌then◌else◌, inl, inr, ltb, ltb→lt, refl, replicate, size_mod,
  some, ℕ, ◌%◌, ◌*◌, ◌+◌, ◌-◌, ◌<◌, ◌==◌, ◌>>=◌, ◌∷◌, ◌≡◌, ◌≤◌,
}
use isu_net.Slice.{
  Slicer, make_slicer, generic_all, compute_seralize_size, sizeof_slice_head, Combination, combine,
  insert_all,
}
use isu_net.Slice.Sizes.{compute_seralize_size_lem}
use isu_net.Slice.Pieces.{contents, Chain, IsPacket, generic_all_lem}
use isu_net.Slice.Together.{Covers, here, there, insert_all_lem}

abbrev five : List ℕ
five = 1 ∷ 2 ∷ 3 ∷ 4 ∷ 5 ∷ []

-- A head of 13 bytes: where the slice starts, and zeros.
abbrev start_head : ℕ → ℕ → List ℕ
start_head id start = start ∷ replicate 12 0

generic_all_lem_example :
    (s : Slicer) × ((make_slicer five 16 1 >>= generic_all start_head 6) ≡ some s)
    × (contents five s.slices ≡ five)
    × Chain 0 s.slices 5
    × All (IsPacket start_head 16) s.slices
generic_all_lem_example =
    generic_all_lem start_head five 16 1 (λ start. omega arith) (omega arith) (omega arith)
      (omega arith)

compute_seralize_size_lem_example :
    (count : ℕ) × (compute_seralize_size 100 30 4
      ≡ some ((100 + (4 + sizeof_slice_head) * count) % size_mod))
    × (100 ≤ count * (30 - (4 + sizeof_slice_head)))
    × (count * (30 - (4 + sizeof_slice_head)) < 100 + (30 - (4 + sizeof_slice_head)))
compute_seralize_size_lem_example = compute_seralize_size_lem 100 30 4 (omega arith) (omega arith)

-- The second slice first, then the first one twice.
abbrev sizes : ℕ → ℕ
sizes start = if start == 0 then 3 else 2

abbrev arrivals : List (ℕ × List ℕ)
arrivals = (3, 4 ∷ 5 ∷ []) ∷ (0, 1 ∷ 2 ∷ 3 ∷ []) ∷ (0, 1 ∷ 2 ∷ 3 ∷ []) ∷ []

arrivals_cover : (i : ℕ) → i < 5 → Covers i arrivals
arrivals_cover i h = elim (Bool-cases (ltb i 3)) [
  | inl first ↦
      there (3, 4 ∷ 5 ∷ []) _
        (here 0 (1 ∷ 2 ∷ 3 ∷ []) _ (omega arith) (ground (arith, ltb→lt i 3 first)))
  | inr second ↦ here 3 (4 ∷ 5 ∷ []) _ (ground arith) (omega arith)
]

insert_all_lem_example :
    (c : Combination) × (insert_all arrivals (combine (0 ∷ 0 ∷ 0 ∷ 0 ∷ 0 ∷ [])) ≡ some c)
    × (c.memory ≡ five)
insert_all_lem_example =
    insert_all_lem five (0 ∷ 0 ∷ 0 ∷ 0 ∷ 0 ∷ []) sizes arrivals refl
      (
        record { content = refl; sized = refl; inside = omega arith },
        (
          record { content = refl; sized = refl; inside = omega arith },
          (record { content = refl; sized = refl; inside = omega arith }, tt),
        ),
      )
      arrivals_cover
