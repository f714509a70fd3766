-- ===== src/Archive/Again.antt =====
-- sul-serialize/src/archive_packages.cpp: from `archive_packages` through `packages_analysis`.
use isu_net.Base.{
  ==_iff, ==_ne, ==_refl, All, List, Option, [], ap, append-nil, append_assoc, arith, drop,
  le_value, le_value-le_bytes, length, length-append, map, refl, size_mod, some, subst, suc, sym,
  take, zero, ℕ, ◌*◌, ◌++◌, ◌+◌, ◌<◌, ◌>>=◌, ◌∙◌, ◌∷◌, ◌≡◌, ◌≢◌,
}
use isu_net.Slice.{Block, bytes_of}
use isu_net.Archive.{
  minus_one, dynamic, DynamicMemory, ArchivePackages, memory_of, init, make_memory, make_packages,
  archive_in_here, PackagesAnalysis, make_analysis, generic, generic_all,
}
use isu_net.Archive.Growth.{push_lem, extern_lem}
use isu_net.Archive.Packing.{packed, all_packed, slots, Holds, archive_in_here_lem, length-packed}
use isu_net.Archive.Unpacking.{IsSized, map_append, generic-packed}

-- Packages put in one after the other.
unfoldable pub archive_all : (ℕ → List ℕ) → List (List ℕ) → ArchivePackages → Option ArchivePackages
archive_all new_block [] p = some p
archive_all new_block (content ∷ packages) p =
    archive_in_here new_block content p >>= λ r. archive_all new_block packages r.1

generic-end : (a : PackagesAnalysis) → a.start ≡ length a.memory → generic a ≡ some a
unfolding generic
generic-end a h = rw ((==_iff a.start (length a.memory)).1 h) refl

generic_all-stop :
    (fuel : ℕ) (a : PackagesAnalysis) → generic a ≡ some a → generic_all (suc fuel) a ≡ some a
unfolding generic_all
generic_all-stop fuel a h = rw h (rw (==_refl (length a.blocks)) refl)

generic_all-more :
    (fuel : ℕ) (b : Block) (a a1 : PackagesAnalysis)
    → generic a ≡ some a1
    → a1.blocks ≡ a.blocks ++ b ∷ []
    → generic_all (suc fuel) a ≡ generic_all fuel a1
unfolding generic_all
generic_all-more fuel b a a1 h e =
    let longer : length a1.blocks ≡ length a.blocks + 1 =
      ap length e ∙ length-append a.blocks (b ∷ []) in
    rw h (rw (==_ne (length a.blocks) (length a1.blocks) (λ s. omega (arith, s, longer))) refl)

-- The loop finds what is still in front of it.
generic_all-packed :
    (type size : ℕ) (packages : List (List ℕ)) (before : List ℕ) (fuel : ℕ) (a : PackagesAnalysis)
    → a.memory ≡ before ++ all_packed type packages
    → a.start ≡ length before
    → a.type ≡ type
    → a.avg_size ≡ size
    → length a.memory < size_mod
    → All (IsSized type size) packages
    → length packages < fuel
    → (a1 : PackagesAnalysis) × (generic_all fuel a ≡ some a1)
      × (map (bytes_of a.memory) a1.blocks ≡ map (bytes_of a.memory) a.blocks ++ packages)
      × (a1.count ≡ a.count)
generic_all-packed type size [] before zero a memory at typed avg small sized less =
    absurd (omega arith)
generic_all-packed type size (content ∷ packages) before zero a memory at typed avg small sized
      less =
    absurd (omega arith)
generic_all-packed type size [] before (suc fuel) a memory at typed avg small sized less = (
  a,
  generic_all-stop fuel a
      (generic-end a (at ∙ ap length (sym (append-nil before)) ∙ ap length (sym memory))),
  sym (append-nil (map (bytes_of a.memory) a.blocks)),
  refl,
)
generic_all-packed type size (content ∷ packages) before (suc fuel) a memory at typed avg small
      sized less =
    let (b, a1, is, blocks, found, same, start, type_same, avg_same, counted) =
      generic-packed type size before content (all_packed type packages) a memory at typed avg small
        sized.0 in
    let behind : a1.memory ≡ (before ++ packed type content) ++ all_packed type packages =
      same ∙ memory ∙ sym (append_assoc before (packed type content) (all_packed type packages)) in
    let (a2, rest, all, count) =
      generic_all-packed type size packages (before ++ packed type content) fuel a1 behind start
        (type_same ∙ typed) (avg_same ∙ avg) (rw same small) sized.1 (omega arith) in
    (
      a2,
      generic_all-more fuel b a a1 is blocks ∙ rest,
      subst (λ l. map (bytes_of l) a2.blocks ≡ map (bytes_of l) a1.blocks ++ packages) same all
          ∙ ap (λ l. map (bytes_of a.memory) l ++ packages) blocks
          ∙ ap (λ l. l ++ packages) (map_append (bytes_of a.memory) a.blocks b)
          ∙ append_assoc (map (bytes_of a.memory) a.blocks) (bytes_of a.memory b ∷ []) packages
          ∙ ap (λ c. map (bytes_of a.memory) a.blocks ++ c ∷ packages) found,
      count ∙ counted,
    )

module _ (new_block : ℕ → List ℕ) (type size : ℕ) where
  make_packages-Holds :
      (reserve : ℕ)
      → ((n : ℕ) → length (new_block n) ≡ n)
      → type ≢ dynamic
      → reserve * 2 + 12 < size_mod
      → (p : ArchivePackages) × (make_packages new_block size type reserve ≡ some p)
        × Holds type size [] p
  unfolding make_packages make_memory init
  make_packages-Holds reserve fresh other small =
      let nothing : DynamicMemory = record { size = 0; memory = [] } in
      let (m, made, empty, room, kept) =
        extern_lem new_block 0 reserve nothing fresh (omega arith) (omega arith) (omega arith) in
      let (m1, pushed, grown, used, filled) =
        push_lem new_block (slots 0 type size) m fresh (omega (arith, empty))
          (omega (arith, room)) in
      (
        record { kind = minus_one; block = m1 },
        rw made (rw (==_ne type dynamic other, pushed) refl),
        record {
          kind = refl;
          used = used;
          filled = filled ∙ ap (λ n. take n m.memory ++ slots 0 type size) empty;
          sized = omega (arith, grown, empty);
        },
      )

  archive_all-Holds :
      (packages done : List (List ℕ)) (p : ArchivePackages)
      → ((n : ℕ) → length (new_block n) ≡ n)
      → type < size_mod
      → (12 + length (all_packed type (done ++ packages))) * 2 + 4 < size_mod
      → length done + length packages + 1 < size_mod
      → Holds type size done p
      → (p1 : ArchivePackages) × (archive_all new_block packages p ≡ some p1)
        × Holds type size (done ++ packages) p1
  unfolding archive_all
  archive_all-Holds [] done p fresh typed small counts v =
      (p, refl, subst (λ l. Holds type size l p) (sym (append-nil done)) v)
  archive_all-Holds (content ∷ packages) done p fresh typed small counts v =
      let total : length (all_packed type (done ++ content ∷ packages))
          ≡ length (all_packed type done)
            + (length (packed type content) + length (all_packed type packages)) =
        split_lem done in
      let (pos, p1, is, v1, at) =
        archive_in_here_lem new_block type size done content p fresh typed
          (omega (arith, total, v.sized, length-packed type content)) (omega arith) v in
      let again : (done ++ content ∷ []) ++ packages ≡ done ++ content ∷ packages =
        append_assoc done (content ∷ []) packages in
      let (p2, rest, v2) =
        archive_all-Holds packages (done ++ content ∷ []) p1 fresh typed
          (omega (arith, ap (λ l. length (all_packed type l)) again))
          (omega (arith, length-append done (content ∷ []))) v1 in
      (p2, rw is rest, subst (λ l. Holds type size l p2) again v2)
    where
      split_lem :
          (l : List (List ℕ))
          → length (all_packed type (l ++ content ∷ packages))
            ≡ length (all_packed type l)
              + (length (packed type content) + length (all_packed type packages))
      split_lem [] = length-append (packed type content) (all_packed type packages) ∙ omega arith
      split_lem (q ∷ l) = omega (
        arith,
        length-append (packed type q) (all_packed type (l ++ content ∷ packages)),
        length-append (packed type q) (all_packed type l),
        split_lem l,
      )

-- The slots read back.
make_analysis-slots :
    (count type size : ℕ) (memory : List ℕ)
    → le_value memory ≡ some count
    → le_value (drop 4 memory) ≡ some type
    → le_value (drop 8 memory) ≡ some size
    → make_analysis memory
      ≡ some (record {
        memory = memory;
        blocks = [];
        size = 0;
        start = 12;
        count = count;
        type = type;
        avg_size = size;
      })
unfolding make_analysis
make_analysis-slots count type size memory c t s = rw c (rw t (rw s refl))

-- Packages for which the analysis can tell where they end, put one after the other into packages of
-- another type than `dynamic`, with room for all of them in half of 2^32 bytes: every
-- `archive_in_here` returns, and so does the analysis of the memory, with one round for each
-- package and one more; it reads the number of packages and finds them, the same and in order.
pub generic_all-archive_all :
    (new_block : ℕ → List ℕ) (type size reserve : ℕ) (packages : List (List ℕ))
    → ((n : ℕ) → length (new_block n) ≡ n)
    → type ≢ dynamic
    → type < size_mod
    → size < size_mod
    → reserve * 2 + 12 < size_mod
    → (12 + length (all_packed type packages)) * 2 + 4 < size_mod
    → length packages + 1 < size_mod
    → All (IsSized type size) packages
    → (p : ArchivePackages) × (a : PackagesAnalysis) × ((make_packages new_block size type reserve
          >>= archive_all new_block packages)
        ≡ some p)
      × ((make_analysis (memory_of p) >>= generic_all (length packages + 1)) ≡ some a)
      × (map (bytes_of (memory_of p)) a.blocks ≡ packages)
      × (a.count ≡ length packages)
generic_all-archive_all new_block type size reserve packages fresh other t s room small counts
      sized =
    let (p0, made, v0) = make_packages-Holds new_block type size reserve fresh other room in
    let (p, pushed, v) =
      archive_all-Holds new_block type size packages [] p0 fresh t small (omega arith) v0 in
    let words = slots (length packages) type size in
    let a0 : PackagesAnalysis = record {
      memory = words ++ all_packed type packages;
      blocks = [];
      size = 0;
      start = 12;
      count = length packages;
      type = type;
      avg_size = size;
    } in
    let (a, done, found, count) =
      generic_all-packed type size packages words (length packages + 1) a0 refl refl refl refl
        (omega (arith, length-append words (all_packed type packages))) sized (omega arith) in
    (
      p,
      a,
      ap (λ o. o >>= archive_all new_block packages) made ∙ pushed,
      ap (λ m. make_analysis m >>= generic_all (length packages + 1)) v.filled
          ∙ ap (λ o. o >>= generic_all (length packages + 1))
              (make_analysis-slots (length packages) type size (words ++ all_packed type packages)
                (le_value-le_bytes (length packages) [] (omega arith)) (le_value-le_bytes type [] t)
                (le_value-le_bytes size (all_packed type packages) s))
          ∙ done,
      ap (λ m. map (bytes_of m) a.blocks) v.filled ∙ found,
      count,
    )
