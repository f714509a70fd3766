-- ===== src/Archive/Packing.antt =====
-- sul-serialize/src/archive_packages.cpp, `archive_packages`: packages that lie one after the
-- other.
use isu_net.Base.{
  Bool, List, [], add_size, ap, append-nil, append_assoc, arith, drop, false, if◌then◌else◌,
  le_bytes, le_value, le_value-le_bytes, length, length-append, length-overlay, length-take,
  mymemcpy, mymemcpy_lem, overlay, refl, size_mod, some, suc, sym, take, take-append-drop, true,
  zero, ℕ, ◌*◌, ◌++◌, ◌+◌, ◌-◌, ◌<◌, ◌==◌, ◌∙◌, ◌∷◌, ◌≡◌, ◌≤◌,
}
use isu_net.Archive.{
  minus_one, DynamicMemory, ArchivePackages, dynamic_analysis, cap, slot, set_slot, package_type,
  memory_of, alloc_to_copy, archive_in_here,
}
use isu_net.Archive.Growth.{alloc_to_copy_lem}

-- A package in the memory: with its size in front of it, or without.
abbrev pub packed : ℕ → List ℕ → List ℕ
packed type content =
    (if type == dynamic_analysis then le_bytes (length content) else []) ++ content

abbrev pub all_packed : ℕ → List (List ℕ) → List ℕ
all_packed type [] = []
all_packed type (p ∷ packages) = packed type p ++ all_packed type packages

-- The three slots.
abbrev pub slots : ℕ → ℕ → ℕ → List ℕ
slots count type size = le_bytes count ++ (le_bytes type ++ le_bytes size)

-- What the memory holds: the slots and the packages.
pub record Holds (type size : ℕ) (packages : List (List ℕ)) (p : ArchivePackages) : Type 0 where
  pub kind : p.kind ≡ minus_one
  pub used : p.block.size ≤ cap p.block
  pub filled : memory_of p ≡ slots (length packages) type size ++ all_packed type packages
  pub sized : p.block.size ≡ 12 + length (all_packed type packages)

all_packed-append :
    (type : ℕ) (packages : List (List ℕ)) (p : List ℕ)
    → all_packed type (packages ++ p ∷ []) ≡ all_packed type packages ++ packed type p
all_packed-append type [] p = append-nil (packed type p)
all_packed-append type (q ∷ packages) p =
    ap (λ l. packed type q ++ l) (all_packed-append type packages p)
    ∙ sym (append_assoc (packed type q) (all_packed type packages) (packed type p))

drop-take : (k n : ℕ) (xs : List ℕ) → take n (drop k xs) ≡ drop k (take (k + n) xs)
drop-take zero n xs = ap (λ m. take m xs) (omega arith)
drop-take (suc k) n [] = nil n ∙ ap (drop (suc k)) (sym (nil (suc k + n)))
  where
    nil : (m : ℕ) → take {A = ℕ} m [] ≡ []
    nil zero = refl
    nil (suc m) = refl
drop-take (suc k) n (x ∷ xs) = drop-take k n xs ∙ ap (λ m. drop (suc k) (take m (x ∷ xs))) add_suc
  where
    add_suc : suc (k + n) ≡ suc k + n
    add_suc = omega arith

take_append_right : (xs ys : List ℕ) (n : ℕ) → take (length xs + n) (xs ++ ys) ≡ xs ++ take n ys
take_append_right [] ys n = ap (λ m. take m ys) (omega arith)
take_append_right (x ∷ xs) ys n =
    ap (λ m. take m (x ∷ xs ++ ys)) add_suc ∙ ap (◌∷◌ x) (take_append_right xs ys n)
  where
    add_suc : suc (length xs) + n ≡ suc (length xs + n)
    add_suc = omega arith

-- The first word of the used memory, read and written.
pub first_word :
    (memory rest : List ℕ) (n w v : ℕ)
    → w < size_mod
    → n ≤ length memory
    → take n memory ≡ le_bytes w ++ rest
    → (le_value memory ≡ some w)
      × (mymemcpy memory 0 (le_bytes v) 4 ≡ some (overlay memory 0 (le_bytes v)))
      × (length (overlay memory 0 (le_bytes v)) ≡ length memory)
      × (take n (overlay memory 0 (le_bytes v)) ≡ le_bytes v ++ rest)
first_word memory rest n w v small room h =
    let enough : 4 ≤ n = omega (arith, ap length h, length-take n memory) in
    let n_is : n ≡ 4 + (n - 4) = omega arith in
    let whole : memory ≡ le_bytes w ++ (rest ++ drop n memory) =
      sym (take-append-drop n memory)
      ∙ ap (λ l. l ++ drop n memory) h
      ∙ append_assoc (le_bytes w) rest (drop n memory) in
    (
      ap le_value whole ∙ le_value-le_bytes w (rest ++ drop n memory) small,
      mymemcpy_lem memory 0 (le_bytes v) 4 (omega arith) (omega arith),
      length-overlay memory (le_bytes v) 0 (omega arith),
      ap (λ k. take k (le_bytes v ++ drop 4 memory)) n_is
          ∙ take_append_right (le_bytes v) (drop 4 memory) (n - 4)
          ∙ ap (λ l. le_bytes v ++ l)
              (drop-take 4 (n - 4) memory
                ∙ ap (λ k. drop 4 (take k memory)) (sym n_is)
                ∙ ap (drop 4) h),
    )

-- The words behind the first.
second_word :
    (memory rest : List ℕ) (n w v : ℕ)
    → v < size_mod
    → take n memory ≡ le_bytes w ++ (le_bytes v ++ rest)
    → le_value (drop 4 memory) ≡ some v
second_word memory rest n w v small h =
    let whole : memory ≡ (le_bytes w ++ (le_bytes v ++ rest)) ++ drop n memory =
      sym (take-append-drop n memory) ∙ ap (λ l. l ++ drop n memory) h in
    ap (λ l. le_value (drop 4 l)) whole
    ∙ ap le_value (append_assoc (le_bytes v) rest (drop n memory))
    ∙ le_value-le_bytes v (rest ++ drop n memory) small

pub Holds-package_type :
    (type size : ℕ) (packages : List (List ℕ)) (p : ArchivePackages)
    → type < size_mod
    → Holds type size packages p
    → package_type p ≡ some type
unfolding package_type slot
Holds-package_type type size packages p small v = rw (v.kind) (
    second_word p.block.memory (le_bytes size ++ all_packed type packages) p.block.size
      (length packages) type small v.filled)

pub length-packed :
    (type : ℕ) (content : List ℕ)
    → length (packed type content)
      ≡ length (if type == dynamic_analysis then le_bytes (length content) else []) + length content
length-packed type content =
    length-append (if type == dynamic_analysis then le_bytes (length content) else []) content

module _ (new_block : ℕ → List ℕ) where
  -- The steps of `archive_in_here`, given what each of them answers.
  pub archive_in_here-steps :
      (type count : ℕ) (content memory : List ℕ) (p : ArchivePackages) (m1 : DynamicMemory)
      → package_type p ≡ some type
      → alloc_to_copy new_block (packed type content) p.block ≡ some m1
      → le_value m1.memory ≡ some count
      → mymemcpy m1.memory 0 (le_bytes (add_size count 1)) 4 ≡ some memory
      → archive_in_here new_block content p
        ≡ some (
          add_size p.block.size
              (length (if type == dynamic_analysis then le_bytes (length content) else [])),
          record p { block = record m1 { memory = memory } },
        )
  unfolding archive_in_here slot set_slot
  archive_in_here-steps type count content memory p m1 typed allocated counted copied =
      rw typed (rw allocated (rw counted (rw copied refl)))

  -- Packages in memory, fewer than 2^32 - 1 and so small that the grown block is below 2^32 bytes:
  -- `archive_in_here` returns where the bytes of the package stand, counts it, and puts it behind
  -- the others, which stay.
  pub archive_in_here_lem :
      (type size : ℕ) (packages : List (List ℕ)) (content : List ℕ) (p : ArchivePackages)
      → ((n : ℕ) → length (new_block n) ≡ n)
      → type < size_mod
      → p.block.size * 2 + (4 + length content) < size_mod
      → length packages + 1 < size_mod
      → Holds type size packages p
      → (pos : ℕ) × (p1 : ArchivePackages) × (archive_in_here new_block content p ≡ some (pos, p1))
        × Holds type size (packages ++ content ∷ []) p1
        × (pos + length content ≡ p1.block.size)
  archive_in_here_lem type size packages content p fresh typed small counts v =
      let head = if type == dynamic_analysis then le_bytes (length content) else [] in
      let head_size : length head ≤ 4 = head_lem (type == dynamic_analysis) in
      let len = length-packed type content in
      let (m1, allocated, grown, room, filled) =
        alloc_to_copy_lem new_block (packed type content) p.block fresh v.used
          (omega (arith, len, head_size)) in
      let rest =
        (le_bytes type ++ le_bytes size) ++ (all_packed type packages ++ packed type content) in
      let whole : take m1.size m1.memory ≡ le_bytes (length packages) ++ rest =
        filled
        ∙ ap (λ l. l ++ packed type content) v.filled
        ∙ append_assoc (slots (length packages) type size) (all_packed type packages)
            (packed type content) in
      let (counted, copied, kept, now) =
        first_word m1.memory rest m1.size (length packages) (add_size (length packages) 1)
          (omega arith) room whole in
      let next : add_size (length packages) 1 ≡ length (packages ++ content ∷ []) =
        omega (arith, length-append packages (content ∷ [])) in
      (
        add_size p.block.size (length head),
        _,
        archive_in_here-steps type (length packages) content _ p m1
            (Holds-package_type type size packages p typed v) allocated counted copied,
        record {
          kind = v.kind;
          used = omega (arith, room, kept);
          filled =
              now
              ∙ ap (λ n. le_bytes n ++ rest) next
              ∙ ap (λ l. slots (length (packages ++ content ∷ [])) type size ++ l)
                  (sym (all_packed-append type packages content));
          sized = omega (
            arith,
            grown,
            v.sized,
            ap length (all_packed-append type packages content),
            length-append (all_packed type packages) (packed type content),
          );
        },
        omega (arith, grown, len, head_size),
      )
    where
      head_lem : (b : Bool) → length (if b then le_bytes (length content) else []) ≤ 4
      head_lem true = omega arith
      head_lem false = omega arith
