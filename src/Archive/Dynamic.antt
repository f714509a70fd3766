-- ===== src/Archive/Dynamic.antt =====
-- sul-serialize/src/archive_packages.cpp: packages of the type `dynamic`, which has no slots.
use isu_net.Base.{
  List, add_size, ap, arith, le_bytes, length, overlay, refl, size_mod, some, ℕ, ◌*◌, ◌++◌, ◌+◌,
  ◌<◌, ◌∙◌, ◌≡◌, ◌≤◌,
}
use isu_net.Archive.{dynamic, ArchivePackages, cap, memory_of, package_type, archive_in_here}
use isu_net.Archive.Growth.{alloc_to_copy_lem}
use isu_net.Archive.Packing.{archive_in_here-steps, first_word}

dynamic-package_type : (p : ArchivePackages) → p.kind ≡ dynamic → package_type p ≡ some dynamic
unfolding package_type
dynamic-package_type p h = rw h refl

-- Packages of the type `dynamic` that hold at least a word when the new one is in, in a block whose
-- growth stays below 2^32 bytes: `archive_in_here` puts the bytes behind the others, but then
-- counts the first word of the data up, which is no count here.
pub archive_in_here-dynamic :
    (new_block : ℕ → List ℕ) (content rest : List ℕ) (w : ℕ) (p : ArchivePackages)
    → ((n : ℕ) → length (new_block n) ≡ n)
    → p.kind ≡ dynamic
    → p.block.size ≤ cap p.block
    → p.block.size * 2 + length content < size_mod
    → w < size_mod
    → memory_of p ++ content ≡ le_bytes w ++ rest
    → (p1 : ArchivePackages) × (archive_in_here new_block content p ≡ some (p.block.size, p1))
      × (memory_of p1 ≡ le_bytes (add_size w 1) ++ rest)
archive_in_here-dynamic new_block content rest w p fresh kind used small word whole =
    let (m1, allocated, grown, room, filled) =
      alloc_to_copy_lem new_block content p.block fresh used small in
    let (counted, copied, kept, now) =
      first_word m1.memory rest m1.size w (add_size w 1) word room (filled ∙ whole) in
    let start : add_size p.block.size 0 ≡ p.block.size = omega arith in
    let p1 : ArchivePackages = record p {
      block = record m1 { memory = overlay m1.memory 0 (le_bytes (add_size w 1)) };
    } in
    (
      p1,
      archive_in_here-steps new_block dynamic w content _ p m1 (dynamic-package_type p kind)
            allocated counted copied
          ∙ ap (λ n. some (n, p1)) start,
      now,
    )
