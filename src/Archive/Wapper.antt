-- ===== src/Archive/Wapper.antt =====
-- sul-serialize/src/archive_packages.cpp, `push_back`: what it takes for the block.
use isu_net.Base.{
  Bool-cases, List, [], arith, false, if◌then◌else◌, inl, inr, length, length-take, ltb, refl,
  size_mod, some, take, ℕ, ◌*◌, ◌++◌, ◌+◌, ◌<◌, ◌==◌, ◌∙◌, ◌∷◌, ◌≡◌, ◌≤◌,
}
use isu_net.Archive.{
  dynamic_analysis, ArchivePackages, package_type, package_bytes, push_back, archive_in_here,
}
use isu_net.Archive.Packing.{Holds, Holds-package_type, archive_in_here_lem}

package_bytes_lem :
    (type : ℕ) (content wapper : List ℕ)
    → length content ≤ length wapper
    → let bytes = if type == dynamic_analysis then take (length content) wapper else content in
      (package_bytes type content wapper ≡ some bytes) × (length bytes ≡ length content)
unfolding package_bytes
package_bytes_lem type content wapper long =
    let enough : ltb (length wapper) (length content) ≡ false = ground arith in
    elim (Bool-cases (type == dynamic_analysis)) [
      | inl analysis ↦
          rw (analysis, enough) (refl, omega (arith, length-take (length content) wapper))
      | inr other ↦ rw other (refl, refl)
    ]

push_back-steps :
    (new_block : ℕ → List ℕ) (type : ℕ) (content wapper bytes : List ℕ) (p : ArchivePackages)
    → package_type p ≡ some type
    → package_bytes type content wapper ≡ some bytes
    → push_back new_block content wapper p ≡ archive_in_here new_block bytes p
unfolding push_back
push_back-steps new_block type content wapper bytes p sort is = rw sort (rw is refl)

-- Packages in memory, fewer than 2^32 - 1 and so small that the grown block is below 2^32 bytes, a
-- block to put in, and at least as many bytes from its `block_wapper` on: into packages that keep
-- their type in the slots, which are those of any type but `dynamic`, `push_back` puts as many
-- bytes of the wapper as the block has when they carry their sizes, and otherwise the block.
pub push_back_lem :
    (new_block : ℕ → List ℕ) (type size : ℕ) (packages : List (List ℕ)) (content wapper : List ℕ)
    (p : ArchivePackages)
    → ((n : ℕ) → length (new_block n) ≡ n)
    → type < size_mod
    → p.block.size * 2 + (4 + length content) < size_mod
    → length packages + 1 < size_mod
    → length content ≤ length wapper
    → Holds type size packages p
    → (pos : ℕ) × (p1 : ArchivePackages) × (push_back new_block content wapper p ≡ some (pos, p1))
      × Holds type size
          (packages
            ++ (if type == dynamic_analysis then take (length content) wapper else content) ∷ [])
          p1
push_back_lem new_block type size packages content wapper p fresh typed small counts long v =
    let (bytes, len) = package_bytes_lem type content wapper long in
    let (pos, p1, is, v1, at) =
      archive_in_here_lem new_block type size packages _ p fresh typed (omega (arith, len)) counts
        v in
    (
      pos,
      p1,
      push_back-steps new_block type content wapper _ p
            (Holds-package_type type size packages p typed v) bytes
          ∙ is,
      v1,
    )
