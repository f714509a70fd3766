-- ===== src/Checks/Archives.antt =====
-- Packages of a few bytes in the memory of sul-serialize/src/archive_packages.cpp.
use isu_net.Base.{
  List, [], add_size, arith, inl, le_bytes, length-replicate, map, refl, replicate, some, ℕ, ◌++◌,
  ◌>>=◌, ◌∷◌, ◌≡◌,
}
use isu_net.Slice.{bytes_of}
use isu_net.Archive.{
  minus_one, push_back, dynamic, dynamic_analysis, ArchivePackages, memory_of, make_packages,
  archive_in_here, PackagesAnalysis, make_analysis, generic_all,
}
use isu_net.Archive.Again.{archive_all, generic_all-archive_all}
use isu_net.Archive.Packing.{slots, Holds}
use isu_net.Archive.Wapper.{push_back_lem}
use isu_net.Archive.Dynamic.{archive_in_here-dynamic}

abbrev zeros : ℕ → List ℕ
zeros n = replicate n 0

-- The second package is empty.
abbrev packages : List (List ℕ)
packages = (1 ∷ 2 ∷ 3 ∷ []) ∷ [] ∷ (4 ∷ []) ∷ []

generic_all-archive_all_example :
    (p : ArchivePackages) × (a : PackagesAnalysis) × ((make_packages zeros 0 dynamic_analysis 0
        >>= archive_all zeros packages)
      ≡ some p)
    × ((make_analysis (memory_of p) >>= generic_all 4) ≡ some a)
    × (map (bytes_of (memory_of p)) a.blocks ≡ packages)
    × (a.count ≡ 3)
generic_all-archive_all_example =
    generic_all-archive_all zeros dynamic_analysis 0 0 packages (λ n. length-replicate n 0)
      (λ e. absurd (omega (arith, e))) (omega arith) (omega arith) (omega arith) (omega arith)
      (omega arith) (inl refl, (inl refl, (inl refl, tt)))

abbrev empty : ArchivePackages
empty = record { kind = dynamic; block = record { size = 0; memory = [] } }

archive_in_here-dynamic_example :
    (p1 : ArchivePackages) × (archive_in_here zeros (255 ∷ 0 ∷ 0 ∷ 0 ∷ 9 ∷ []) empty ≡ some (0, p1))
    × (memory_of p1 ≡ le_bytes (add_size 255 1) ++ 9 ∷ [])
archive_in_here-dynamic_example =
    archive_in_here-dynamic zeros (255 ∷ 0 ∷ 0 ∷ 0 ∷ 9 ∷ []) (9 ∷ []) 255 empty
      (λ n. length-replicate n 0) refl (omega arith) (omega arith) (omega arith) refl

-- Packages with their sizes, of which there are none yet.
abbrev no_package : ArchivePackages
no_package = record {
  kind = minus_one;
  block = record { size = 12; memory = slots 0 dynamic_analysis 0 };
}

no_package-Holds : Holds dynamic_analysis 0 [] no_package
no_package-Holds = record { kind = refl; used = omega arith; filled = refl; sized = refl }

push_back_lem_example :
    (pos : ℕ) × (p1 : ArchivePackages) × (push_back zeros
        (1 ∷ 2 ∷ [])
        (77 ∷ 78 ∷ 79 ∷ [])
        no_package
      ≡ some (pos, p1))
    × Holds dynamic_analysis 0 ((77 ∷ 78 ∷ []) ∷ []) p1
push_back_lem_example =
    push_back_lem zeros dynamic_analysis 0 [] (1 ∷ 2 ∷ []) (77 ∷ 78 ∷ 79 ∷ []) no_package
      (λ n. length-replicate n 0) (omega arith) (omega arith) (omega arith) (omega arith)
      no_package-Holds
