-- ===== src/Checks/Values.antt =====
-- Values through sul-serialize: serialize/serialize.hpp and xdr/xdr_convert.hpp.
use isu_net.Base.{
  List, [], arith, drop, false, put, refl, replicate, some, ℕ, ◌%◌, ◌<◌, ◌∷◌, ◌≡◌, ◌≤◌,
}
use isu_net.Serialize.{MetaProcess, fresh_process, archived_size, archive_to, rarchive}
use isu_net.Serialize.Values.{rarchive-archive_to}
use isu_net.Xdr
use isu_net.Xdr.Lengths.{rarchive_with_size-archive_to_with_size}

abbrev values : List (List ℕ)
values = (1 ∷ 2 ∷ []) ∷ [] ∷ (3 ∷ []) ∷ []

rarchive-archive_to_example :
    (buffer1 : List ℕ) × (s1 : MetaProcess) × (archive_to values (0 ∷ 0 ∷ 0 ∷ 0 ∷ []) fresh_process
      ≡ some (3, buffer1, s1))
    × (rarchive (2 ∷ 0 ∷ 1 ∷ []) buffer1 ≡ some (values, 3))
rarchive-archive_to_example =
    rarchive-archive_to values (0 ∷ 0 ∷ 0 ∷ 0 ∷ []) (omega arith) (omega arith) (omega arith)

abbrev sized_once : MetaProcess
sized_once = record { index = 0; myindex = 1; sizes = (0, 2) ∷ [] }

sized_once-archived_size : archived_size ((1 ∷ 2 ∷ []) ∷ []) fresh_process ≡ some (2, sized_once)
unfolding archived_size put
sized_once-archived_size = refl

-- A value of three bytes, from the second byte of a buffer on.
rarchive_with_size-archive_to_with_size_example :
    (size : ℕ) × (buffer1 : List ℕ) × (Xdr.archived_size false (7 ∷ 8 ∷ 9 ∷ []) ≡ some size)
    × (Xdr.archive_to_with_size false (replicate 9 0) 1 (7 ∷ 8 ∷ 9 ∷ []) 0 ≡ some (7, buffer1))
    × (Xdr.rarchive_with_size false (drop 1 buffer1) 0 ≡ some (size, 7 ∷ 8 ∷ 9 ∷ []))
    × (size % 4 ≡ 0)
    × (7 ≤ size)
    × (size < 11)
rarchive_with_size-archive_to_with_size_example =
    rarchive_with_size-archive_to_with_size (replicate 9 0) (7 ∷ 8 ∷ 9 ∷ []) 1 0 0 (omega arith)
      (omega arith)
