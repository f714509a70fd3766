-- ===== src/Serialize.antt =====
-- sul-serialize/sul-serialize/serialize.hpp and meta_archive.hpp: several values archived into one
-- block and read back. A value is the list of the bytes it consists of, and the types are what
-- `archived_size` says of them; the filter is `nop_filter`, and no argument is a meta process.
pub mod Values
pub mod Limits
use isu_net.Base.{
  List, Option, [], add_size, drop, find, if◌then◌else◌, length, ltb, mymemcpy, none, put, some,
  take, ℕ, ◌+◌, ◌>>=◌, ◌∷◌,
}

-- `size_of_argument`: the length of the arrays.
abbrev pub size_of_argument : ℕ
size_of_argument = 20

-- A `serialize_meta_process`; of `_sizes`, what has been filled in.
pub record MetaProcess : Type 0 where
  pub index : ℕ
  pub myindex : ℕ
  pub sizes : List (ℕ × ℕ)

abbrev pub fresh_process : MetaProcess
fresh_process = record { index = 0; myindex = 0; sizes = [] }

-- `archived_size_real`: `none` is an access outside `_sizes`.
unfoldable pub archived_size : List (List ℕ) → MetaProcess → Option (ℕ × MetaProcess)
archived_size [] s = some (0, s)
archived_size (arg ∷ args) s =
    let size = length arg in
    let s1 : MetaProcess = record s {
      sizes = put s.myindex size s.sizes;
      myindex = s.myindex + 1;
    } in
    let rest = archived_size args s1 >>= λ r. some (add_size size r.0, r.1) in
    if ltb s.myindex size_of_argument then rest else none

-- `archive_to_with_size` of one value: so many bytes from where it lies. `none` is a read past the
-- value or a write past the buffer.
abbrev pub archive_to_with_size : List ℕ → ℕ → List ℕ → ℕ → Option (List ℕ)
archive_to_with_size buffer pos arg size = mymemcpy buffer pos arg size

-- `archive_to_real`, from a place in the buffer: what it wrote, the buffer and the process. The
-- size of the buffer is passed and never looked at; an unfilled element of `_sizes` is no size.
unfoldable pub archive_to_real :
    List (List ℕ) → ℕ → List ℕ → MetaProcess → Option (ℕ × List ℕ × MetaProcess)
archive_to_real [] pos buffer s = some (0, buffer, s)
archive_to_real (arg ∷ args) pos buffer s = do
  size ← find s.index s.sizes
  buffer1 ← archive_to_with_size buffer pos arg size
  r ← archive_to_real args (pos + size) buffer1 (record s { index = s.index + 1 })
  some (add_size size r.0, r.1, r.2)

-- `serialize::archive_to`: the sizes again, and then the bytes.
unfoldable pub archive_to : List (List ℕ) → List ℕ → MetaProcess → Option (ℕ × List ℕ × MetaProcess)
unfolding archived_size archive_to_real
archive_to args buffer s = do
  sized ← archived_size args s
  r ← archive_to_real args 0 buffer sized.1
  some (sized.0, r.1, r.2)

-- `serialize::archive`, with the block that `default_alloc_archive_memory` gives.
unfoldable pub archive : (ℕ → List ℕ) → List (List ℕ) → MetaProcess → Option (List ℕ)
unfolding archived_size archive_to_real
archive new_block args s = do
  sized ← archived_size args s
  r ← archive_to_real args 0 (new_block sized.0) sized.1
  some r.1

-- `rarchive_real`, for values of these sizes: the values, and how much was read.
unfoldable pub rarchive : List ℕ → List ℕ → Option (List (List ℕ) × ℕ)
rarchive [] buffer = some ([], 0)
rarchive (size ∷ sizes) buffer =
    let rest =
      rarchive sizes (drop size buffer) >>= λ r. some (take size buffer ∷ r.0, add_size size r.1) in
    if ltb (length buffer) size then none else rest
