-- ===== src/Archive.antt =====
-- sul-serialize/src/archive_packages.cpp, its header, and
-- ex-utility/memory/dynamic_memory_block.hpp: a block that grows, packages put into it one after
-- the other, and their analysis. What `new` leaves in a block is an argument.
pub mod Growth
pub mod Packing
pub mod Wapper
pub mod Unpacking
pub mod Again
pub mod Dynamic
use isu_net.Base.{
  List, Option, [], add_size, drop, if◌then◌else◌, le_bytes, le_value, length, ltb, mul_size,
  mymemcpy, none, some, sub_size, suc, take, zero, ℕ, ◌*◌, ◌++◌, ◌==◌, ◌>>=◌, ◌∷◌,
}
use isu_net.Slice.{Block}

-- `-1` as a `size_t`.
abbrev pub minus_one : ℕ
minus_one = 4294967295

-- A `dynamic_memory_block<char>`; its capacity is the length of the memory.
pub record DynamicMemory : Type 0 where
  pub size : ℕ
  pub memory : List ℕ

-- An `archive_packages`.
pub record ArchivePackages : Type 0 where
  pub kind : ℕ
  pub block : DynamicMemory

-- `package_type`.
abbrev pub concrete : ℕ
concrete = 0

abbrev pub dynamic : ℕ
dynamic = 1

abbrev pub dynamic_analysis : ℕ
dynamic_analysis = 2

abbrev pub cap : DynamicMemory → ℕ
cap m = length m.memory

abbrev pub clean_data : DynamicMemory → DynamicMemory
clean_data m = record m { size = 0 }

-- `_copy` to the end of what is used; `none` is `std::overflow_error`.
unfoldable pub copy_in : List ℕ → DynamicMemory → Option DynamicMemory
copy_in content m =
    let copied = mymemcpy m.memory m.size content (length content) in
    if ltb (sub_size (cap m) m.size) (length content)
    then none
    else copied >>= λ memory.
        some (record { size = add_size m.size (length content); memory = memory })

module _ (new_block : ℕ → List ℕ) where
  -- `_extern_memory_to`, whose last argument nobody passes; `none` is `std::overflow_error`.
  unfoldable pub extern_memory_to : ℕ → ℕ → DynamicMemory → Option DynamicMemory
  extern_memory_to pre ex m =
      let to_size = add_size (mul_size pre 2) ex in
      let copied = mymemcpy (new_block to_size) 0 m.memory m.size in
      if ltb to_size m.size then none else copied >>= λ memory. some (record m { memory = memory })

  -- `_try_extern_memory_to` (also `dynamic_extern` and `static_extern`).
  unfoldable pub try_extern_memory_to : ℕ → ℕ → DynamicMemory → Option DynamicMemory
  unfolding extern_memory_to
  try_extern_memory_to pre ex m =
      let extended = extern_memory_to pre ex m in
      if ltb (cap m) (add_size pre ex) then extended else some m

  unfoldable pub make_memory : ℕ → Option DynamicMemory
  unfolding extern_memory_to
  make_memory size = extern_memory_to 0 size (record { size = 0; memory = [] })

  unfoldable pub fill : ℕ → DynamicMemory → Option DynamicMemory
  unfolding try_extern_memory_to
  fill count m = do
    m1 ← try_extern_memory_to m.size count m
    some (record m1 { size = add_size m1.size count })

  -- `push`, which is `_push_impl`.
  unfoldable pub push : List ℕ → DynamicMemory → Option DynamicMemory
  unfolding extern_memory_to copy_in
  push content m =
      let extended = extern_memory_to (cap m) (length content) m in
      (if ltb (sub_size (cap m) m.size) (length content) then extended else some m)
      >>= copy_in content

  -- `alloc_to_copy` for a function that writes these bytes.
  unfoldable pub alloc_to_copy : List ℕ → DynamicMemory → Option DynamicMemory
  unfolding try_extern_memory_to
  alloc_to_copy content m = do
    m1 ← try_extern_memory_to m.size (length content) m
    memory ← mymemcpy m1.memory m1.size content (length content)
    some (record { size = add_size m1.size (length content); memory = memory })

-- `_slot`: a word from the start of the memory, whatever the type; reading past it is a fault.
unfoldable pub slot : ℕ → ArchivePackages → Option ℕ
slot index p = le_value (drop (4 * index) p.block.memory)

unfoldable pub set_slot : ℕ → ℕ → ArchivePackages → Option ArchivePackages
set_slot index value p = do
  memory ← mymemcpy p.block.memory (4 * index) (le_bytes value) 4
  some (record p { block = record p.block { memory = memory } })

unfoldable pub package_type : ArchivePackages → Option ℕ
unfolding slot
package_type p = let in_memory = slot 1 p in if p.kind == minus_one then in_memory else some p.kind

unfoldable pub package_count : ArchivePackages → Option ℕ
unfolding slot
package_count p = slot 0 p

unfoldable pub package_size : ArchivePackages → Option ℕ
unfolding slot
package_size p = slot 2 p

-- What `push_back` archives for a block, with the bytes that lie from its `block_wapper` on: behind
-- a size the wapper is archived like any object, so it is copied itself, and not what it points at.
unfoldable pub package_bytes : ℕ → List ℕ → List ℕ → Option (List ℕ)
package_bytes type content wapper =
    let copied =
      if ltb (length wapper) (length content) then none else some (take (length content) wapper) in
    if type == dynamic_analysis then copied else some content

-- `memory`: what is used of the block.
abbrev pub memory_of : ArchivePackages → List ℕ
memory_of p = take p.block.size p.block.memory

module _ (new_block : ℕ → List ℕ) where
  -- `_init`: the three slots, but for a `dynamic` one.
  unfoldable pub init : ℕ → ℕ → DynamicMemory → Option ArchivePackages
  unfolding push
  init size type m =
      let slots = push new_block (le_bytes 0 ++ (le_bytes type ++ le_bytes size)) m in
      if type == dynamic
      then some (record { kind = type; block = m })
      else (slots >>= λ m1. some (record { kind = minus_one; block = m1 }))

  unfoldable pub make_packages : ℕ → ℕ → ℕ → Option ArchivePackages
  unfolding make_memory init
  make_packages size type reserve = make_memory new_block reserve >>= λ m. init size type m

  unfoldable pub clear : ArchivePackages → Option ArchivePackages
  unfolding package_type package_size init
  clear p = do type ← package_type p; size ← package_size p; init size type (clean_data p.block)

  -- `archive_in_here`, for arguments that are archived as these bytes: where the package stands,
  -- and the packages.
  unfoldable pub archive_in_here : List ℕ → ArchivePackages → Option (ℕ × ArchivePackages)
  unfolding package_type alloc_to_copy slot set_slot
  archive_in_here content p = do
    type ← package_type p
    let head = if type == dynamic_analysis then le_bytes (length content) else []
    block ← alloc_to_copy new_block (head ++ content) p.block
    count ← slot 0 (record p { block = block })
    p1 ← set_slot 0 (add_size count 1) (record p { block = block })
    some (add_size p.block.size (length head), p1)

  -- `push_back`.
  unfoldable pub push_back : List ℕ → List ℕ → ArchivePackages → Option (ℕ × ArchivePackages)
  unfolding package_type package_bytes archive_in_here
  push_back content wapper p = do
    type ← package_type p
    bytes ← package_bytes type content wapper
    archive_in_here bytes p

-- A `packages_analysis`, with its `packages_info`.
pub record PackagesAnalysis : Type 0 where
  pub memory : List ℕ
  pub blocks : List Block
  pub size : ℕ
  pub start : ℕ
  pub count : ℕ
  pub type : ℕ
  pub avg_size : ℕ

-- The constructor, which is `from_memory`; `none` is a read past the memory.
unfoldable pub make_analysis : List ℕ → Option PackagesAnalysis
make_analysis memory = do
  count ← le_value memory
  type ← le_value (drop 4 memory)
  avg_size ← le_value (drop 8 memory)
  some (record {
    memory = memory;
    blocks = [];
    size = 0;
    start = 12;
    count = count;
    type = type;
    avg_size = avg_size;
  })

-- The block that `_generic` makes, of the given size and place.
abbrev pub add_block : ℕ → ℕ → PackagesAnalysis → PackagesAnalysis
add_block start size a =
    let b : Block = record { start = start; size = size } in
    record a { blocks = a.blocks ++ b ∷ []; start = add_size start size; size = add_size a.size 1 }

-- `_generic`: nothing at the end; `none` is `std::out_of_range`, or a size read past the memory.
unfoldable pub generic : PackagesAnalysis → Option PackagesAnalysis
generic a =
    let sized =
      le_value (drop a.start a.memory) >>= λ size. some (add_block (add_size a.start 4) size a) in
    let next =
      if a.type == dynamic_analysis then sized else some (add_block a.start a.avg_size a) in
    let inside = if ltb (length a.memory) a.start then none else next in
    if a.start == length a.memory then some a else inside

-- `generic_all`, on fuel.
unfoldable pub generic_all : ℕ → PackagesAnalysis → Option PackagesAnalysis
unfolding generic
generic_all zero a = none
generic_all (suc fuel) a = generic a >>= λ a1.
    let rest = generic_all fuel a1 in if length a.blocks == length a1.blocks then some a1 else rest
