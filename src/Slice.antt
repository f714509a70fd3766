-- ===== src/Slice.antt =====
-- ex-utility/src/slice.cpp and ex-utility/ex-utility/slice.hpp: `slicer` cuts a message into slices
-- that fit a packet, `combination` puts them together. The memory to slice is the list of its
-- bytes, and a slice is the range of it that its `const_memory_block` points at.
pub mod Sizes
pub mod Pieces
pub mod Positions
pub mod Together
pub mod Layout
pub mod Account
use isu_net.Base.{
  Bool, List, Option, [], add_size, drop, false, if◌then◌else◌, length, ltb, mul_size, mymemcpy,
  none, some, sub_size, suc, take, true, zero, ℕ, ◌++◌, ◌+◌, ◌-◌, ◌/◌, ◌==◌, ◌>>=◌, ◌∷◌,
}

-- A `const_memory_block` into the memory: where it starts, and its size.
pub record Block : Type 0 where
  pub start : ℕ
  pub size : ℕ

-- The bytes that a block points at.
abbrev pub bytes_of : List ℕ → Block → List ℕ
bytes_of memory b = take b.size (drop b.start memory)

-- `sizeof(slice_head)`: three `size_t`.
abbrev pub sizeof_slice_head : ℕ
sizeof_slice_head = 12

abbrev pub sizeof_slicer_head : ℕ
sizeof_slicer_head = 4

-- `ceil` of the quotient of two 32-bit numbers, which a `double` holds well enough to round right.
-- Nothing is said of a division by 0: the infinity is no `size_t`.
unfoldable pub ceil_div : ℕ → ℕ → Option ℕ
ceil_div n zero = none
ceil_div n (suc d) = some ((n + d) / suc d)

-- `how_many_slice`: the number of full slices, and the size of the last. `none` is
-- `std::out_of_range` or the division by 0.
unfoldable pub how_many_slice : ℕ → ℕ → ℕ → Option (ℕ × ℕ)
unfolding ceil_div
how_many_slice data_size slice_size keep =
    let slice_head_size = add_size keep sizeof_slice_head in
    if ltb slice_size slice_head_size then none else (do
      slice_count ← ceil_div data_size (slice_size - slice_head_size)
      let size_with_head = add_size data_size (mul_size slice_head_size slice_count)
      let full = sub_size slice_count 1
      some (full, sub_size size_with_head (mul_size full slice_size)))

unfoldable pub compute_seralize_size : ℕ → ℕ → ℕ → Option ℕ
unfolding how_many_slice
compute_seralize_size data_size slice_size keep = do
  pair ← how_many_slice data_size slice_size keep
  some (add_size (mul_size pair.0 slice_size) pair.1)

-- The slicer; `slices` holds the head's bytes and the data of each slice.
pub record Slicer : Type 0 where
  pub memory : List ℕ
  pub slice_size : ℕ
  pub slices : List (List ℕ × Block)
  pub used_memory : ℕ
  pub current_slice_id : ℕ

-- What the members of a new slicer are set to.
abbrev pub new_slicer : List ℕ → ℕ → Slicer
new_slicer memory slice_size = record {
  memory = memory;
  slice_size = slice_size;
  slices = [];
  used_memory = 0;
  current_slice_id = 0;
}

-- The constructor, which is `_init`, for a memory that is not null: it computes the size and the
-- number of the slices, which throws where `how_many_slice` does, and uses neither.
unfoldable pub make_slicer : List ℕ → ℕ → ℕ → Option Slicer
unfolding compute_seralize_size how_many_slice
make_slicer memory slice_size keep = do
  seralized_size ← compute_seralize_size (length memory) slice_size keep
  pair ← how_many_slice (length memory) slice_size keep
  some (new_slicer memory slice_size)

unfoldable pub slice_end : Slicer → Bool
slice_end s = s.used_memory == length s.memory

-- The user's head generator `_gen`: what it puts in front of a slice, given the slice's id and
-- where the slice starts.
module _ (gen : ℕ → ℕ → List ℕ) where
  -- `_generic` (also `get_next_slice`); `none` is `std::runtime_error`.
  unfoldable pub generic : Slicer → Option Slicer
  generic s =
      let less = sub_size (length s.memory) s.used_memory in
      let head = gen s.current_slice_id s.used_memory in
      let data_slice = sub_size s.slice_size (length head) in
      let data_size = if ltb less data_slice then less else data_slice in
      let data_range : Block = record { start = s.used_memory; size = data_size } in
      if ltb (length s.memory) s.used_memory
      then none
      else some (record s {
        slices = s.slices ++ (head, data_range) ∷ [];
        used_memory = add_size s.used_memory data_size;
      })

  -- `generic_all`, on fuel.
  unfoldable pub generic_all : ℕ → Slicer → Option Slicer
  unfolding slice_end
  generic_all zero s = none
  generic_all (suc fuel) s =
      let rest = generic s >>= λ s1. generic_all fuel s1 in if slice_end s then some s else rest

  -- `_generic_to`, on fuel: `none` when it runs out.
  unfoldable pub generic_to : ℕ → ℕ → Slicer → Option Slicer
  generic_to zero slice_count s = none
  generic_to (suc fuel) slice_count s =
      let rest = generic s >>= λ s1. generic_to fuel slice_count s1 in
      if s.current_slice_id == slice_count then some s else rest

-- Of the starts seen, the bytes taken in, and the block for the whole, of `_head.data_size` bytes.
pub record Combination : Type 0 where
  pub recved : List ℕ
  pub avaliable_memory : ℕ
  pub memory : List ℕ
  pub data_size : ℕ

-- The constructor, with the block that `new` gives.
unfoldable pub combine : List ℕ → Combination
combine block = record {
  recved = [];
  avaliable_memory = 0;
  memory = block;
  data_size = length block;
}

unfoldable pub was_recved : ℕ → List ℕ → Bool
was_recved start [] = false
was_recved start (s ∷ recved) = if start == s then true else was_recved start recved

-- `insert`: `_get_range` compares nothing with the size of the block. `none` is a write past it.
unfoldable pub insert : ℕ → List ℕ → Combination → Option Combination
unfolding was_recved
insert slice_start content c = if was_recved slice_start c.recved then some c else do
  memory ← mymemcpy c.memory slice_start content (length content)
  some (record c {
    memory = memory;
    avaliable_memory = add_size c.avaliable_memory (length content);
    recved = slice_start ∷ c.recved;
  })

unfoldable pub accepted_all : Combination → Bool
accepted_all c = c.avaliable_memory == c.data_size

unfoldable pub accepted : Combination → ℕ
accepted c = length c.recved

-- A run of `insert`s.
unfoldable pub insert_all : List (ℕ × List ℕ) → Combination → Option Combination
insert_all [] c = some c
insert_all (a ∷ arrivals) c = insert a.0 a.1 c >>= λ c1. insert_all arrivals c1
