-- ===== src/Rpc/Blocks.antt =====
-- imou-rpc-kernel/imou-rpc-kernel/imouto_rpcmsg.hpp: `for_each_memory_block` over blocks that were
-- archived one behind the other.
use isu_net.Base.{
  All, List, [], ap, arith, drop, drop-append_length, drop_all, false, le_value, le_value-le_bytes,
  length, length-append, ltb, map, none, refl, size_mod, some, suc, sym, take, take-append_length,
  true, zero, ℕ, ◌++◌, ◌+◌, ◌<◌, ◌==◌, ◌∙◌, ◌∷◌, ◌≡◌, ◌≤◌,
}
use isu_net.Slice.{Block}
use isu_net.Rpc.{archive_block, for_each_from, for_each_memory_block}

-- The blocks, archived one behind the other.
abbrev pub frames : List (List ℕ) → List ℕ
frames [] = []
frames (m ∷ ms) = archive_block m ++ frames ms

-- The bytes of a block in the memory.
abbrev pub block_content : List ℕ → Block → List ℕ
block_content memory b = take b.size (drop b.start memory)

abbrev blocks_at : ℕ → List (List ℕ) → List Block
blocks_at start [] = []
blocks_at start (m ∷ ms) =
    record { start = start + 4; size = length m } ∷ blocks_at (start + 4 + length m) ms

-- One round of the loop in front of a block that fits.
round :
    (fuel start size : ℕ) (memory : List ℕ)
    → le_value (drop start memory) ≡ some size
    → 4 + size ≤ length (drop start memory)
    → let later = for_each_from fuel (start + 4 + size) memory in
      for_each_from (suc fuel) start memory
      ≡ (record { start = start + 4; size = size } ∷ later.0, later.1)
unfolding for_each_from
round fuel start size memory read fits =
    let enough : ltb (length (drop start memory)) (4 + size) ≡ false = ground arith in
    rw (for_each_from, read) (rw enough refl)

ends :
    (fuel start : ℕ) (memory : List ℕ)
    → drop start memory ≡ []
    → for_each_from fuel start memory ≡ ([], true)
unfolding for_each_from
ends zero start memory is = refl
ends (suc fuel) start memory is =
    let nothing : le_value (drop start memory) ≡ none = ap le_value is in
    let at_end : (length (drop start memory) == 0) ≡ true = ap (λ r. length r == 0) is in
    rw (for_each_from, nothing) (rw at_end refl)

drop_two : (a b : ℕ) (xs : List ℕ) → drop (a + b) xs ≡ drop b (drop a xs)
drop_two zero b xs = ap (λ n. drop n xs) (omega arith)
drop_two (suc a) b [] = drop_all (suc a + b) [] (omega arith) ∙ sym (drop_all b [] (omega arith))
drop_two (suc a) b (x ∷ xs) =
    let shift : suc a + b ≡ suc (a + b) = omega arith in
    ap (λ n. drop n (x ∷ xs)) shift ∙ drop_two a b xs

-- Behind a block stand the others, and its bytes where it says.
behind :
    (start : ℕ) (m rest memory : List ℕ)
    → drop start memory ≡ archive_block m ++ rest
    → (drop (start + 4 + length m) memory ≡ rest)
      × (block_content memory (record { start = start + 4; size = length m }) ≡ m)
behind start m rest memory is =
    let here : drop (start + 4) memory ≡ m ++ rest = drop_two start 4 memory ∙ ap (drop 4) is in
    (
      drop_two (start + 4) (length m) memory
          ∙ ap (drop (length m)) here
          ∙ drop-append_length m rest,
      ap (take (length m)) here ∙ take-append_length m rest,
    )

for_each_from-frames :
    (ms : List (List ℕ)) (fuel start : ℕ) (memory : List ℕ)
    → All (λ m. length m < size_mod) ms
    → drop start memory ≡ frames ms
    → length (frames ms) ≤ fuel
    → (for_each_from fuel start memory ≡ (blocks_at start ms, true))
      × (map (block_content memory) (blocks_at start ms) ≡ ms)
for_each_from-frames [] fuel start memory small is enough = (ends fuel start memory is, refl)
for_each_from-frames (m ∷ ms) zero start memory small is enough = absurd (omega arith)
for_each_from-frames (m ∷ ms) (suc fuel) start memory small is enough =
    let next = start + 4 + length m in
    let whole = length-append (archive_block m) (frames ms) in
    let (others, content) = behind start m (frames ms) memory is in
    let (later, contents) = for_each_from-frames ms fuel next memory small.1 others (omega arith) in
    let read : le_value (drop start memory) ≡ some (length m) =
      ap le_value is ∙ le_value-le_bytes (length m) (m ++ frames ms) small.0 in
    let fits : 4 + length m ≤ length (drop start memory) = omega (arith, ap length is) in
    (
      round fuel start (length m) memory read fits
          ∙ ap (λ r. (record { start = start + 4; size = length m } ∷ r.0, r.1)) later,
      ap (λ r. r ∷ map (block_content memory) (blocks_at next ms)) content ∙ ap (◌∷◌ m) contents,
    )

-- Blocks below 2^32 bytes each, archived one behind the other: the loop comes to its end, and the
-- function is called with exactly these blocks, in this order.
pub for_each_memory_block-frames :
    (ms : List (List ℕ))
    → All (λ m. length m < size_mod) ms
    → let r = for_each_memory_block (frames ms) in
      (r.1 ≡ true) × (map (block_content (frames ms)) r.0 ≡ ms)
unfolding for_each_memory_block
for_each_memory_block-frames ms small =
    let (is, contents) =
      for_each_from-frames ms (length (frames ms)) 0 (frames ms) small refl (omega arith) in
    (ap (λ r. r.1) is, ap (λ r. map (block_content (frames ms)) r.0) is ∙ contents)
