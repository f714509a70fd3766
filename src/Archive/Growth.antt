-- ===== src/Archive/Growth.antt =====
-- ex-utility/memory/dynamic_memory_block.hpp: what growing and writing keep.
use isu_net.Base.{
  Bool-cases, List, add_size, ap, arith, false, if◌then◌else◌, inl, inr, length, length-overlay,
  length-take, ltb, mul_size, mymemcpy, mymemcpy_lem, overlay, refl, size_mod, some, sub_size, sym,
  take, take-overlay, take_all, ℕ, ◌*◌, ◌++◌, ◌+◌, ◌-◌, ◌<◌, ◌>>=◌, ◌∙◌, ◌≡◌, ◌≤◌,
}
use isu_net.Archive.{
  DynamicMemory, cap, extern_memory_to, try_extern_memory_to, copy_in, push, alloc_to_copy,
}

module _ (new_block : ℕ → List ℕ) where
  pub extern_lem :
      (pre ex : ℕ) (m : DynamicMemory)
      → ((n : ℕ) → length (new_block n) ≡ n)
      → m.size ≤ cap m
      → m.size ≤ pre * 2 + ex
      → pre * 2 + ex < size_mod
      → (m1 : DynamicMemory) × (extern_memory_to new_block pre ex m ≡ some m1)
        × (m1.size ≡ m.size)
        × (cap m1 ≡ pre * 2 + ex)
        × (take m.size m1.memory ≡ take m.size m.memory)
  unfolding extern_memory_to
  extern_lem pre ex m fresh used fits small =
      let to_size : add_size (mul_size pre 2) ex ≡ pre * 2 + ex = omega arith in
      let block = new_block (pre * 2 + ex) in
      let sized = fresh (pre * 2 + ex) in
      let room : 0 + length (take m.size m.memory) ≤ length block =
        omega (arith, length-take m.size m.memory, sized) in
      let copied = mymemcpy_lem block 0 m.memory m.size used (omega (arith, sized)) in
      let inside : ltb (pre * 2 + ex) m.size ≡ false = ground arith in
      let whole : 0 + length (take m.size m.memory) ≡ m.size =
        omega (arith, length-take m.size m.memory) in
      (
        record m { memory = overlay block 0 (take m.size m.memory) },
        rw (to_size, inside, copied) refl,
        refl,
        length-overlay block (take m.size m.memory) 0 room ∙ sized,
        ap (λ n. take n (overlay block 0 (take m.size m.memory))) (sym whole)
            ∙ take-overlay block (take m.size m.memory) 0 room,
      )

  -- Room for more, and what was there.
  try_extern_lem :
      (ex : ℕ) (m : DynamicMemory)
      → ((n : ℕ) → length (new_block n) ≡ n)
      → m.size ≤ cap m
      → m.size * 2 + ex < size_mod
      → (m1 : DynamicMemory) × (try_extern_memory_to new_block m.size ex m ≡ some m1)
        × (m1.size ≡ m.size)
        × (m.size + ex ≤ cap m1)
        × (take m.size m1.memory ≡ take m.size m.memory)
  unfolding try_extern_memory_to
  try_extern_lem ex m fresh used small =
      let sum : add_size m.size ex ≡ m.size + ex = omega arith in
      elim (Bool-cases (ltb (cap m) (m.size + ex))) [
        | inl less ↦
            let (m1, is, same, room, kept) =
              extern_lem m.size ex m fresh used (omega arith) small in
            let opens : try_extern_memory_to new_block m.size ex m
                ≡ extern_memory_to new_block m.size ex m =
              rw (sum, less) refl in
            (m1, opens ∙ is, same, omega (arith, room), kept)
        | inr fits ↦ (m, rw (sum, fits) refl, refl, ground arith, refl)
      ]

  -- What is written behind what is used.
  written_lem :
      (memory content : List ℕ) (size : ℕ)
      → size + length content ≤ length memory
      → (mymemcpy memory size content (length content) ≡ some (overlay memory size content))
        × (length (overlay memory size content) ≡ length memory)
        × (take (size + length content) (overlay memory size content) ≡ take size memory ++ content)
  written_lem memory content size room = (
    mymemcpy_lem memory size content (length content) (omega arith) room
        ∙ ap (λ l. some (overlay memory size l)) (take_all (length content) content (omega arith)),
    length-overlay memory content size room,
    take-overlay memory content size room,
  )

  -- In a block of which no more is used than there is, and of a size for which the new one is below
  -- 2^32 bytes, `alloc_to_copy` returns, puts the bytes behind what is used, and keeps that.
  pub alloc_to_copy_lem :
      (content : List ℕ) (m : DynamicMemory)
      → ((n : ℕ) → length (new_block n) ≡ n)
      → m.size ≤ cap m
      → m.size * 2 + length content < size_mod
      → (m1 : DynamicMemory) × (alloc_to_copy new_block content m ≡ some m1)
        × (m1.size ≡ m.size + length content)
        × (m1.size ≤ cap m1)
        × (take m1.size m1.memory ≡ take m.size m.memory ++ content)
  unfolding alloc_to_copy
  alloc_to_copy_lem content m fresh used small =
      let (m1, is, same, room, kept) = try_extern_lem (length content) m fresh used small in
      let (copied, sized, whole) = written_lem m1.memory content m.size room in
      let sum : add_size m.size (length content) ≡ m.size + length content = omega arith in
      (
        record { size = m.size + length content; memory = overlay m1.memory m.size content },
        rw is (rw (same, copied, sum) refl),
        refl,
        omega (arith, sized, room),
        whole ∙ ap (λ l. l ++ content) kept,
      )

  copy_in_lem :
      (content : List ℕ) (m : DynamicMemory)
      → m.size + length content ≤ cap m
      → cap m < size_mod
      → (m1 : DynamicMemory) × (copy_in content m ≡ some m1)
        × (m1.size ≡ m.size + length content)
        × (m1.size ≤ cap m1)
        × (take m1.size m1.memory ≡ take m.size m.memory ++ content)
  unfolding copy_in
  copy_in_lem content m room small =
      let (copied, sized, whole) = written_lem m.memory content m.size room in
      let sum : add_size m.size (length content) ≡ m.size + length content = omega arith in
      let enough : ltb (sub_size (cap m) m.size) (length content) ≡ false = ground arith in
      (
        record { size = m.size + length content; memory = overlay m.memory m.size content },
        rw (enough, copied, sum) refl,
        refl,
        omega (arith, sized),
        whole,
      )

  -- The same of `push`, whose new block takes twice the capacity.
  pub push_lem :
      (content : List ℕ) (m : DynamicMemory)
      → ((n : ℕ) → length (new_block n) ≡ n)
      → m.size ≤ cap m
      → cap m * 2 + length content < size_mod
      → (m1 : DynamicMemory) × (push new_block content m ≡ some m1)
        × (m1.size ≡ m.size + length content)
        × (m1.size ≤ cap m1)
        × (take m1.size m1.memory ≡ take m.size m.memory ++ content)
  unfolding push
  push_lem content m fresh used small =
      let rest : sub_size (cap m) m.size ≡ cap m - m.size = omega arith in
      elim (Bool-cases (ltb (cap m - m.size) (length content))) [
        | inl less ↦
            let (m1, is, same, room, kept) =
              extern_lem (cap m) (length content) m fresh used (omega arith) small in
            let opens : push new_block content m
                ≡ (extern_memory_to new_block (cap m) (length content) m >>= copy_in content) =
              rw (rest, less) refl in
            let (m2, done, size, inside, whole) =
              copy_in_lem content m1 (omega (arith, room, same)) (omega (arith, room)) in
            (
              m2,
              opens ∙ ap (λ o. o >>= copy_in content) is ∙ done,
              omega (arith, size, same),
              inside,
              whole ∙ ap (λ n. take n m1.memory ++ content) same ∙ ap (λ l. l ++ content) kept,
            )
        | inr fits ↦
            let (m2, done, size, inside, whole) =
              copy_in_lem content m (ground arith) (omega arith) in
            let test : ltb (sub_size (cap m) m.size) (length content) ≡ false = rw rest fits in
            let opens : push new_block content m ≡ copy_in content m =
              ap
                (λ b.
                  (if b then extern_memory_to new_block (cap m) (length content) m else some m)
                  >>= copy_in content)
                test in
            (m2, opens ∙ done, size, inside, whole)
      ]
