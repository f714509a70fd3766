-- ===== src/Slice/Together.antt =====
-- ex-utility/src/slice.cpp, `combination`: slices of a message, in any order and repeated, put
-- together.
use isu_net.Base.{
  ==_iff, ==_refl, All, Bool-cases, List, Option-cases, [], add_size, ap, arith, drop, false, inl,
  inr, length, length-overlay, mymemcpy, mymemcpy_fault, mymemcpy_lem, none, overlay, refl, some,
  take, take_all, true, ℕ, ◌+◌, ◌-◌, ◌<◌, ◌==◌, ◌↔◌, ◌∙◌, ◌∷◌, ◌≡◌, ◌≤◌, ◌⊎◌,
}
use isu_net.Slice.{Combination, combine, was_recved, insert, insert_all}
use isu_net.Slice.Positions.{
  get_elem?, get_elem?-ext, get_elem?-range, get_elem?-overlay_inside, get_elem?-overlay_outside,
}

-- `insert` faults exactly when the start is new and the data reaches past the block.
insert_fault :
    (start : ℕ) (content : List ℕ) (c : Combination)
    → (insert start content c ≡ none)
      ↔ ((was_recved start c.recved ≡ false) × (length c.memory < start + length content))
unfolding insert
insert_fault start content c =
    let faults = mymemcpy_fault c.memory start content (length content) in
    elim (Bool-cases (was_recved start c.recved)) [
      | inl old ↦ rw old (ground arith)
      | inr new ↦ elim (Option-cases (mymemcpy c.memory start content (length content))) [
        | inl stops ↦ rw (new, stops) (ground (arith, faults))
        | inr (block, is) ↦ rw (new, is) (ground (arith, faults))
      ]
    ]

-- The position is in a part of the memory that the arrivals bring.
pub data Covers (i : ℕ) : List (ℕ × List ℕ) → Type 0 where
  here :
      (start : ℕ) (content : List ℕ) (arrivals : List (ℕ × List ℕ))
      → start ≤ i
      → i < start + length content
      → Covers i ((start, content) ∷ arrivals)
  there :
      (a : ℕ × List ℕ) (arrivals : List (ℕ × List ℕ)) → Covers i arrivals → Covers i (a ∷ arrivals)

module _ (memory : List ℕ) (size_at : ℕ → ℕ) where
  -- A slice of the memory: its size goes with its start.
  pub record IsPart (a : ℕ × List ℕ) : Type 0 where
    pub content : a.1 ≡ take (size_at a.0) (drop a.0 memory)
    pub sized : length a.1 ≡ size_at a.0
    pub inside : a.0 + size_at a.0 ≤ length memory

  -- The block agrees with the memory where something has come in.
  pub record Agrees (c : Combination) : Type 0 where
    pub sized : length c.memory ≡ length memory
    pub same :
        (start : ℕ)
        → was_recved start c.recved ≡ true
        → (i : ℕ) → start ≤ i
        → i < start + size_at start
        → get_elem? c.memory i ≡ get_elem? memory i

  part_byte :
      (a : ℕ × List ℕ)
      → IsPart a
      → (i : ℕ) → a.0 ≤ i
      → i < a.0 + size_at a.0
      → get_elem? a.1 (i - a.0) ≡ get_elem? memory i
  part_byte a p i h k =
      ap (λ l. get_elem? l (i - a.0)) p.content ∙ get_elem?-range memory a.0 (size_at a.0) i h k

  -- A part written over a block that agrees.
  written :
      (a : ℕ × List ℕ) (block : List ℕ) (i : ℕ)
      → IsPart a
      → length block ≡ length memory
      → ((i < a.0) ⊎ (a.0 + size_at a.0 ≤ i) → get_elem? block i ≡ get_elem? memory i)
      → get_elem? (overlay block a.0 a.1) i ≡ get_elem? memory i
  written a block i p h same = elim (range i) [
    | inl inside ↦
        get_elem?-overlay_inside block a.1 a.0 i fits inside.0 (omega (arith, p.sized, inside.1))
        ∙ part_byte a p i inside.0 inside.1
    | inr outside ↦
        get_elem?-overlay_outside block a.1 a.0 i fits (ground (arith, p.sized, outside))
        ∙ same outside
  ]
    where
      fits : a.0 + length a.1 ≤ length block
      fits = omega (arith, p.sized, p.inside)

      range :
          (i : ℕ) → ((a.0 ≤ i) × (i < a.0 + size_at a.0)) ⊎ ((i < a.0) ⊎ (a.0 + size_at a.0 ≤ i))
      range i = ground arith

  -- One insert: no fault, the block still agrees, and the start is among those received.
  pub insert_step :
      (a : ℕ × List ℕ) (c : Combination)
      → IsPart a
      → Agrees c
      → (c1 : Combination) × (insert a.0 a.1 c ≡ some c1)
        × Agrees c1
        × (was_recved a.0 c1.recved ≡ true)
        × ((s : ℕ) → was_recved s c.recved ≡ true → was_recved s c1.recved ≡ true)
  unfolding insert was_recved
  insert_step a c p v = elim (Bool-cases (was_recved a.0 c.recved)) [
    | inl old ↦ (c, rw old refl, v, old, λ s h. h)
    | inr new ↦
        let fits : a.0 + length a.1 ≤ length c.memory = omega (arith, v.sized, p.sized, p.inside) in
        let whole : take (length a.1) a.1 ≡ a.1 = take_all (length a.1) a.1 (omega arith) in
        let c1 : Combination = record c {
          memory = overlay c.memory a.0 a.1;
          avaliable_memory = add_size c.avaliable_memory (length a.1);
          recved = a.0 ∷ c.recved;
        } in
        (
          c1,
          rw new
              (rw (mymemcpy_lem c.memory a.0 a.1 (length a.1) (omega arith) fits) (rw whole refl)),
          record {
            sized = length-overlay c.memory a.1 a.0 fits ∙ v.sized;
            same = λ start got i h k.
                written a c.memory i p v.sized
                  (λ outside. v.same start (other start i h k outside got) i h k);
          },
          rw (==_refl a.0) refl,
          λ s h. keep s h,
        )
  ]
    where
      keep : (s : ℕ) → was_recved s c.recved ≡ true → was_recved s (a.0 ∷ c.recved) ≡ true
      keep s h = ground arith

      other :
          (start i : ℕ)
          → start ≤ i
          → i < start + size_at start
          → (i < a.0) ⊎ (a.0 + size_at a.0 ≤ i)
          → was_recved start (a.0 ∷ c.recved) ≡ true
          → was_recved start c.recved ≡ true
      other start i h k outside got = elim (Bool-cases (start == a.0)) [
        | inl same ↦
            let is = (==_iff start a.0).0 same in absurd (omega (arith, is, ap size_at is, outside))
        | inr differ ↦ rw differ at got
      ]

  inserts :
      (arrivals : List (ℕ × List ℕ)) (c : Combination)
      → All IsPart arrivals
      → Agrees c
      → (c1 : Combination) × (insert_all arrivals c ≡ some c1)
        × Agrees c1
        × All (λ a. was_recved a.0 c1.recved ≡ true) arrivals
        × ((s : ℕ) → was_recved s c.recved ≡ true → was_recved s c1.recved ≡ true)
  unfolding insert_all
  inserts [] c p v = (c, refl, v, tt, λ s h. h)
  inserts (a ∷ arrivals) c p v =
      let (c1, one, v1, first, kept) = insert_step a c p.0 v in
      let (c2, rest, v2, all, kept2) = inserts arrivals c1 p.1 v1 in
      (c2, rw one rest, v2, (kept2 a.0 first, all), λ s h. kept2 s (kept s h))

  covered :
      (c : Combination) (i : ℕ) (arrivals : List (ℕ × List ℕ))
      → All IsPart arrivals
      → All (λ a. was_recved a.0 c.recved ≡ true) arrivals
      → Agrees c
      → Covers i arrivals
      → get_elem? c.memory i ≡ get_elem? memory i
  covered c i _ p got v (here start content arrivals h k) =
      v.same start got.0 i h (omega (arith, p.0.sized))
  covered c i _ p got v (there a arrivals more) = covered c i arrivals p.1 got.1 v more

-- Slices of a message, each as long as its start says, that together cover it, inserted in any
-- order and any number of times into a block of the message's size: no insert faults, and the block
-- is the message.
pub insert_all_lem :
    (memory block : List ℕ) (size_at : ℕ → ℕ) (arrivals : List (ℕ × List ℕ))
    → length block ≡ length memory
    → All (IsPart memory size_at) arrivals
    → ((i : ℕ) → i < length memory → Covers i arrivals)
    → (c : Combination) × (insert_all arrivals (combine block) ≡ some c) × (c.memory ≡ memory)
unfolding combine was_recved
insert_all_lem memory block size_at arrivals h p covers =
    let start : Agrees memory size_at (combine block) = record {
      sized = h;
      same = λ s got. absurd (cc);
    } in
    let (c, is, v, got, kept) = inserts memory size_at arrivals (combine block) p start in
    (
      c,
      is,
      get_elem?-ext c.memory memory v.sized
          (λ i k. covered memory size_at c i arrivals p got v (covers i (omega (arith, v.sized)))),
    )
