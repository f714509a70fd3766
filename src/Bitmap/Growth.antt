-- ===== src/Bitmap/Growth.antt =====
-- ex-utility/src/dynamic_bitmap.cpp, `_try_extern`: how far one call makes the bitmap grow, and
-- what the accesses that grow it can therefore reach.
use isu_net.Base.{
  Bool, Bool-cases, arith, false, if◌then◌else◌, inl, inr, leb, ltb, none, not, refl, some, suc,
  true, zero, ℕ, ◌*◌, ◌+◌, ◌<◌, ◌↔◌, ◌∙◌, ◌≡◌, ◌≤◌,
}
use isu_net.Bitmap.Interface.{Bitset, bits_per_block}
use isu_net.Bitmap.{
  extern_blocks, append_blocks, try_extern, have, have_bit, just_test, just_set, just_test_and_set,
  test, set, test_and_set,
}

-- The number of bits after `_try_extern` on a bitmap of `now` bits that is too short.
abbrev pub grown : ℕ → ℕ
grown now = now + extern_blocks now * bits_per_block

module _ {Bits : Type 0} ⦃B : Bitset Bits⦄ where
  pub size-append_blocks :
      (n : ℕ) (s : Bits) → B.size (append_blocks n s) ≡ B.size s + n * bits_per_block
  unfolding append_blocks
  size-append_blocks zero s = omega arith
  size-append_blocks (suc n) s =
      omega (arith, size-append_blocks n (B.append_zero s), B.size-append_zero s)

  pub test-append_blocks_old :
      (n : ℕ) (s : Bits) (i : ℕ) → i < B.size s → B.test (append_blocks n s) i ≡ B.test s i
  unfolding append_blocks
  test-append_blocks_old zero s i h = refl
  test-append_blocks_old (suc n) s i h =
      test-append_blocks_old n (B.append_zero s) i (omega (arith, B.size-append_zero s))
      ∙ B.test-append_zero_old s i h

  pub test-append_blocks_new :
      (n : ℕ) (s : Bits) (i : ℕ)
      → B.size s ≤ i
      → i < B.size s + n * bits_per_block
      → B.test (append_blocks n s) i ≡ false
  unfolding append_blocks
  test-append_blocks_new zero s i h k = absurd (omega arith)
  test-append_blocks_new (suc n) s i h k = elim (Bool-cases (ltb i (B.size (B.append_zero s)))) [
    | inl e ↦
        test-append_blocks_old n (B.append_zero s) i (ground arith)
        ∙ B.test-append_zero_new s i h (ground (arith, B.size-append_zero s))
    | inr e ↦
        test-append_blocks_new n (B.append_zero s) i (ground arith)
          (ground (arith, B.size-append_zero s))
  ]

  pub size-try_extern :
      (s : Bits) (pos : ℕ)
      → B.size (try_extern s pos) ≡ (if leb (B.size s) pos then grown (B.size s) else B.size s)
  unfolding try_extern
  size-try_extern s pos = ground (arith, size-append_blocks (extern_blocks (B.size s)) s)

  -- Growing a bitmap changes no bit: the new ones read as not set.
  pub have-try_extern : (s : Bits) (pos j : ℕ) → have (try_extern s pos) j ≡ have s j
  unfolding have have_bit try_extern
  have-try_extern s pos j = ground (
    arith,
    size-append_blocks (extern_blocks (B.size s)) s,
    test-append_blocks_old (extern_blocks (B.size s)) s j,
    test-append_blocks_new (extern_blocks (B.size s)) s j,
  )

  -- `test_and_set`, `set` and `test` fault on exactly the positions that are past the end of the
  -- bitmap and past the end of the bitmap after one growth step.
  pub test_and_set_fault :
      (s : Bits) (pos : ℕ)
      → (test_and_set s pos ≡ none ↔ grown (B.size s) ≤ pos)
        × ((v : Bool) → set s pos v ≡ none ↔ grown (B.size s) ≤ pos)
        × (test s pos ≡ none ↔ grown (B.size s) ≤ pos)
  unfolding test_and_set just_test_and_set set just_set test just_test
  test_and_set_fault s pos = ground (arith, size-try_extern s pos)

  -- A bitmap whose positions are touched in order never faults: a position that is at most the size
  -- is reached, and after the access the next position is reached too.
  test_and_set_in_order :
      (s : Bits) (pos : ℕ)
      → pos ≤ B.size s
      → (old : Bool) × (s' : Bits) × (test_and_set s pos ≡ some (old, s')) × (suc pos ≤ B.size s')
  unfolding test_and_set just_test_and_set just_test
  test_and_set_in_order s pos h =
      let s' = try_extern s pos in
      (
        B.test s' pos,
        (if not (B.test s' pos) then B.set s' pos true else s'),
        ground (arith, size-try_extern s pos),
        ground (arith, size-try_extern s pos, B.size-set s' pos true),
      )
