-- ===== src/Bitmap/Access.antt =====
-- ex-utility/src/dynamic_bitmap.cpp: what a read or a write of the bitmap does to every bit.
use isu_net.Base.{
  Bool, arith, if◌then◌else◌, ltb, refl, some, suc, true, zero, ℕ, ◌<◌, ◌==◌, ◌∙◌, ◌≡◌, ◌≤◌,
}
use isu_net.Bitmap.Interface.{Bitset}
use isu_net.Bitmap.{
  try_extern, have, have_bit, just_test, just_set, just_test_and_set, set, test_and_set, arrange,
  arrange_from,
}
use isu_net.Bitmap.Growth.{have-try_extern}

module _ {Bits : Type 0} ⦃B : Bitset Bits⦄ where
  have-set_bit :
      (s : Bits) (pos j : ℕ) (v : Bool)
      → pos < B.size s
      → have (B.set s pos v) j ≡ (if j == pos then v else have s j)
  unfolding have have_bit
  have-set_bit s pos j v h =
      ground (arith, B.size-set s pos v, B.test-set_self s pos v, B.test-set_ne s pos j v)

  just_test_and_set_bit :
      (s : Bits) (pos j : ℕ) (old : Bool) (s' : Bits)
      → just_test_and_set s pos ≡ some (old, s')
      → (old ≡ have s pos) × (have s' j ≡ (if j == pos then true else have s j))
  unfolding just_test_and_set just_test have have_bit
  just_test_and_set_bit s pos j old s' e =
      ground (arith, B.size-set s pos true, B.test-set_self s pos true, B.test-set_ne s pos j true)

  just_set_bit :
      (s : Bits) (pos j : ℕ) (v old : Bool) (s' : Bits)
      → just_set s pos v ≡ some (old, s')
      → (old ≡ have s pos) × (have s' j ≡ (if j == pos then v else have s j))
  unfolding just_set just_test have have_bit
  just_set_bit s pos j v old s' e =
      ground (arith, B.size-set s pos v, B.test-set_self s pos v, B.test-set_ne s pos j v)

  -- When `test_and_set(pos)` does not fault, it reports the bit that was there (a bit past the end
  -- counts as not set), sets it, and leaves every other bit as it was.
  pub test_and_set_lem :
      (s : Bits) (pos : ℕ) (old : Bool) (s' : Bits)
      → test_and_set s pos ≡ some (old, s')
      → (old ≡ have s pos) × ((j : ℕ) → have s' j ≡ (if j == pos then true else have s j))
  unfolding test_and_set
  test_and_set_lem s pos old s' e = (
    (just_test_and_set_bit (try_extern s pos) pos pos old s' e).0 ∙ have-try_extern s pos pos,
    λ j. rw (← have-try_extern s pos j) (just_test_and_set_bit (try_extern s pos) pos j old s' e).1,
  )

  -- When `set(pos, v)` does not fault, it reports the bit that was there (a bit past the end counts
  -- as not set), stores `v`, and leaves every other bit as it was.
  pub set_lem :
      (s : Bits) (pos : ℕ) (v old : Bool) (s' : Bits)
      → set s pos v ≡ some (old, s')
      → (old ≡ have s pos) × ((j : ℕ) → have s' j ≡ (if j == pos then v else have s j))
  unfolding set
  set_lem s pos v old s' e = (
    (just_set_bit (try_extern s pos) pos pos v old s' e).0 ∙ have-try_extern s pos pos,
    λ j. rw (← have-try_extern s pos j) (just_set_bit (try_extern s pos) pos j v old s' e).1,
  )

  arrange_from-bits :
      (n : ℕ) (s tmp : Bits) (j : ℕ)
      → n ≤ B.size tmp
      → j < B.size tmp
      → (B.size (arrange_from n s tmp) ≡ B.size tmp)
        × (B.test (arrange_from n s tmp) j ≡ (if ltb j n then B.test s j else B.test tmp j))
  unfolding arrange_from
  arrange_from-bits zero s tmp j h k = ground arith
  arrange_from-bits (suc n) s tmp j h k = ground (
    arith,
    arrange_from-bits n s tmp j,
    B.size-set (arrange_from n s tmp) n (B.test s n),
    B.test-set_self (arrange_from n s tmp) n (B.test s n),
    B.test-set_ne (arrange_from n s tmp) n j (B.test s n),
  )

  arrange_from-size : (n : ℕ) (s tmp : Bits) → B.size (arrange_from n s tmp) ≡ B.size tmp
  unfolding arrange_from
  arrange_from-size zero s tmp = refl
  arrange_from-size (suc n) s tmp =
      B.size-set (arrange_from n s tmp) n (B.test s n) ∙ arrange_from-size n s tmp

  -- `arrange` keeps every bit and reports the size, which it does not change.
  have-arrange :
      (s : Bits) (j : ℕ)
      → (have (arrange s).1 j ≡ have s j)
        × ((arrange s).0 ≡ B.size s)
        × (B.size (arrange s).1 ≡ B.size s)
  unfolding arrange have have_bit
  have-arrange s j = ground (
    arith,
    B.size-make (B.size s),
    arrange_from-size (B.size s) s (B.make (B.size s)),
    arrange_from-bits (B.size s) s (B.make (B.size s)) j,
  )
