-- ===== src/Bitmap.antt =====
-- ex-utility/src/dynamic_bitmap.cpp: a bitmap that grows when a bit past its end is touched. The
-- bits are a `boost::dynamic_bitset<unsigned long>`, which is not part of the repository: it is the
-- interface `Bitset` of the child `Interface`. `none` is an access past the end, which the bitset
-- does not allow.
pub mod Interface
pub mod Growth
pub mod Access
use isu_net.Base.{
  Bool, Option, if◌then◌else◌, leb, ltb, none, not, some, suc, true, zero, ℕ, ◌&&◌, ◌*◌, ◌+◌, ◌/◌,
  ◌>>=◌,
}
use Interface.{Bitset, bits_per_block}

-- The blocks that `_try_extern` adds to a bitmap of `now` bits.
abbrev pub extern_blocks : ℕ → ℕ
extern_blocks now = now * 2 / bits_per_block + 1

module _ {Bits : Type 0} ⦃B : Bitset Bits⦄ where
  -- `dynamic_bitmap(size_t reserve)`
  unfoldable pub create : ℕ → Bits
  create reserve = B.make reserve

  unfoldable pub size : Bits → ℕ
  size s = B.size s

  unfoldable pub count : Bits → ℕ
  count s = B.count s

  unfoldable pub have_bit : Bits → ℕ → Bool
  have_bit s pos = ltb pos (B.size s)

  unfoldable pub just_test : Bits → ℕ → Option Bool
  just_test s pos = if ltb pos (B.size s) then some (B.test s pos) else none

  -- `have_bit(pos) && just_test(pos) == true`: the second test runs only if the first holds.
  unfoldable pub have : Bits → ℕ → Bool
  unfolding have_bit
  have s pos = have_bit s pos && B.test s pos

  -- `just_set` returns the old value; so does `just_test_and_set`, which only ever sets.
  unfoldable pub just_set : Bits → ℕ → Bool → Option (Bool × Bits)
  unfolding just_test
  just_set s pos val = do old ← just_test s pos; some (old, B.set s pos val)

  unfoldable pub just_test_and_set : Bits → ℕ → Option (Bool × Bits)
  unfolding just_test
  just_test_and_set s pos = do
    result ← just_test s pos
    some (result, (if not result then B.set s pos true else s))

  -- `for (start = 0; start != block; ++start) _set.append(0);`
  unfoldable pub append_blocks : ℕ → Bits → Bits
  append_blocks zero s = s
  append_blocks (suc n) s = append_blocks n (B.append_zero s)

  unfoldable pub try_extern : Bits → ℕ → Bits
  unfolding append_blocks
  try_extern s pos = if leb (B.size s) pos then append_blocks (extern_blocks (B.size s)) s else s

  -- `test` grows the bitmap too.
  unfoldable pub test : Bits → ℕ → Option (Bool × Bits)
  unfolding try_extern just_test
  test s pos = let s' = try_extern s pos in do result ← just_test s' pos; some (result, s')

  unfoldable pub test_and_set : Bits → ℕ → Option (Bool × Bits)
  unfolding try_extern just_test_and_set
  test_and_set s pos = just_test_and_set (try_extern s pos) pos

  unfoldable pub set : Bits → ℕ → Bool → Option (Bool × Bits)
  unfolding try_extern just_set
  set s pos val = just_set (try_extern s pos) pos val

  unfoldable pub push_back : Bits → Bool → Bits
  push_back s val = B.push_back s val

  -- `arrange` copies the bits one by one into a bitset of the same size.
  pub arrange_from : ℕ → Bits → Bits → Bits
  arrange_from zero s tmp = tmp
  arrange_from (suc n) s tmp = B.set (arrange_from n s tmp) n (B.test s n)

  unfoldable pub arrange : Bits → ℕ × Bits
  unfolding arrange_from
  arrange s = (B.size s, arrange_from (B.size s) s (B.make (B.size s)))
