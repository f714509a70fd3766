-- ===== src/Bitmap/Interface.antt =====
-- What dynamic_bitmap.cpp relies on of `boost::dynamic_bitset<unsigned long>`: its operations as
-- documented. `test` and `set` are meant for positions below `size` only.
use isu_net.Base.{
  Bool, List, [], ap, arith, false, if◌then◌else◌, length, length-append, length-replicate, refl,
  replicate, suc, zero, ℕ, ◌++◌, ◌+◌, ◌<◌, ◌∷◌, ◌≡◌, ◌≢◌, ◌≤◌,
}

-- `unsigned long` has 32 bits on the platform.
abbrev pub bits_per_block : ℕ
bits_per_block = 32

pub record Bitset (Bits : Type 0) : Type 0 where
  pub make : ℕ → Bits
  pub size : Bits → ℕ
  pub count : Bits → ℕ
  pub test : Bits → ℕ → Bool
  pub set : Bits → ℕ → Bool → Bits
  pub append_zero : Bits → Bits
  pub push_back : Bits → Bool → Bits
  pub size-make : (n : ℕ) → size (make n) ≡ n
  pub test-make : (n i : ℕ) → i < n → test (make n) i ≡ false
  pub size-set : (s : Bits) (i : ℕ) (v : Bool) → size (set s i v) ≡ size s
  pub test-set_self : (s : Bits) (i : ℕ) (v : Bool) → i < size s → test (set s i v) i ≡ v
  pub test-set_ne :
      (s : Bits) (i j : ℕ) (v : Bool) → i ≢ j → j < size s → test (set s i v) j ≡ test s j
  pub size-append_zero : (s : Bits) → size (append_zero s) ≡ size s + bits_per_block
  pub test-append_zero_old : (s : Bits) (i : ℕ) → i < size s → test (append_zero s) i ≡ test s i
  pub test-append_zero_new :
      (s : Bits) (i : ℕ) → size s ≤ i → i < size s + bits_per_block → test (append_zero s) i ≡ false
  pub size-push_back : (s : Bits) (v : Bool) → size (push_back s v) ≡ size s + 1
  pub test-push_back_old :
      (s : Bits) (i : ℕ) (v : Bool) → i < size s → test (push_back s v) i ≡ test s i
  pub test-push_back_new : (s : Bits) (v : Bool) → test (push_back s v) (size s) ≡ v

-- Lists of bits meet the interface.
abbrev bit_at : List Bool → ℕ → Bool
bit_at [] i = false
bit_at (b ∷ bs) zero = b
bit_at (b ∷ bs) (suc i) = bit_at bs i

abbrev set_bit : List Bool → ℕ → Bool → List Bool
set_bit [] i v = []
set_bit (b ∷ bs) zero v = v ∷ bs
set_bit (b ∷ bs) (suc i) v = b ∷ set_bit bs i v

abbrev count_bits : List Bool → ℕ
count_bits [] = 0
count_bits (b ∷ bs) = (if b then 1 else 0) + count_bits bs

pub bit_at-replicate : (n i : ℕ) → bit_at (replicate n false) i ≡ false
bit_at-replicate zero i = refl
bit_at-replicate (suc n) zero = refl
bit_at-replicate (suc n) (suc i) = bit_at-replicate n i

pub length-set_bit : (s : List Bool) (i : ℕ) (v : Bool) → length (set_bit s i v) ≡ length s
length-set_bit [] i v = refl
length-set_bit (b ∷ bs) zero v = refl
length-set_bit (b ∷ bs) (suc i) v = ap suc (length-set_bit bs i v)

pub bit_at-set_bit_self :
    (s : List Bool) (i : ℕ) (v : Bool) → i < length s → bit_at (set_bit s i v) i ≡ v
bit_at-set_bit_self [] i v h = absurd (omega arith)
bit_at-set_bit_self (b ∷ bs) zero v h = refl
bit_at-set_bit_self (b ∷ bs) (suc i) v h = bit_at-set_bit_self bs i v (omega arith)

pub bit_at-set_bit_ne :
    (s : List Bool) (i j : ℕ) (v : Bool) → i ≢ j → bit_at (set_bit s i v) j ≡ bit_at s j
bit_at-set_bit_ne [] i j v h = refl
bit_at-set_bit_ne (b ∷ bs) zero zero v h = absurd (h refl)
bit_at-set_bit_ne (b ∷ bs) zero (suc j) v h = refl
bit_at-set_bit_ne (b ∷ bs) (suc i) zero v h = refl
bit_at-set_bit_ne (b ∷ bs) (suc i) (suc j) v h = bit_at-set_bit_ne bs i j v (λ e. h (ap suc e))

pub bit_at-append_old : (s t : List Bool) (i : ℕ) → i < length s → bit_at (s ++ t) i ≡ bit_at s i
bit_at-append_old [] t i h = absurd (omega arith)
bit_at-append_old (b ∷ bs) t zero h = refl
bit_at-append_old (b ∷ bs) t (suc i) h = bit_at-append_old bs t i (omega arith)

pub bit_at-append_zeros :
    (s : List Bool) (n i : ℕ) → length s ≤ i → bit_at (s ++ replicate n false) i ≡ false
bit_at-append_zeros [] n i h = bit_at-replicate n i
bit_at-append_zeros (b ∷ bs) n zero h = absurd (omega arith)
bit_at-append_zeros (b ∷ bs) n (suc i) h = bit_at-append_zeros bs n i (omega arith)

pub bit_at-append_end : (s : List Bool) (v : Bool) → bit_at (s ++ v ∷ []) (length s) ≡ v
bit_at-append_end [] v = refl
bit_at-append_end (b ∷ bs) v = bit_at-append_end bs v

instance abbrev pub list_bitset : Bitset (List Bool)
list_bitset = record {
  make = λ n. replicate n false;
  size = length;
  count = count_bits;
  test = bit_at;
  set = set_bit;
  append_zero = λ s. s ++ replicate 32 false;
  push_back = λ s v. s ++ v ∷ [];
  size-make = λ n. length-replicate n false;
  test-make = λ n i h. bit_at-replicate n i;
  size-set = length-set_bit;
  test-set_self = bit_at-set_bit_self;
  test-set_ne = λ s i j v h _. bit_at-set_bit_ne s i j v h;
  size-append_zero = λ s. length-append s (replicate 32 false);
  test-append_zero_old = λ s. bit_at-append_old s (replicate 32 false);
  test-append_zero_new = λ s i h _. bit_at-append_zeros s 32 i h;
  size-push_back = λ s v. length-append s (v ∷ []);
  test-push_back_old = λ s i v. bit_at-append_old s (v ∷ []) i;
  test-push_back_new = bit_at-append_end;
}
