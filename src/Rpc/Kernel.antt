-- ===== src/Rpc/Kernel.antt =====
-- imou-rpc-kernel/imou-rpc-kernel/imouto_rpc_kernel.hpp: `imouto_rpc_kernel`, one bitmap of xids
-- for each address; an address is a number. The spinlock is free when an operation starts, since
-- none of them calls out while it holds it.
pub mod Marks
use isu_net.Base.{
  Bool, List, Option, false, find, if◌then◌else◌, none, not, put, some, sub_size, true, ℕ, ◌>>=◌,
}
use isu_net.Bitmap.Interface.{Bitset}
use isu_net.Bitmap.{create, have_bit, push_back, set, size, test}

-- What comes of an operation: a result, `std::invalid_argument`, or an access of the bitmap past
-- its end.
pub data Tried {ℓ} (A : Type ℓ) : Type ℓ where
  done : A → Tried A
  invalid_argument : Tried A
  fault : Tried A

unfoldable pub of_access {ℓ} : {A : Type ℓ} → Option A → Tried A
of_access none = fault
of_access (some a) = done a

module _ {Bits : Type 0} ⦃B : Bitset Bits⦄ where
  -- `_xidmap[from]`: a missing bitmap is made, with no bit.
  unfoldable pub bitmap_of : ℕ → List (ℕ × Bits) → Bits
  bitmap_of from m = elim (find from m) [ none ↦ create 0 | some s ↦ s ]

  unfoldable pub alloc_xid : ℕ → List (ℕ × Bits) → ℕ × List (ℕ × Bits)
  unfolding bitmap_of
  alloc_xid dest m =
      let s = push_back (bitmap_of dest m) false in (sub_size (size s) 1, put dest s m)

  -- `_get_iter`.
  unfoldable pub get_iter : ℕ → ℕ → List (ℕ × Bits) → Tried Bits
  get_iter from xid m = elim (find from m) [
    | none ↦ invalid_argument
    | some s ↦ if not (have_bit s xid) then invalid_argument else done s
  ]

  -- The bit that `set` reports, and the map.
  unfoldable pub store_bit : ℕ → ℕ → Bool → Bits → List (ℕ × Bits) → Tried (Bool × List (ℕ × Bits))
  unfolding of_access
  store_bit from xid value s m = of_access (set s xid value >>= λ r. some (r.0, put from r.1 m))

  unfoldable pub verify_xid : ℕ → ℕ → List (ℕ × Bits) → Tried (Bool × List (ℕ × Bits))
  unfolding get_iter store_bit
  verify_xid from xid m = elim (get_iter from xid m) [
    | done s ↦ elim (store_bit from xid true s m) [
      | done r ↦ done (not r.0, r.1)
      | invalid_argument ↦ invalid_argument
      | fault ↦ fault
    ]
    | invalid_argument ↦ invalid_argument
    | fault ↦ fault
  ]

  unfoldable pub set_xid : ℕ → ℕ → Bool → List (ℕ × Bits) → Tried (Bool × List (ℕ × Bits))
  unfolding bitmap_of store_bit
  set_xid from xid value m = store_bit from xid value (bitmap_of from m) m

  unfoldable pub get_xid : ℕ → ℕ → List (ℕ × Bits) → Tried (Bool × List (ℕ × Bits))
  unfolding get_iter of_access
  get_xid from xid m = elim (get_iter from xid m) [
    | done s ↦ of_access (test s xid >>= λ r. some (r.0, put from r.1 m))
    | invalid_argument ↦ invalid_argument
    | fault ↦ fault
  ]
