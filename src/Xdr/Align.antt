-- ===== src/Xdr/Align.antt =====
-- sul-serialize/sul-serialize/xdr/xdr.hpp, `xdr_align`.
use isu_net.Base.{
  add_size, arith, bit_and_align, size_mod, sub_size, ℕ, ◌*◌, ◌+◌, ◌/◌, ◌<◌, ◌≡◌, ◌≤◌,
}
use isu_net.Xdr.{xdr_align}

-- For sizes to which the alignment can be added: the least multiple of four that is not below.
pub xdr_align_lem :
    (size : ℕ)
    → size + 4 < size_mod
    → (n : ℕ) × (xdr_align size ≡ n * 4) × (size ≤ n * 4) × (n * 4 < size + 4)
unfolding xdr_align
xdr_align_lem size small =
    let sum : sub_size (add_size size 4) 1 ≡ size + 3 = omega arith in
    ((size + 3) / 4, rw sum (bit_and_align (size + 3) (omega arith)), omega arith, omega arith)
