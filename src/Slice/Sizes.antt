-- ===== src/Slice/Sizes.antt =====
-- ex-utility/src/slice.cpp: how much room the slices take.
use isu_net.Base.{
  add_size, ap, arith, false, ltb, mul_size, size_mod, some, sub_size, suc, ℕ, ◌%◌, ◌*◌, ◌+◌, ◌-◌,
  ◌/◌, ◌<◌, ◌∙◌, ◌≡◌, ◌≤◌,
}
use isu_net.Slice.{sizeof_slice_head, ceil_div, how_many_slice, compute_seralize_size}

last_slice : (x p : ℕ) → x < size_mod → add_size (p % size_mod) (sub_size x (p % size_mod)) ≡ x
last_slice x p h = omega arith

ceil_bounds :
    (n d room : ℕ)
    → room ≡ suc d
    → (n ≤ (n + d) / suc d * room) × ((n + d) / suc d * room < n + room)
ceil_bounds n d room h = rw h (ground arith)

-- The room in a slice is `suc d`.
sizes_with_room :
    (data_size slice_size keep d : ℕ)
    → slice_size < size_mod
    → slice_size ≡ keep + sizeof_slice_head + suc d
    → compute_seralize_size data_size slice_size keep
      ≡ some ((data_size + (keep + sizeof_slice_head) * ((data_size + d) / suc d)) % size_mod)
unfolding compute_seralize_size how_many_slice ceil_div
sizes_with_room data_size slice_size keep d k h =
    let head = keep + sizeof_slice_head in
    let room : slice_size - head ≡ suc d = omega arith in
    let small : add_size keep sizeof_slice_head ≡ head = omega arith in
    let fits : ltb slice_size head ≡ false = ground arith in
    let count = (data_size + d) / suc d in
    let size_with_head = add_size data_size (mul_size head count) in
    let sum : size_with_head ≡ (data_size + head * count) % size_mod = omega arith in
    rw (small, fits, room)
      (ap some (last_slice size_with_head (sub_size count 1 * slice_size) (omega arith) ∙ sum))

-- With room for data in each slice and slices below 2^32 bytes, the size computed is the data and
-- one head for each slice, as a 32-bit number, where each slice but the last is full: the number of
-- slices is the least that holds the data.
pub compute_seralize_size_lem :
    (data_size slice_size keep : ℕ)
    → keep + sizeof_slice_head < slice_size
    → slice_size < size_mod
    → (count : ℕ) × (compute_seralize_size data_size slice_size keep
        ≡ some ((data_size + (keep + sizeof_slice_head) * count) % size_mod))
      × (data_size ≤ count * (slice_size - (keep + sizeof_slice_head)))
      × (count * (slice_size - (keep + sizeof_slice_head))
          < data_size + (slice_size - (keep + sizeof_slice_head)))
compute_seralize_size_lem data_size slice_size keep h k =
    let d = slice_size - (keep + sizeof_slice_head) - 1 in
    let room : slice_size - (keep + sizeof_slice_head) ≡ suc d = omega arith in
    let (low, high) = ceil_bounds data_size d (slice_size - (keep + sizeof_slice_head)) room in
    (
      (data_size + d) / suc d,
      sizes_with_room data_size slice_size keep d k (omega arith),
      low,
      high,
    )
