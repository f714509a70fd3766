-- ===== src/Xdr.antt =====
-- sul-serialize/sul-serialize/xdr/xdr.hpp and xdr_convert.hpp: objects that are aligned to four
-- bytes, of a fixed length or with their length in front. A value is the list of its bytes.
pub mod Align
pub mod Lengths
use isu_net.Base.{
  Bool, List, Option, add_size, bit_and, drop, false, if◌then◌else◌, le_bytes, le_value, length,
  ltb, mymemcpy, none, some, sub_size, take, true, ℕ, ◌*◌, ◌+◌, ◌>>=◌,
}

-- `XDR_MININUM_ALIGN`.
abbrev pub xdr_mininum_align : ℕ
xdr_mininum_align = 4

-- `XDR_MAXINUM_FIXED_LENGTH_OPAQUE_DATA_LENGTH`.
abbrev pub xdr_maxinum_length : ℕ
xdr_maxinum_length = 8192

-- `~(XDR_MININUM_ALIGN - 1)`.
abbrev pub align_mask : ℕ
align_mask = 4294967292

unfoldable pub xdr_align : ℕ → ℕ
xdr_align size = bit_and (sub_size (add_size size xdr_mininum_align) 1) align_mask

-- `ex_length`, for an object of fixed length or not.
abbrev pub ex_length : Bool → ℕ
ex_length fixed = (if fixed then 0 else 1) * xdr_mininum_align

-- `archived_size`; `none` is `std::invalid_argument`.
unfoldable pub archived_size : Bool → List ℕ → Option ℕ
unfolding xdr_align
archived_size fixed value =
    let size = xdr_align (length value) in
    if ltb xdr_maxinum_length size then none else some (add_size size (ex_length fixed))

-- `archive_to_with_size` at a place in the buffer: what it returns, and the buffer. `none` is a
-- read past the value or a write past the buffer.
unfoldable pub archive_to_with_size : Bool → List ℕ → ℕ → List ℕ → ℕ → Option (ℕ × List ℕ)
archive_to_with_size true buffer pos value result = do
  buffer1 ← mymemcpy buffer pos value result
  some (result, buffer1)
archive_to_with_size false buffer pos value result = do
  buffer1 ← mymemcpy buffer pos (le_bytes (length value)) 4
  buffer2 ← mymemcpy buffer1 (pos + 4) value (length value)
  some (add_size (length value) 4, buffer2)

-- `rarchive_with_size`: what it returns, and the value. `none` is a read past the buffer, whose
-- size is passed and never looked at.
unfoldable pub rarchive_with_size : Bool → List ℕ → ℕ → Option (ℕ × List ℕ)
unfolding xdr_align
rarchive_with_size true buffer value_size =
    if ltb (length buffer) value_size
    then none
    else some (xdr_align value_size, take value_size buffer)
rarchive_with_size false buffer value_size = do
  count ← le_value buffer
  let rest = drop 4 buffer
  if ltb (length rest) count then none else some (add_size 4 (xdr_align count), take count rest)
