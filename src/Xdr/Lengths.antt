-- ===== src/Xdr/Lengths.antt =====
-- sul-serialize/sul-serialize/xdr/xdr_convert.hpp: objects with their length in front.
use isu_net.Base.{
  List, add_size, ap, append_assoc, arith, drop, drop-append_length, false, if◌then◌else◌, le_bytes,
  le_value-le_bytes, length, length-append, length-overlay, length-take, ltb, mymemcpy_lem, none,
  overlay, refl, size_mod, some, sym, take, take-append-drop, take-append_length, take-overlay,
  take_all, ℕ, ◌%◌, ◌++◌, ◌+◌, ◌<◌, ◌>>=◌, ◌∙◌, ◌≡◌, ◌≤◌,
}
use isu_net.Xdr.{
  xdr_maxinum_length, xdr_align, archived_size, archive_to_with_size, rarchive_with_size,
}
use isu_net.Xdr.Align.{xdr_align_lem}

-- What `archived_size` says of a value that is not too long.
archived_size-short :
    (value : List ℕ)
    → length value ≤ xdr_maxinum_length
    → (archived_size false value ≡ some (add_size 4 (xdr_align (length value))))
      × (length value ≤ xdr_align (length value))
unfolding archived_size
archived_size-short value short =
    let (n, is, low, high) = xdr_align_lem (length value) (omega arith) in
    let fits : ltb xdr_maxinum_length (xdr_align (length value)) ≡ false = ground (arith, is) in
    (rw fits (ap some (omega arith)), omega (arith, is))

-- Writing the length and the value.
written-both :
    (buffer value : List ℕ) (pos result : ℕ)
    → pos + (4 + length value) ≤ length buffer
    → length value < size_mod
    → (buffer2 : List ℕ) × (archive_to_with_size false buffer pos value result
        ≡ some (add_size (length value) 4, buffer2))
      × (length buffer2 ≡ length buffer)
      × (take (pos + 4 + length value) buffer2
          ≡ (take pos buffer ++ le_bytes (length value)) ++ value)
unfolding archive_to_with_size
written-both buffer value pos result room small =
    let word = le_bytes (length value) in
    let first = mymemcpy_lem buffer pos word 4 (omega arith) (omega arith) in
    let one = overlay buffer pos word in
    let kept = length-overlay buffer word pos (omega arith) in
    let second =
      mymemcpy_lem one (pos + 4) value (length value) (omega arith) (omega (arith, kept)) in
    let whole = take_all (length value) value (omega arith) in
    (
      overlay one (pos + 4) value,
      rw first (rw second (rw whole refl)),
      length-overlay one value (pos + 4) (omega (arith, kept)) ∙ kept,
      take-overlay one value (pos + 4) (omega (arith, kept))
          ∙ ap (λ l. l ++ value) (take-overlay buffer word pos (omega arith)),
    )

rarchive-front :
    (value tail : List ℕ) (value_size : ℕ)
    → length value < size_mod
    → rarchive_with_size false (le_bytes (length value) ++ (value ++ tail)) value_size
      ≡ some (add_size 4 (xdr_align (length value)), value)
unfolding rarchive_with_size
rarchive-front value tail value_size small =
    let enough : ltb (length (value ++ tail)) (length value) ≡ false =
      ground (arith, length-append value tail) in
    ap
      (λ o. o >>= λ count.
        if ltb (length (value ++ tail)) count
        then none
        else some (add_size 4 (xdr_align count), take count (value ++ tail)))
      (le_value-le_bytes (length value) (value ++ tail) small)
    ∙ ap
        (λ b.
          if b
          then none
          else some (add_size 4 (xdr_align (length value)), take (length value) (value ++ tail)))
        enough
    ∙ ap (λ l. some (add_size 4 (xdr_align (length value)), l)) (take-append_length value tail)

-- A value of at most 8192 bytes without a fixed length, and room for it and its length from a place
-- in the buffer: it has an archived size, `archive_to_with_size` returns, and reading from that
-- place gives the value back and steps over as many bytes as the archived size. The writer returns
-- the bytes written, without the padding: the archived size is the least multiple of four that is
-- not below it, so the two steps are the same when four divides the length, and differ otherwise.
pub rarchive_with_size-archive_to_with_size :
    (buffer value : List ℕ) (pos result value_size : ℕ)
    → length value ≤ xdr_maxinum_length
    → pos + (4 + length value) ≤ length buffer
    → (size : ℕ) × (buffer1 : List ℕ) × (archived_size false value ≡ some size)
      × (archive_to_with_size false buffer pos value result
          ≡ some (add_size (length value) 4, buffer1))
      × (rarchive_with_size false (drop pos buffer1) value_size ≡ some (size, value))
      × (size % 4 ≡ 0)
      × (add_size (length value) 4 ≤ size)
      × (size < add_size (length value) 4 + 4)
rarchive_with_size-archive_to_with_size buffer value pos result value_size short room =
    let (sized, low) = archived_size-short value short in
    let (n, padded, above, below) = xdr_align_lem (length value) (omega arith) in
    let (buffer1, is, same, all) = written-both buffer value pos result room (omega arith) in
    let tail = drop (pos + 4 + length value) buffer1 in
    let rest = le_bytes (length value) ++ (value ++ tail) in
    let whole : buffer1 ≡ take pos buffer ++ rest =
      sym (take-append-drop (pos + 4 + length value) buffer1)
      ∙ ap (λ l. l ++ tail) all
      ∙ append_assoc (take pos buffer ++ le_bytes (length value)) value tail
      ∙ append_assoc (take pos buffer) (le_bytes (length value)) (value ++ tail) in
    let front : length (take pos buffer) ≡ pos = omega (arith, length-take pos buffer) in
    let behind : drop pos buffer1 ≡ rest =
      ap (drop pos) whole
      ∙ ap (λ n. drop n (take pos buffer ++ rest)) (sym front)
      ∙ drop-append_length (take pos buffer) rest in
    (
      add_size 4 (xdr_align (length value)),
      buffer1,
      sized,
      is,
      ap (λ l. rarchive_with_size false l value_size) behind
          ∙ rarchive-front value tail value_size (omega arith),
      omega (arith, padded, above, below),
      omega (arith, padded, above, below),
      omega (arith, padded, above, below),
    )
