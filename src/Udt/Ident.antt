-- ===== src/Udt/Ident.antt =====
-- isu-net/src/udt.cpp, the `_group_ident` in front of a slice: `send_block`'s head generator writes
-- it, and `recv` reads it. It has 28 bytes: three numbers, and 16 bytes for the locker and the
-- node.
use isu_net.Base.{
  List, Option, ap, append_assoc, arith, drop, drop-append_length, false, if◌then◌else◌, le_bytes,
  le_value, le_value-le_bytes, length, length-append, ltb, none, refl, size_mod, some, sym, ℕ, ◌++◌,
  ◌+◌, ◌<◌, ◌>>=◌, ◌∙◌, ◌≡◌,
}
use isu_net.Udt.{GroupIdent}

abbrev pub sizeof_group_ident : ℕ
sizeof_group_ident = 28

-- The bytes of a `_group_ident`; `links` are those of its locker and its node.
unfoldable pub ident_bytes : List ℕ → GroupIdent → List ℕ
ident_bytes links ident =
    le_bytes ident.group_id ++ (le_bytes ident.slice_start ++ (le_bytes ident.data_size ++ links))

-- `slicer_head_gen`: `reserve` is what `fill` leaves in the front for the core's head. The packages
-- are dynamic, so `push_back` puts the ident behind it without anything more. `send_block` writes
-- over the links later, which the peer does not look at.
unfoldable pub slicer_head_gen : List ℕ → List ℕ → ℕ → ℕ → ℕ → ℕ → List ℕ
unfolding ident_bytes
slicer_head_gen reserve links group_id data_size slice_id data_start =
    reserve
    ++ ident_bytes links
        (record { group_id = group_id; slice_start = data_start; data_size = data_size })

-- The ident in front of the bytes from `begin` on, and what is behind it; `none` is a read past the
-- end.
unfoldable pub read_ident : List ℕ → Option (GroupIdent × List ℕ)
read_ident bytes = do
  group_id ← le_value bytes
  slice_start ← le_value (drop 4 bytes)
  data_size ← le_value (drop 8 bytes)
  if ltb (length bytes) sizeof_group_ident
      then none
      else some (
        record { group_id = group_id; slice_start = slice_start; data_size = data_size },
        drop sizeof_group_ident bytes,
      )

read_ident-steps :
    (g s d : ℕ) (bytes : List ℕ)
    → le_value bytes ≡ some g
    → le_value (drop 4 bytes) ≡ some s
    → le_value (drop 8 bytes) ≡ some d
    → ltb (length bytes) sizeof_group_ident ≡ false
    → read_ident bytes
      ≡ some
          (record { group_id = g; slice_start = s; data_size = d }, drop sizeof_group_ident bytes)
unfolding read_ident
read_ident-steps g s d bytes first second third long =
    rw first (rw second (rw third (rw long refl)))

read_ident-ident_bytes :
    (links content : List ℕ) (ident : GroupIdent)
    → length links ≡ 16
    → ident.group_id < size_mod
    → ident.slice_start < size_mod
    → ident.data_size < size_mod
    → read_ident (ident_bytes links ident ++ content) ≡ some (ident, content)
unfolding ident_bytes
read_ident-ident_bytes links content ident len g s d =
    let behind = links ++ content in
    let third = le_bytes ident.data_size ++ behind in
    let second = le_bytes ident.slice_start ++ third in
    let whole = le_bytes ident.group_id ++ second in
    let long : ltb (length whole) sizeof_group_ident ≡ false =
      ground (arith, length-append links content, len) in
    read_ident-steps ident.group_id ident.slice_start ident.data_size whole
      (le_value-le_bytes ident.group_id second g) (le_value-le_bytes ident.slice_start third s)
      (le_value-le_bytes ident.data_size behind d) long
    ∙ ap (λ n. some (ident, drop n behind)) (sym len)
    ∙ ap (λ l. some (ident, l)) (drop-append_length links content)

-- What the generator writes is read behind the reserved front.
pub read_ident-slicer_head_gen :
    (reserve links content : List ℕ) (group_id data_size slice_id start : ℕ)
    → length links ≡ 16
    → group_id < size_mod
    → start < size_mod
    → data_size < size_mod
    → read_ident (
        drop
          (length reserve)
          (slicer_head_gen reserve links group_id data_size slice_id start ++ content))
      ≡ some (record { group_id = group_id; slice_start = start; data_size = data_size }, content)
unfolding slicer_head_gen
read_ident-slicer_head_gen reserve links content group_id data_size slice_id start len g s d =
    let ident : GroupIdent = record {
      group_id = group_id;
      slice_start = start;
      data_size = data_size;
    } in
    ap (λ l. read_ident (drop (length reserve) l))
      (append_assoc reserve (ident_bytes links ident) content)
    ∙ ap read_ident (drop-append_length reserve (ident_bytes links ident ++ content))
    ∙ read_ident-ident_bytes links content ident len g s d

pub length-slicer_head_gen :
    (reserve links : List ℕ) (group_id data_size slice_id start : ℕ)
    → length links ≡ 16
    → length (slicer_head_gen reserve links group_id data_size slice_id start)
      ≡ length reserve + sizeof_group_ident
unfolding slicer_head_gen ident_bytes
length-slicer_head_gen reserve links group_id data_size slice_id start len =
    length-append reserve _ ∙ omega (arith, len)
