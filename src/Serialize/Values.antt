-- ===== src/Serialize/Values.antt =====
-- sul-serialize/sul-serialize/serialize.hpp: values through a block and back.
use isu_net.Base.{
  ==_ne, List, [], add_size, ap, append-nil, append_assoc, arith, drop, drop-append_length, false,
  find, find-put, find-put_self, if◌then◌else◌, length, length-append, length-overlay, ltb, map,
  mymemcpy_lem, overlay, put, refl, size_mod, some, subst, sym, take, take-append-drop,
  take-append_length, take-overlay, take_all, true, ℕ, ◌++◌, ◌+◌, ◌<◌, ◌∙◌, ◌∷◌, ◌≡◌, ◌≤◌,
}
use isu_net.Serialize.{
  size_of_argument, MetaProcess, fresh_process, archived_size, archive_to_real, archive_to,
  rarchive,
}

-- The bytes of the values, one after the other.
abbrev pub all_bytes : List (List ℕ) → List ℕ
all_bytes [] = []
all_bytes (arg ∷ args) = arg ++ all_bytes args

-- The elements of `_sizes` from `from` on are those of the values.
abbrev SizedFrom : ℕ → List (List ℕ) → MetaProcess → Type 0
SizedFrom from [] s = Unit
SizedFrom from (arg ∷ args) s =
    (find from s.sizes ≡ some (length arg)) × SizedFrom (from + 1) args s

SizedFrom-index :
    (from i : ℕ) (args : List (List ℕ)) (s : MetaProcess)
    → SizedFrom from args s
    → SizedFrom from args (record s { index = i })
SizedFrom-index from i [] s h = tt
SizedFrom-index from i (arg ∷ args) s h = (h.0, SizedFrom-index (from + 1) i args s h.1)

-- `archived_size` with room for the values: it keeps what was filled in and fills in theirs.
archived_size-room :
    (args : List (List ℕ)) (s : MetaProcess)
    → s.myindex + length args ≤ size_of_argument
    → length (all_bytes args) < size_mod
    → (s1 : MetaProcess) × (archived_size args s ≡ some (length (all_bytes args), s1))
      × (s1.index ≡ s.index)
      × ((i : ℕ) → i < s.myindex → find i s1.sizes ≡ find i s.sizes)
      × SizedFrom s.myindex args s1
unfolding archived_size
archived_size-room [] s room small = (s, refl, refl, λ i h. refl, tt)
archived_size-room (arg ∷ args) s room small =
    let len = length-append arg (all_bytes args) in
    let s1 : MetaProcess = record s {
      sizes = put s.myindex (length arg) s.sizes;
      myindex = s.myindex + 1;
    } in
    let (s2, is, index, kept, sized) =
      archived_size-room args s1 (omega arith) (omega (arith, len)) in
    let inside : ltb s.myindex size_of_argument ≡ true = ground arith in
    let sum : add_size (length arg) (length (all_bytes args)) ≡ length (arg ++ all_bytes args) =
      omega (arith, len, small) in
    (
      s2,
      rw (inside, is, sum) refl,
      index,
      λ i h.
          kept i (omega arith)
          ∙ find-put s.myindex i (length arg) s.sizes
          ∙ ap (λ b. if b then some (length arg) else find i s.sizes)
              (==_ne s.myindex i (λ e. omega (arith, e))),
      (kept s.myindex (omega arith) ∙ find-put_self s.myindex (length arg) s.sizes, sized),
    )

-- Writing the values at a place, given their sizes.
archive_to_real-sized :
    (args : List (List ℕ)) (pos : ℕ) (buffer : List ℕ) (s : MetaProcess)
    → SizedFrom s.index args s
    → pos + length (all_bytes args) ≤ length buffer
    → length buffer < size_mod
    → (buffer1 : List ℕ) × (s1 : MetaProcess) × (archive_to_real args pos buffer s
        ≡ some (length (all_bytes args), buffer1, s1))
      × (length buffer1 ≡ length buffer)
      × (take (pos + length (all_bytes args)) buffer1 ≡ take pos buffer ++ all_bytes args)
unfolding archive_to_real
archive_to_real-sized [] pos buffer s sized room small =
    let same : pos ≡ pos + 0 = omega arith in
    (buffer, s, refl, refl, ap (λ n. take n buffer) (sym same) ∙ sym (append-nil (take pos buffer)))
archive_to_real-sized (arg ∷ args) pos buffer s sized room small =
    let len = length-append arg (all_bytes args) in
    let copied =
      mymemcpy_lem buffer pos arg (length arg) (omega arith) (omega (arith, len, room)) in
    let whole = take_all (length arg) arg (omega arith) in
    let written = overlay buffer pos arg in
    let kept = length-overlay buffer arg pos (omega (arith, len, room)) in
    let (buffer2, s2, is, length_same, all) =
      archive_to_real-sized args (pos + length arg) written (record s { index = s.index + 1 })
        (SizedFrom-index (s.index + 1) (s.index + 1) args s sized.1)
        (omega (arith, len, kept, room)) (omega (arith, kept)) in
    let sum : add_size (length arg) (length (all_bytes args)) ≡ length (arg ++ all_bytes args) =
      omega (arith, len, room, small) in
    let end : pos + length (arg ++ all_bytes args) ≡ pos + length arg + length (all_bytes args) =
      omega (arith, len) in
    (
      buffer2,
      s2,
      rw (sized.0, copied, whole) (rw is (rw sum refl)),
      length_same ∙ kept,
      ap (λ n. take n buffer2) end
          ∙ all
          ∙ ap (λ l. l ++ all_bytes args) (take-overlay buffer arg pos (omega (arith, len, room)))
          ∙ append_assoc (take pos buffer) arg (all_bytes args),
    )

rarchive-all_bytes :
    (args : List (List ℕ)) (rest : List ℕ)
    → length (all_bytes args) < size_mod
    → rarchive (map length args) (all_bytes args ++ rest) ≡ some (args, length (all_bytes args))
unfolding rarchive
rarchive-all_bytes [] rest small = refl
rarchive-all_bytes (arg ∷ args) rest small =
    let len = length-append arg (all_bytes args) in
    let split : (arg ++ all_bytes args) ++ rest ≡ arg ++ (all_bytes args ++ rest) =
      append_assoc arg (all_bytes args) rest in
    let enough : ltb (length (arg ++ (all_bytes args ++ rest))) (length arg) ≡ false =
      ground (arith, length-append arg (all_bytes args ++ rest)) in
    let sum : add_size (length arg) (length (all_bytes args)) ≡ length (arg ++ all_bytes args) =
      omega (arith, len, small) in
    rw
      (
        split,
        enough,
        drop-append_length arg (all_bytes args ++ rest),
        take-append_length arg (all_bytes args ++ rest),
      )
      (rw (rarchive-all_bytes args rest (omega (arith, len))) (rw sum refl))

-- At most 20 values, in a buffer that holds them and is below 2^32 bytes: `archive_to` of a new
-- serialize returns their size, and `rarchive` for values of the same sizes gives them back.
pub rarchive-archive_to :
    (args : List (List ℕ)) (buffer : List ℕ)
    → length args ≤ size_of_argument
    → length (all_bytes args) ≤ length buffer
    → length buffer < size_mod
    → (buffer1 : List ℕ) × (s1 : MetaProcess) × (archive_to args buffer fresh_process
        ≡ some (length (all_bytes args), buffer1, s1))
      × (rarchive (map length args) buffer1 ≡ some (args, length (all_bytes args)))
unfolding archive_to
rarchive-archive_to args buffer count room small =
    let (s, sizes, index, kept, sized) =
      archived_size-room args fresh_process (omega arith) (omega arith) in
    let (buffer1, s1, is, same, all) =
      archive_to_real-sized args 0 buffer s (subst (λ i. SizedFrom i args s) (sym index) sized)
        (omega arith) small in
    let whole : all_bytes args ++ drop (length (all_bytes args)) buffer1 ≡ buffer1 =
      ap (λ l. l ++ drop (length (all_bytes args)) buffer1)
        (sym (ap (λ n. take n buffer1) (omega arith) ∙ all))
      ∙ take-append-drop (length (all_bytes args)) buffer1 in
    (
      buffer1,
      s1,
      rw sizes (rw is refl),
      ap (rarchive (map length args)) (sym whole)
          ∙ rarchive-all_bytes args (drop (length (all_bytes args)) buffer1) (omega arith),
    )
