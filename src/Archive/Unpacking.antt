-- ===== src/Archive/Unpacking.antt =====
-- sul-serialize/src/archive_packages.cpp, `packages_analysis`: the packages found again.
use isu_net.Base.{
  ==_iff, ==_ne, List, [], add_size, ap, append_assoc, arith, drop, drop-append_length, false, inl,
  inr, le_bytes, le_value, le_value-le_bytes, length, length-append, ltb, map, refl, size_mod, some,
  sym, take, take-append_length, true, ℕ, ◌++◌, ◌+◌, ◌<◌, ◌==◌, ◌∙◌, ◌∷◌, ◌≡◌, ◌≢◌, ◌⊎◌,
}
use isu_net.Slice.{Block, bytes_of}
use isu_net.Archive.{dynamic_analysis, PackagesAnalysis, add_block, generic}
use isu_net.Archive.Packing.{packed}

-- A package that the analysis can tell from the next: it has its size with it, or the size of all.
abbrev pub IsSized : ℕ → ℕ → List ℕ → Type 0
IsSized type size content =
    (type ≡ dynamic_analysis) ⊎ ((type ≢ dynamic_analysis) × (length content ≡ size) × (0 < size))

pub map_append :
    (f : Block → List ℕ) (xs : List Block) (b : Block) → map f (xs ++ b ∷ []) ≡ map f xs ++ f b ∷ []
map_append f [] b = refl
map_append f (x ∷ xs) b = ap (◌∷◌ (f x)) (map_append f xs b)

-- What stands behind some bytes.
bytes_behind :
    (before content after : List ℕ) (b : Block)
    → b.start ≡ length before
    → b.size ≡ length content
    → bytes_of (before ++ (content ++ after)) b ≡ content
bytes_behind before content after b at sized =
    ap (λ n. take n (drop b.start (before ++ (content ++ after)))) sized
    ∙ ap (λ n. take (length content) (drop n (before ++ (content ++ after)))) at
    ∙ ap (take (length content)) (drop-append_length before (content ++ after))
    ∙ take-append_length content after

-- One `_generic` with a package at the start.
pub generic-packed :
    (type size : ℕ) (before content after : List ℕ) (a : PackagesAnalysis)
    → a.memory ≡ before ++ (packed type content ++ after)
    → a.start ≡ length before
    → a.type ≡ type
    → a.avg_size ≡ size
    → length a.memory < size_mod
    → IsSized type size content
    → (b : Block) × (a1 : PackagesAnalysis) × (generic a ≡ some a1)
      × (a1.blocks ≡ a.blocks ++ b ∷ [])
      × (bytes_of a.memory b ≡ content)
      × (a1.memory ≡ a.memory)
      × (a1.start ≡ length (before ++ packed type content))
      × (a1.type ≡ a.type)
      × (a1.avg_size ≡ a.avg_size)
      × (a1.count ≡ a.count)
unfolding generic
generic-packed type size before content after a memory at typed avg small (inl analysis) =
    let same : (a.type == dynamic_analysis) ≡ true =
      (==_iff a.type dynamic_analysis).1 (typed ∙ analysis) in
    let front : packed type content ≡ le_bytes (length content) ++ content =
      rw ((==_iff type dynamic_analysis).1 analysis) refl in
    let whole : a.memory ≡ before ++ (le_bytes (length content) ++ (content ++ after)) =
      memory ∙ ap (λ l. before ++ (l ++ after)) front in
    let len : length a.memory ≡ length before + (4 + (length content + length after)) =
      ap length whole
      ∙ length-append before (le_bytes (length content) ++ (content ++ after))
      ∙ omega (arith, length-append content after) in
    let sized : le_value (drop a.start a.memory) ≡ some (length content) =
      ap le_value (
        ap (λ l. drop a.start l) whole
        ∙ ap (λ n. drop n (before ++ (le_bytes (length content) ++ (content ++ after)))) at
        ∙ drop-append_length before (le_bytes (length content) ++ (content ++ after)))
      ∙ le_value-le_bytes (length content) (content ++ after) (omega (arith, len)) in
    let more : (a.start == length a.memory) ≡ false = ground (arith, at, len) in
    let inside : ltb (length a.memory) a.start ≡ false = ground (arith, at, len) in
    let b : Block = record { start = add_size a.start 4; size = length content } in
    let behind : length (before ++ le_bytes (length content)) ≡ length before + 4 =
      length-append before (le_bytes (length content)) in
    (
      b,
      add_block (add_size a.start 4) (length content) a,
      rw (more, inside, same, sized) refl,
      refl,
      ap (λ l. bytes_of l b)
            (whole ∙ sym (append_assoc before (le_bytes (length content)) (content ++ after)))
          ∙ bytes_behind (before ++ le_bytes (length content)) content after b
              (omega (arith, behind, at, len)) refl,
      refl,
      omega (
        arith,
        at,
        len,
        ap (λ l. length (before ++ l)) front,
        length-append before (le_bytes (length content) ++ content),
      ),
      refl,
      refl,
      refl,
    )
generic-packed type size before content after a memory at typed avg small
      (inr (other, sized, filled)) =
    let differ : (a.type == dynamic_analysis) ≡ false =
      ==_ne a.type dynamic_analysis (λ e. other (sym typed ∙ e)) in
    let front : packed type content ≡ content = rw (==_ne type dynamic_analysis other) refl in
    let whole : a.memory ≡ before ++ (content ++ after) =
      memory ∙ ap (λ l. before ++ (l ++ after)) front in
    let len : length a.memory ≡ length before + (length content + length after) =
      ap length whole
      ∙ length-append before (content ++ after)
      ∙ omega (arith, length-append content after) in
    let more : (a.start == length a.memory) ≡ false = ground (arith, at, len, sized, filled) in
    let inside : ltb (length a.memory) a.start ≡ false = ground (arith, at, len) in
    let b : Block = record { start = a.start; size = a.avg_size } in
    (
      b,
      add_block a.start a.avg_size a,
      rw (more, inside, differ) refl,
      refl,
      ap (λ l. bytes_of l b) whole ∙ bytes_behind before content after b at (avg ∙ sym sized),
      refl,
      omega (
        arith,
        at,
        avg,
        sized,
        len,
        ap (λ l. length (before ++ l)) front,
        length-append before content,
      ),
      refl,
      refl,
      refl,
    )
