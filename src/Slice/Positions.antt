-- ===== src/Slice/Positions.antt =====
-- Bytes by their position: what a write into a block changes, and blocks that agree everywhere.
use isu_net.Base.{
  List, Option, [], ap, arith, drop, inl, inr, length, length-take, none, overlay, refl, some, suc,
  sym, take, zero, ℕ, ◌++◌, ◌+◌, ◌-◌, ◌<◌, ◌∙◌, ◌∷◌, ◌≡◌, ◌≤◌, ◌⊎◌,
}

abbrev pub get_elem? : List ℕ → ℕ → Option ℕ
get_elem? [] i = none
get_elem? (x ∷ xs) zero = some x
get_elem? (x ∷ xs) (suc i) = get_elem? xs i

pub get_elem?-ext :
    (xs ys : List ℕ)
    → length xs ≡ length ys
    → ((i : ℕ) → i < length xs → get_elem? xs i ≡ get_elem? ys i)
    → xs ≡ ys
get_elem?-ext [] [] h same = refl
get_elem?-ext [] (y ∷ ys) h same = absurd (omega arith)
get_elem?-ext (x ∷ xs) [] h same = absurd (omega arith)
get_elem?-ext (x ∷ xs) (y ∷ ys) h same =
    let first : some x ≡ some y = same 0 (omega arith) in
    let x_is : x ≡ y = cc in
    ap (λ z. z ∷ xs) x_is
    ∙ ap (◌∷◌ y) (get_elem?-ext xs ys (omega arith) (λ i k. same (suc i) (omega arith)))

get_elem?-append_left :
    (xs ys : List ℕ) (i : ℕ) → i < length xs → get_elem? (xs ++ ys) i ≡ get_elem? xs i
get_elem?-append_left [] ys i h = absurd (omega arith)
get_elem?-append_left (x ∷ xs) ys zero h = refl
get_elem?-append_left (x ∷ xs) ys (suc i) h = get_elem?-append_left xs ys i (omega arith)

get_elem?-append_right :
    (xs ys : List ℕ) (i : ℕ) → length xs ≤ i → get_elem? (xs ++ ys) i ≡ get_elem? ys (i - length xs)
get_elem?-append_right [] ys i h = let same : i ≡ i - 0 = omega arith in ap (get_elem? ys) same
get_elem?-append_right (x ∷ xs) ys zero h = absurd (omega arith)
get_elem?-append_right (x ∷ xs) ys (suc i) h =
    let same : suc i - suc (length xs) ≡ i - length xs = omega arith in
    get_elem?-append_right xs ys i (omega arith) ∙ ap (get_elem? ys) (sym same)

get_elem?-take : (n : ℕ) (xs : List ℕ) (i : ℕ) → i < n → get_elem? (take n xs) i ≡ get_elem? xs i
get_elem?-take zero xs i h = absurd (omega arith)
get_elem?-take (suc n) [] i h = refl
get_elem?-take (suc n) (x ∷ xs) zero h = refl
get_elem?-take (suc n) (x ∷ xs) (suc i) h = get_elem?-take n xs i (omega arith)

get_elem?-drop : (n : ℕ) (xs : List ℕ) (i : ℕ) → get_elem? (drop n xs) i ≡ get_elem? xs (n + i)
get_elem?-drop zero xs i = let same : i ≡ 0 + i = omega arith in ap (get_elem? xs) same
get_elem?-drop (suc n) [] i = refl
get_elem?-drop (suc n) (x ∷ xs) i =
    let same : suc n + i ≡ suc (n + i) = omega arith in
    get_elem?-drop n xs i ∙ ap (get_elem? (x ∷ xs)) (sym same)

-- The bytes of a range.
pub get_elem?-range :
    (memory : List ℕ) (start size i : ℕ)
    → start ≤ i
    → i < start + size
    → get_elem? (take size (drop start memory)) (i - start) ≡ get_elem? memory i
get_elem?-range memory start size i h k =
    let same : start + (i - start) ≡ i = omega arith in
    get_elem?-take size (drop start memory) (i - start) (omega arith)
    ∙ get_elem?-drop start memory (i - start)
    ∙ ap (get_elem? memory) same

-- Inside the write stands what was written.
pub get_elem?-overlay_inside :
    (dest src : List ℕ) (off i : ℕ)
    → off + length src ≤ length dest
    → off ≤ i
    → i < off + length src
    → get_elem? (overlay dest off src) i ≡ get_elem? src (i - off)
get_elem?-overlay_inside dest src off i h k j =
    let size : length (take off dest) ≡ off = omega (arith, length-take off dest) in
    get_elem?-append_right (take off dest) (src ++ drop (off + length src) dest) i (omega arith)
    ∙ ap (λ n. get_elem? (src ++ drop (off + length src) dest) (i - n)) size
    ∙ get_elem?-append_left src (drop (off + length src) dest) (i - off) (omega arith)

-- Outside it stands what stood there.
pub get_elem?-overlay_outside :
    (dest src : List ℕ) (off i : ℕ)
    → off + length src ≤ length dest
    → (i < off) ⊎ (off + length src ≤ i)
    → get_elem? (overlay dest off src) i ≡ get_elem? dest i
get_elem?-overlay_outside dest src off i h (inl before) =
    get_elem?-append_left (take off dest) (src ++ drop (off + length src) dest) i
      (omega (arith, length-take off dest))
    ∙ get_elem?-take off dest i before
get_elem?-overlay_outside dest src off i h (inr behind) =
    let size : length (take off dest) ≡ off = omega (arith, length-take off dest) in
    let same : off + length src + (i - off - length src) ≡ i = omega arith in
    get_elem?-append_right (take off dest) (src ++ drop (off + length src) dest) i (omega arith)
    ∙ ap (λ n. get_elem? (src ++ drop (off + length src) dest) (i - n)) size
    ∙ get_elem?-append_right src (drop (off + length src) dest) (i - off) (omega arith)
    ∙ get_elem?-drop (off + length src) dest (i - off - length src)
    ∙ ap (get_elem? dest) same
