-- ===== src/Slice/Layout.antt =====
-- ex-utility/src/slice.cpp: the slices of a message that are among the starts seen, and their
-- sizes.
use isu_net.Base.{
  ==_iff, ==_ne, All, Bool, Bool-cases, List, [], ap, arith, false, if◌then◌else◌, inl, inr, ltb,
  refl, sym, true, ℕ, ◌&&◌, ◌+◌, ◌<◌, ◌==◌, ◌∷◌, ◌≡◌, ◌≤◌,
}
use mathlib.Core.List.{Memᴰ}
use isu_net.Slice.{Block, was_recved}
use isu_net.Slice.Pieces.{Chain}

abbrev pub Slices : Type 0
Slices = List (List ℕ × Block)

-- The size of the slice that starts there.
abbrev pub size_at : Slices → ℕ → ℕ
size_at [] start = 0
size_at (s ∷ slices) start = if s.1.start == start then s.1.size else size_at slices start

-- The sizes of the slices seen.
abbrev pub seen_size : List ℕ → Slices → ℕ
seen_size seen [] = 0
seen_size seen (s ∷ slices) =
    (if was_recved s.1.start seen then s.1.size else 0) + seen_size seen slices

-- Every slice has been seen.
abbrev pub all_seen : List ℕ → Slices → Bool
all_seen seen [] = true
all_seen seen (s ∷ slices) = was_recved s.1.start seen && all_seen seen slices

abbrev pub HasData : List ℕ × Block → Type 0
HasData s = 0 < s.1.size

pub seen_size-bound :
    (seen : List ℕ) (from : ℕ) (slices : Slices) (end : ℕ)
    → Chain from slices end
    → from + seen_size seen slices ≤ end
seen_size-bound seen from [] end h = omega (arith, h)
seen_size-bound seen from (s ∷ slices) end h = elim (Bool-cases (was_recved s.1.start seen)) [
  | inl old ↦ rw old (omega (arith, seen_size-bound seen (from + s.1.size) slices end h.1))
  | inr new ↦ rw new (omega (arith, seen_size-bound seen (from + s.1.size) slices end h.1))
]

-- All slices are seen when the sizes of those seen add up to the whole.
pub all_seen-full :
    (seen : List ℕ) (from : ℕ) (slices : Slices) (end : ℕ)
    → Chain from slices end
    → All HasData slices
    → from + seen_size seen slices ≡ end
    → all_seen seen slices ≡ true
all_seen-full seen from [] end h d e = refl
all_seen-full seen from (s ∷ slices) end h d e = elim (Bool-cases (was_recved s.1.start seen)) [
  | inl old ↦
      let rest = rw old at e in
      rw old (all_seen-full seen (from + s.1.size) slices end h.1 d.1 (omega (arith, rest)))
  | inr new ↦
      let rest = rw new at e in
      absurd (omega (arith, rest, d.0, seen_size-bound seen (from + s.1.size) slices end h.1))
]

pub full-all_seen :
    (seen : List ℕ) (from : ℕ) (slices : Slices) (end : ℕ)
    → Chain from slices end
    → all_seen seen slices ≡ true
    → from + seen_size seen slices ≡ end
full-all_seen seen from [] end h e = omega (arith, h)
full-all_seen seen from (s ∷ slices) end h e = elim (Bool-cases (was_recved s.1.start seen)) [
  | inl old ↦
      let rest = rw old at e in
      rw old (omega (arith, full-all_seen seen (from + s.1.size) slices end h.1 rest))
  | inr new ↦ let rest = rw new at e in absurd (cc)
]

-- Where a slice of a chain lies.
pub Mem-Chain :
    (s : List ℕ × Block) (from : ℕ) (slices : Slices) (end : ℕ)
    → Chain from slices end
    → Memᴰ s slices
    → (from ≤ s.1.start) × (s.1.start + s.1.size ≤ end)
Mem-Chain s from [] end h there = elim there [ ]
Mem-Chain s from (x ∷ slices) end h (Memᴰ.head is) =
    let last = seen_size-bound [] (from + x.1.size) slices end h.1 in
    let start : s.1.start ≡ x.1.start = ap (λ y. y.1.start) is in
    let size : s.1.size ≡ x.1.size = ap (λ y. y.1.size) is in
    (omega (arith, h.0, start), omega (arith, h.0, start, size, last))
Mem-Chain s from (x ∷ slices) end h (Memᴰ.tail there) =
    let (low, high) = Mem-Chain s (from + x.1.size) slices end h.1 there in (omega arith, high)

-- A start before all slices changes nothing.
seen_size-before :
    (start : ℕ) (seen : List ℕ) (from : ℕ) (slices : Slices) (end : ℕ)
    → Chain from slices end
    → start < from
    → seen_size (start ∷ seen) slices ≡ seen_size seen slices
unfolding was_recved
seen_size-before start seen from [] end h k = refl
seen_size-before start seen from (s ∷ slices) end h k =
    let differ : (s.1.start == start) ≡ false =
      ==_ne s.1.start start (λ e. omega (arith, e, h.0)) in
    rw differ (
      ap (λ n. (if was_recved s.1.start seen then s.1.size else 0) + n)
        (seen_size-before start seen (from + s.1.size) slices end h.1 (omega arith)))

-- A slice that is new adds its size.
pub seen_size-cons :
    (s : List ℕ × Block) (seen : List ℕ) (from : ℕ) (slices : Slices) (end : ℕ)
    → Chain from slices end
    → All HasData slices
    → Memᴰ s slices
    → was_recved s.1.start seen ≡ false
    → seen_size (s.1.start ∷ seen) slices ≡ seen_size seen slices + s.1.size
unfolding was_recved
seen_size-cons s seen from [] end h d there new = elim there [ ]
seen_size-cons s seen from (x ∷ slices) end h d (Memᴰ.head is) new =
    let start : s.1.start ≡ x.1.start = ap (λ y. y.1.start) is in
    let size : s.1.size ≡ x.1.size = ap (λ y. y.1.size) is in
    let same : (x.1.start == s.1.start) ≡ true = (==_iff x.1.start s.1.start).1 (sym start) in
    let first : was_recved x.1.start seen ≡ false = rw start at new in
    let rest =
      seen_size-before s.1.start seen (from + x.1.size) slices end h.1
        (omega (arith, start, h.0, d.0)) in
    rw (same, first) (omega (arith, rest, size))
seen_size-cons s seen from (x ∷ slices) end h d (Memᴰ.tail there) new =
    let low = (Mem-Chain s (from + x.1.size) slices end h.1 there).0 in
    let differ : (x.1.start == s.1.start) ≡ false =
      ==_ne x.1.start s.1.start (λ e. omega (arith, e, low, h.0, d.0)) in
    rw differ (omega (arith, seen_size-cons s seen (from + x.1.size) slices end h.1 d.1 there new))

-- The start says which slice it is.
pub size_at-Mem :
    (s : List ℕ × Block) (from : ℕ) (slices : Slices) (end : ℕ)
    → Chain from slices end
    → All HasData slices
    → Memᴰ s slices
    → size_at slices s.1.start ≡ s.1.size
size_at-Mem s from [] end h d there = elim there [ ]
size_at-Mem s from (x ∷ slices) end h d (Memᴰ.head is) =
    let same : (x.1.start == s.1.start) ≡ true =
      (==_iff x.1.start s.1.start).1 (ap (λ y. y.1.start) (sym is)) in
    rw same (ap (λ y. y.1.size) (sym is))
size_at-Mem s from (x ∷ slices) end h d (Memᴰ.tail there) =
    let low = (Mem-Chain s (from + x.1.size) slices end h.1 there).0 in
    let differ : (x.1.start == s.1.start) ≡ false =
      ==_ne x.1.start s.1.start (λ e. omega (arith, e, low, h.0, d.0)) in
    rw differ (size_at-Mem s (from + x.1.size) slices end h.1 d.1 there)

-- When all slices are seen, every position is in one of them.
pub all_seen-covers :
    (i : ℕ) (seen : List ℕ) (from : ℕ) (slices : Slices) (end : ℕ)
    → Chain from slices end
    → all_seen seen slices ≡ true
    → from ≤ i
    → i < end
    → (s : List ℕ × Block) × Memᴰ s slices
      × (was_recved s.1.start seen ≡ true)
      × (s.1.start ≤ i)
      × (i < s.1.start + s.1.size)
all_seen-covers i seen from [] end h e low high = absurd (omega (arith, h))
all_seen-covers i seen from (s ∷ slices) end h e low high =
    elim (Bool-cases (was_recved s.1.start seen)) [
      | inr new ↦ let rest = rw new at e in absurd (cc)
      | inl old ↦ elim (Bool-cases (ltb i (from + s.1.size))) [
        | inl here ↦ (s, Memᴰ.head refl, old, omega (arith, h.0), ground (arith, here, h.0))
        | inr later ↦
            let rest = rw old at e in
            let (t, there, got, a, b) =
              all_seen-covers i seen (from + s.1.size) slices end h.1 rest (ground (arith, later))
                high in
            (t, Memᴰ.tail there, got, a, b)
      ]
    ]
