-- ===== src/Socket/Words.antt =====
-- ex-utility/src/double_ulong64.cpp: the two halves of a 64-bit number.
use isu_net.Base.{
  ap, arith, bit_and_mask, bit_or, bit_or_fields, size_mod, true, ℕ, ◌*◌, ◌+◌, ◌<◌, ◌^◌, ◌↔◌, ◌∙◌,
  ◌≡◌, ◌⊎◌,
}
use isu_net.Socket.{DoubleUlong32, of_ulong64, to_ulong64, lt_ulong, eq_ulong}

abbrev pub Fits : DoubleUlong32 → Type 0
Fits d = (d.high < size_mod) × (d.low < size_mod)

-- In range, the joined number is high * 2^32 + low.
pub to_ulong64_value : (d : DoubleUlong32) → Fits d → to_ulong64 d ≡ d.high * 2 ^ 32 + d.low
unfolding to_ulong64
to_ulong64_value d h =
    ap (λ n. bit_or n d.low) (omega arith) ∙ bit_or_fields 32 d.high d.low (omega arith)

-- Splitting a 64-bit number and joining the halves gives it back, and the halves fit 32 bits.
to_ulong64-of_ulong64 : (v : ℕ) → v < 2 ^ 64 → (to_ulong64 (of_ulong64 v) ≡ v) × Fits (of_ulong64 v)
unfolding of_ulong64
to_ulong64-of_ulong64 v h =
    omega (arith, bit_and_mask 32 v, to_ulong64_value (of_ulong64 v) (omega arith))

-- Joining two halves that fit and splitting the number gives the halves back.
of_ulong64-to_ulong64 : (d : DoubleUlong32) → Fits d → of_ulong64 (to_ulong64 d) ≡ d
unfolding of_ulong64
of_ulong64-to_ulong64 d h = ground (arith, bit_and_mask 32 (to_ulong64 d), to_ulong64_value d h)

-- The order of two pairs of halves is the lexicographic one, and `==` is equality of both halves.
lt_ulong_lex :
    (a b : DoubleUlong32)
    → Fits a
    → Fits b
    → ((lt_ulong a b ≡ true) ↔ ((a.high < b.high) ⊎ ((a.high ≡ b.high) × (a.low < b.low))))
      × ((eq_ulong a b ≡ true) ↔ ((a.high ≡ b.high) × (a.low ≡ b.low)))
unfolding lt_ulong eq_ulong
lt_ulong_lex a b ha hb = ground (arith, to_ulong64_value a ha, to_ulong64_value b hb)
