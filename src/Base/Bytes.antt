-- ===== src/Base/Bytes.antt =====
-- Raw memory as lists of bytes: platform_config.hpp's `mymemcpy` with the fault that a write or a
-- read outside a block is, 32-bit `size_t` arithmetic, and the little-endian words of the platform.
use Prim.Native.Nat.{ℕ, ◌+◌, ◌-◌, ◌*◌, ◌/◌, ◌%◌, ◌^◌, ◌≤◌, ◌<◌}
use mathlib.Core.Path.{◌≡◌, ap, sym, ◌∙◌}
use mathlib.Core.Bool.{◌&&◌}
use mathlib.Core.Logic.{◌↔◌, ◌⊎◌}
use mathlib.Core.Option.{Option, none, some}
use mathlib.Core.List.{List, [], ◌∷◌, ◌++◌, append_assoc}
use native.Mathlib.Omega.{arith}
use isu_net.Base.Tests.{leb, if◌then◌else◌}
use isu_net.Base.Lists.{
  length, take, drop, All, length-append, length-take, length-drop, take-append_length,
}

abbrev pub size_mod : ℕ
size_mod = 2 ^ 32

abbrev pub add_size : ℕ → ℕ → ℕ
add_size a b = (a + b) % size_mod

abbrev pub sub_size : ℕ → ℕ → ℕ
sub_size a b = (a + size_mod - b) % size_mod

abbrev pub mul_size : ℕ → ℕ → ℕ
mul_size a b = (a * b) % size_mod

-- `dest` with `src` written over it from `off` on.
abbrev pub overlay : List ℕ → ℕ → List ℕ → List ℕ
overlay dest off src = take off dest ++ (src ++ drop (off + length src) dest)

-- `mymemcpy(dest + off, src, count)`. `none` is a read past `src` or a write past `dest`.
unfoldable pub mymemcpy : List ℕ → ℕ → List ℕ → ℕ → Option (List ℕ)
mymemcpy dest off src count =
    if leb count (length src) && leb (off + count) (length dest)
    then some (overlay dest off (take count src))
    else none

pub take-overlay :
    (dest src : List ℕ) (off : ℕ)
    → off + length src ≤ length dest
    → take (off + length src) (overlay dest off src) ≡ take off dest ++ src
take-overlay dest src off h =
    ap (λ l. take (off + length src) l) (sym (append_assoc (take off dest) src _))
    ∙ ap (λ n. take n ((take off dest ++ src) ++ drop (off + length src) dest)) lengths
    ∙ take-append_length (take off dest ++ src) (drop (off + length src) dest)
  where
    lengths : off + length src ≡ length (take off dest ++ src)
    lengths = omega (arith, length-append (take off dest) src, length-take off dest)

pub length-overlay :
    (dest src : List ℕ) (off : ℕ)
    → off + length src ≤ length dest
    → length (overlay dest off src) ≡ length dest
length-overlay dest src off h = omega (
  arith,
  length-append (take off dest) (src ++ drop (off + length src) dest),
  length-append src (drop (off + length src) dest),
  length-take off dest,
  length-drop (off + length src) dest,
)

pub mymemcpy_lem :
    (dest : List ℕ) (off : ℕ) (src : List ℕ) (count : ℕ)
    → count ≤ length src
    → off + count ≤ length dest
    → mymemcpy dest off src count ≡ some (overlay dest off (take count src))
unfolding mymemcpy
mymemcpy_lem dest off src count h k = ground arith

pub mymemcpy_fault :
    (dest : List ℕ) (off : ℕ) (src : List ℕ) (count : ℕ)
    → (mymemcpy dest off src count ≡ none) ↔ ((length src < count) ⊎ (length dest < off + count))
unfolding mymemcpy
mymemcpy_fault dest off src count = ground arith

abbrev pub IsByte : ℕ → Type 0
IsByte b = b < 256

-- The four bytes of a `size_t` in memory.
abbrev pub le_bytes : ℕ → List ℕ
le_bytes n = n % 256 ∷ n / 256 % 256 ∷ n / 65536 % 256 ∷ n / 16777216 % 256 ∷ []

-- A `size_t` read from four bytes; reading fewer is a fault.
abbrev pub le_value : List ℕ → Option ℕ
le_value (a ∷ b ∷ c ∷ d ∷ rest) = some (a + 256 * b + 65536 * c + 16777216 * d)
le_value _ = none

pub le_value-le_bytes :
    (n : ℕ) (rest : List ℕ) → n < size_mod → le_value (le_bytes n ++ rest) ≡ some n
le_value-le_bytes n rest h = ap some (omega arith)

pub le_bytes-le_value :
    (a b c d : ℕ)
    → All IsByte (a ∷ b ∷ c ∷ d ∷ [])
    → le_bytes (a + 256 * b + 65536 * c + 16777216 * d) ≡ a ∷ b ∷ c ∷ d ∷ []
le_bytes-le_value a b c d h = ground arith
