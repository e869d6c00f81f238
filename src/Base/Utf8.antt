-- ===== src/Base/Utf8.antt =====
-- Reading UTF-8 (`String::from_utf8`), and that it inverts `as_bytes`.
use Prim.Native.Nat.{ℕ, zero, suc, ◌+◌, ◌-◌, ◌*◌, ◌/◌, ◌%◌, ◌≤◌, ◌<◌}
use mathlib.Core.Path.{◌≡◌, refl, ap, ◌∙◌}
use mathlib.Core.Logic.{inl, inr}
use mathlib.Core.Bool.{Bool, true, not, ◌&&◌}
use mathlib.Core.List.{[], ◌∷◌, ◌++◌}
use mathlib.Core.Option.{Option, none, some}
use native.Mathlib.Omega.{arith}
use simple_remote.Base.Tests.{ltb, leb, Bool-cases, if◌then◌else◌}
use simple_remote.Base.Lists.{All}
use simple_remote.Base.Text.{Bytes, Str, utf8, utf8_char}

-- A code point that a `char` can hold and that needs as many bytes as were read.
abbrev is_scalar_from : ℕ → ℕ → Bool
is_scalar_from least c = leb least c && leb c 0x10FFFF && not (leb 0xD800 c && leb c 0xDFFF)

abbrev push : ℕ → Option Str → Option Str
push c none = none
push c (some s) = some (c ∷ s)

-- UTF-8, byte by byte: how many bytes are missing, the bits read, the least code point allowed.
from_utf8_loop : ℕ → ℕ → ℕ → Bytes → Option Str
from_utf8_loop zero acc least [] = some []
from_utf8_loop (suc need) acc least [] = none
from_utf8_loop zero acc least (b ∷ bs) =
    let one = push b (from_utf8_loop 0 0 0 bs) in
    let two = from_utf8_loop 1 (b - 0xC0) 0x80 bs in
    let three = from_utf8_loop 2 (b - 0xE0) 0x800 bs in
    let four = from_utf8_loop 3 (b - 0xF0) 0x10000 bs in
    if ltb b 0x80
    then one
    else if ltb b 0xC0
    then none
    else if ltb b 0xE0
    then two
    else if ltb b 0xF0
    then three
    else if ltb b 0xF8
    then four
    else none
from_utf8_loop (suc zero) acc least (b ∷ bs) =
    let c = acc * 64 + (b - 0x80) in
    let rest = push c (from_utf8_loop 0 0 0 bs) in
    if (leb 0x80 b && ltb b 0xC0) && is_scalar_from least c then rest else none
from_utf8_loop (suc (suc need)) acc least (b ∷ bs) =
    let rest = from_utf8_loop (suc need) (acc * 64 + (b - 0x80)) least bs in
    if leb 0x80 b && ltb b 0xC0 then rest else none

-- `String::from_utf8`, without the error's value
unfoldable pub from_utf8 : Bytes → Option Str
unfolding from_utf8_loop
from_utf8 bytes = from_utf8_loop 0 0 0 bytes

-- The code points that a `char` can hold.
abbrev pub IsScalar : ℕ → Type 0
IsScalar c = is_scalar_from 0 c ≡ true

module _ (c : ℕ) (rest : Bytes) (scalar : IsScalar c) where
  two_bytes :
      128 ≤ c
      → c < 0x800
      → from_utf8_loop 0 0 0 ((0xC0 + c / 64) ∷ (0x80 + c % 64) ∷ rest)
        ≡ push c (from_utf8_loop 0 0 0 rest)
  unfolding from_utf8_loop
  two_bytes lo hi =
      let bits : (0xC0 + c / 64 - 0xC0) * 64 + (0x80 + c % 64 - 0x80) ≡ c = omega arith in
      rw bits (ground arith)

  three_bytes :
      0x800 ≤ c
      → c < 0x10000
      → from_utf8_loop 0 0 0 ((0xE0 + c / 4096) ∷ (0x80 + c / 64 % 64) ∷ (0x80 + c % 64) ∷ rest)
        ≡ push c (from_utf8_loop 0 0 0 rest)
  unfolding from_utf8_loop
  three_bytes lo hi =
      let bits : ((0xE0 + c / 4096 - 0xE0) * 64 + (0x80 + c / 64 % 64 - 0x80)) * 64
            + (0x80 + c % 64 - 0x80)
          ≡ c =
        omega arith in
      rw bits (ground arith)

  four_bytes :
      0x10000 ≤ c
      → from_utf8_loop 0 0 0 (
          (0xF0 + c / 262144)
          ∷ (0x80 + c / 4096 % 64)
          ∷ (0x80 + c / 64 % 64)
          ∷ (0x80 + c % 64)
          ∷ rest)
        ≡ push c (from_utf8_loop 0 0 0 rest)
  unfolding from_utf8_loop
  four_bytes lo =
      let bits : (((0xF0 + c / 262144 - 0xF0) * 64 + (0x80 + c / 4096 % 64 - 0x80)) * 64
                + (0x80 + c / 64 % 64 - 0x80))
              * 64
            + (0x80 + c % 64 - 0x80)
          ≡ c =
        omega arith in
      rw bits (ground arith)

  from_utf8-char : from_utf8_loop 0 0 0 (utf8_char c ++ rest) ≡ push c (from_utf8_loop 0 0 0 rest)
  unfolding utf8_char from_utf8_loop
  from_utf8-char = elim (Bool-cases (ltb c 0x80)) [
    | inl one ↦ ground arith
    | inr more ↦ elim (Bool-cases (ltb c 0x800)) [
      | inl two ↦ rw (more, two) (two_bytes (ground arith) (ground arith))
      | inr more' ↦ elim (Bool-cases (ltb c 0x10000)) [
        | inl three ↦ rw (more, more', three) (three_bytes (ground arith) (ground arith))
        | inr four ↦ rw (more, more', four) (four_bytes (ground arith))
      ]
    ]
  ]

from_utf8_loop-utf8 : (s : Str) → All IsScalar s → from_utf8_loop 0 0 0 (utf8 s) ≡ some s
unfolding utf8 from_utf8_loop
from_utf8_loop-utf8 [] h = refl
from_utf8_loop-utf8 (c ∷ s) h =
    from_utf8-char c (utf8 s) h.0 ∙ ap (push c) (from_utf8_loop-utf8 s h.1)

-- The bytes of a text are read back as that text.
pub from_utf8-utf8 : (s : Str) → All IsScalar s → from_utf8 (utf8 s) ≡ some s
unfolding from_utf8
from_utf8-utf8 s h = from_utf8_loop-utf8 s h
