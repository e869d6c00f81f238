-- ===== src/Auth/Code/Laws.antt =====
-- What a parsed or generated code looks like.
use simple_remote.Base.{
  ℕ, ◌%◌, ◌≡◌, refl, ◌↔◌, inl, inr, true, some, List, [], ◌∷◌, ok, ltb, length, all_of, arith,
  Bool-cases, sym, subst,
}
use simple_remote.Base.Text.{Bytes, Str, is_ascii_digit, utf8}
use simple_remote.Base.Words.{from_be}
use simple_remote.Auth.Code.{OneTimeCode, limit, six_digits, generate, strip, parse, as_str}

-- Six ASCII digits.
abbrev pub IsCode : Str → Type 0
IsCode s = (length s ≡ 6) × (all_of is_ascii_digit s ≡ true)

-- If all bytes of a text are digits then its bytes are its code points.
utf8_digits : (s : Str) → all_of is_ascii_digit (utf8 s) ≡ true → utf8 s ≡ s
unfolding utf8
utf8_digits [] h = refl
utf8_digits (c ∷ s) h = ground (arith, utf8_digits s)

utf8_of_digits : (s : Str) → all_of is_ascii_digit s ≡ true → utf8 s ≡ s
unfolding utf8
utf8_of_digits [] h = refl
utf8_of_digits (c ∷ s) h = ground (arith, utf8_of_digits s)

strip_digits : (s : Str) → all_of is_ascii_digit s ≡ true → strip s ≡ s
unfolding strip
strip_digits [] h = refl
strip_digits (c ∷ s) h = ground (arith, strip_digits s)

-- `parse` accepts an input exactly when what is left without its white space is six ASCII digits,
-- and those are the code.
pub parse_accepts :
    (input : Str) (c : OneTimeCode)
    → (parse input ≡ ok c) ↔ ((c.digits ≡ strip input) × IsCode (strip input))
unfolding parse
parse_accepts input c =
    let digits = strip input in ground (arith, utf8_digits digits, utf8_of_digits digits)

parse-IsCode : (c : OneTimeCode) → IsCode c.digits → parse (as_str c) ≡ ok c
unfolding as_str
parse-IsCode c h =
    let same = strip_digits c.digits h.1 in
    (parse_accepts c.digits c).1 (sym same, subst IsCode (sym same) h)

six_digits-IsCode : (v : ℕ) → IsCode (six_digits v)
unfolding six_digits
six_digits-IsCode v = (refl, ground arith)

-- What `generate` returns is six digits, and typing it in again, `parse` gives the same code.
pub parse-generate :
    (draws : List Bytes) {c : OneTimeCode} {more : List Bytes}
    → generate draws ≡ some (c, more)
    → IsCode c.digits × (parse (as_str c) ≡ ok c)
unfolding generate
parse-generate [] e = cc
parse-generate (buf ∷ draws) {c} {more} e = elim (Bool-cases (ltb (from_be buf) limit)) [
  | inl taken ↦
      let code : c ≡ record { digits = six_digits (from_be buf % 1000000) } = ground arith in
      let shape = six_digits-IsCode (from_be buf % 1000000) in
      rw code (shape, parse-IsCode (record { digits = six_digits (from_be buf % 1000000) }) shape)
  | inr refused ↦ parse-generate draws {c = c} {more = more} (ground arith)
]
