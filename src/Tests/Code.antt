-- ===== src/Tests/Code.antt =====
-- The theorems on the one-time code at concrete inputs.
use simple_remote.Base.{
  ℕ, ◌+◌, ◌*◌, ◌<◌, ◌≡◌, ◌↔◌, refl, true, some, List, [], ◌∷◌, ok, arith, codes, any_of, ltb,
}
use simple_remote.Base.Text.{Bytes, Str}
use simple_remote.Base.Words.{from_be}
use simple_remote.Auth.Code.{OneTimeCode, limit, six_digits, generate, strip, parse, as_str}
use simple_remote.Auth.Code.Laws.{IsCode, parse_accepts, parse-generate}
use simple_remote.Auth.Code.Uniform.{generate_uniform}

abbrev typed : Str
typed = codes " 123 456"

abbrev code : OneTimeCode
code = record { digits = codes "123456" }

parse_accepts_example :
    (parse typed ≡ ok code) ↔ ((code.digits ≡ strip typed) × IsCode (strip typed))
parse_accepts_example = parse_accepts typed code

-- `u32::MAX`, which is refused, and 123456
abbrev draws : List Bytes
draws = (255 ∷ 255 ∷ 255 ∷ 255 ∷ []) ∷ (0 ∷ 1 ∷ 226 ∷ 64 ∷ []) ∷ []

draws_generate : generate draws ≡ some (code, [])
unfolding generate from_be six_digits
draws_generate = refl

parse-generate_example : IsCode code.digits × (parse (as_str code) ≡ ok code)
parse-generate_example = parse-generate draws {c = code} {more = []} draws_generate

accepted : from_be (0 ∷ 1 ∷ 226 ∷ 64 ∷ []) < limit
unfolding from_be
accepted = omega arith

generate_uniform_example :
    (generate ((0 ∷ 1 ∷ 226 ∷ 64 ∷ []) ∷ []) ≡ some (record { digits = six_digits 123456 }, []))
    ↔ ((k : ℕ) × (k < 4294) × (from_be (0 ∷ 1 ∷ 226 ∷ 64 ∷ []) ≡ 123456 + 1000000 * k))
generate_uniform_example = generate_uniform (0 ∷ 1 ∷ 226 ∷ 64 ∷ []) [] 123456 accepted (omega arith)

some_accepted : any_of (λ buf. ltb (from_be buf) limit) draws ≡ true
unfolding from_be
some_accepted = refl
