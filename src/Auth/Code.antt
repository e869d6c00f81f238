-- ===== src/Auth/Code.antt =====
-- crates/auth/src/code.rs: the six-digit code that the host shows.
-- `getrandom::fill` is a parameter: the list of the four bytes that its calls will give.
pub mod Laws
pub mod Uniform
use simple_remote.Base.{
  ℕ, ◌+◌, ◌*◌, ◌/◌, ◌%◌, ◌<◌, Bool, Option, none, some, List, [], ◌∷◌, Result, ok, err, ltb, not,
  ◌||◌, ◌==◌, all_of, if◌then◌else◌,
}
use simple_remote.Base.Text.{Bytes, Str, is_whitespace, is_ascii_digit, utf8, str_len}
use simple_remote.Base.Words.{from_be}
use simple_remote.Auth.Error.{AuthError, malformed}

pub record OneTimeCode : Type 0 where
  pub digits : Str

-- `LIMIT`: the largest multiple of a million below `u32::MAX`.
abbrev pub limit : ℕ
limit = 4294967295 / 1000000 * 1000000

-- `format!("{value:06}")` of a value below a million
unfoldable pub six_digits : ℕ → Str
six_digits v =
    (48 + v / 100000 % 10)
    ∷ (48 + v / 10000 % 10)
    ∷ (48 + v / 1000 % 10)
    ∷ (48 + v / 100 % 10)
    ∷ (48 + v / 10 % 10)
    ∷ (48 + v % 10)
    ∷ []

-- The loop of `generate`: the code and the draws left over. `none` when the given draws run out.
unfoldable pub generate : List Bytes → Option (OneTimeCode × List Bytes)
unfolding six_digits
generate [] = none
generate (buf ∷ more) =
    let again = generate more in
    let n = from_be buf in
    if ltb n limit then some (record { digits = six_digits (n % 1000000) }, more) else again

-- `input.chars().filter(|c| !c.is_whitespace()).collect()`
unfoldable pub strip : Str → Str
strip [] = []
strip (c ∷ s) = if is_whitespace c then strip s else c ∷ strip s

unfoldable pub parse : Str → Result OneTimeCode AuthError
unfolding strip
parse input =
    let digits = strip input in
    if not (str_len digits == 6) || not (all_of is_ascii_digit (utf8 digits))
    then err (malformed "one-time code")
    else ok (record { digits = digits })

unfoldable pub as_str : OneTimeCode → Str
as_str c = c.digits
