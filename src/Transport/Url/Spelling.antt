-- ===== src/Transport/Url/Spelling.antt =====
-- The spellings of a host, and the brackets around it.
use simple_remote.Base.{
  ◌+◌, ◌≤◌, ◌≡◌, ◌⊎◌, refl, inl, inr, true, none, some, [], ◌∷◌, ◌++◌, arith, ◌==◌, bytes_eq,
  bytes_eq_sound, bytes_eq_refl, Bool-cases, Option-cases, ap, sym, ◌∙◌,
}
use simple_remote.Base.Text.{Str}
use simple_remote.Transport.Url.{
  to_ascii_lowercase, lower, strip_prefix, strip_bracket, strip_ipv6_brackets,
}

-- The text is this name, which has no capital letter, with some letters perhaps as capitals.
abbrev pub IsSpelling : Str → Str → Type 0
IsSpelling [] [] = Unit
IsSpelling [] (d ∷ text) = ⊥
IsSpelling (c ∷ name) [] = ⊥
IsSpelling (c ∷ name) (d ∷ text) =
    ((d ≡ c) ⊎ ((b'A' ≤ d) × (d ≤ b'Z') × (d + 32 ≡ c))) × IsSpelling name text

lower-IsSpelling : (name text : Str) → lower text ≡ name → IsSpelling name text
unfolding lower to_ascii_lowercase
lower-IsSpelling [] [] e = tt
lower-IsSpelling [] (d ∷ text) e = absurd (ground arith)
lower-IsSpelling (c ∷ name) [] e = absurd (ground arith)
lower-IsSpelling (c ∷ name) (d ∷ text) e =
    let rest : lower text ≡ name = ground arith in (ground arith, lower-IsSpelling name text rest)

IsSpelling-lower : (name text : Str) → lower name ≡ name → IsSpelling name text → lower text ≡ name
unfolding lower to_ascii_lowercase
IsSpelling-lower [] [] plain s = refl
IsSpelling-lower [] (d ∷ text) plain s = absurd s
IsSpelling-lower (c ∷ name) [] plain s = absurd s
IsSpelling-lower (c ∷ name) (d ∷ text) plain (same, s) =
    let rest : lower name ≡ name = ground arith in ground (arith, IsSpelling-lower name text rest s)

-- `eq_ignore_ascii_case` with a name that has no capital letter
pub IsSpelling-sound :
    (name text : Str)
    → lower name ≡ name
    → bytes_eq (lower text) (lower name) ≡ true
    → IsSpelling name text
IsSpelling-sound name text plain e =
    lower-IsSpelling name text (bytes_eq_sound (lower text) (lower name) e ∙ plain)

pub IsSpelling-complete :
    (name text : Str)
    → lower name ≡ name
    → IsSpelling name text
    → bytes_eq (lower text) (lower name) ≡ true
IsSpelling-complete name text plain s =
    ap (λ l. bytes_eq l (lower name)) (IsSpelling-lower name text plain s ∙ sym plain)
    ∙ bytes_eq_refl (lower name)

strip_bracket_sound : (s t : Str) → strip_bracket s ≡ some t → s ≡ t ++ b']' ∷ []
unfolding strip_bracket
strip_bracket_sound [] t e = absurd (ground arith)
strip_bracket_sound (c ∷ []) t e = ground arith
strip_bracket_sound (c ∷ d ∷ s) t e = elim (Option-cases (strip_bracket (d ∷ s))) [
  | inl without ↦ absurd (ground (arith, without))
  | inr (t', found) ↦
      let same : c ∷ t' ≡ t = ground (arith, found) in
      ap (λ l. c ∷ l) (strip_bracket_sound (d ∷ s) t' found) ∙ ap (λ l. l ++ b']' ∷ []) same
]

strip_bracket_complete : (t : Str) → strip_bracket (t ++ b']' ∷ []) ≡ some t
unfolding strip_bracket
strip_bracket_complete [] = refl
strip_bracket_complete (c ∷ []) = refl
strip_bracket_complete (c ∷ d ∷ t) = ground (arith, strip_bracket_complete (d ∷ t))

-- The host is this one, alone or between brackets.
abbrev pub IsBracketed : Str → Str → Type 0
IsBracketed h host = (host ≡ h) ⊎ (host ≡ b'[' ∷ (h ++ b']' ∷ []))

pub strip_ipv6_brackets-IsBracketed : (host : Str) → IsBracketed (strip_ipv6_brackets host) host
unfolding strip_ipv6_brackets strip_prefix
strip_ipv6_brackets-IsBracketed [] = inl refl
strip_ipv6_brackets-IsBracketed (c ∷ host) = elim (Bool-cases (b'[' == c)) [
  | inr other ↦ inl (ground (arith, other))
  | inl opens ↦ elim (Option-cases (strip_bracket host)) [
    | inl without ↦ inl (ground (arith, opens, without))
    | inr (t, found) ↦
        let is_host = strip_bracket_sound host t found in
        let is_t : strip_ipv6_brackets (c ∷ host) ≡ t = ground (arith, opens, found) in
        inr (ground (arith, opens, is_host, is_t))
  ]
]

pub strip_ipv6_brackets_complete :
    (h host : Str)
    → strip_prefix (b'[' ∷ []) h ≡ none
    → IsBracketed h host
    → strip_ipv6_brackets host ≡ h
unfolding strip_ipv6_brackets strip_prefix
strip_ipv6_brackets_complete h host plain (inl same) = ground (arith, plain, same)
strip_ipv6_brackets_complete h host plain (inr same) =
    ground (arith, same, strip_bracket_complete h)
