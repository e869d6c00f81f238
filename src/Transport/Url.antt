-- ===== src/Transport/Url.antt =====
-- crates/transport/src/link.rs: `ensure_secure_url`. The URI parser of the crate http is a parameter;
-- a parsed URI is its scheme and its authority, the latter as a text and with the host that
-- `Authority::host` takes from it.
pub mod Spelling
pub mod Local
pub mod Laws
use simple_remote.Base.{
  ℕ, ◌+◌, Bool, true, false, not, ◌&&◌, ◌||◌, Option, none, some, List, [], ◌∷◌, Result, ok, err,
  leb, ◌==◌, bytes_eq, any_of, codes, if◌then◌else◌,
}
use simple_remote.Base.Text.{Str}
use simple_remote.Transport.Interface.{LinkError, insecure_url}

pub record Authority : Type 0 where
  pub text : Str
  pub host : Str

pub record Uri : Type 0 where
  pub scheme : Option Str
  pub authority : Option Authority

-- `eq_ignore_ascii_case`
unfoldable pub to_ascii_lowercase : ℕ → ℕ
to_ascii_lowercase c = if leb b'A' c && leb c b'Z' then c + 32 else c

unfoldable pub lower : Str → Str
lower [] = []
lower (c ∷ s) = to_ascii_lowercase c ∷ lower s

abbrev pub eq_ignore_case : Str → Str → Bool
eq_ignore_case s t = bytes_eq (lower s) (lower t)

-- `str::strip_prefix`
unfoldable pub strip_prefix : Str → Str → Option Str
strip_prefix [] s = some s
strip_prefix (c ∷ cs) [] = none
strip_prefix (c ∷ cs) (d ∷ s) = let rest = strip_prefix cs s in if c == d then rest else none

-- `str::strip_suffix(']')`
unfoldable pub strip_bracket : Str → Option Str
strip_bracket [] = none
strip_bracket (c ∷ []) = if c == b']' then some [] else none
strip_bracket (c ∷ d ∷ s) = elim (strip_bracket (d ∷ s)) [ none ↦ none | some t ↦ some (c ∷ t) ]

unfoldable pub strip_ipv6_brackets : Str → Str
strip_ipv6_brackets host = elim (strip_prefix (b'[' ∷ []) host) [
  | none ↦ host
  | some h ↦ elim (strip_bracket h) [ none ↦ host | some t ↦ t ]
]

-- What may follow the host in the authority: nothing, or a port.
unfoldable pub is_port_or_empty : Str → Bool
is_port_or_empty [] = true
is_port_or_empty (c ∷ s) = c == b':'

unfoldable pub is_loopback : Str → Bool
is_loopback host =
    eq_ignore_case host (codes "127.0.0.1")
    || bytes_eq host (codes "::1")
    || eq_ignore_case host (codes "localhost")

-- The checks on the authority of a `ws` URL
unfoldable pub is_local_authority : Authority → Bool
is_local_authority a =
    if any_of (λ c. c == b'@') a.text then false else elim (strip_prefix a.host a.text) [
      | none ↦ false
      | some rest ↦ is_port_or_empty rest && is_loopback (strip_ipv6_brackets a.host)
    ]

-- `scheme_str().unwrap_or("")`
abbrev pub scheme_of : Uri → Str
scheme_of uri = elim uri.scheme [ none ↦ [] | some s ↦ s ]

unfoldable pub ensure_secure_url : (Str → Option Uri) → Str → Result Uri LinkError
ensure_secure_url parse url = elim (parse url) [
  | none ↦ err insecure_url
  | some uri ↦
      if eq_ignore_case (scheme_of uri) (codes "wss")
      then ok uri
      else if not (eq_ignore_case (scheme_of uri) (codes "ws"))
      then err insecure_url
      else elim uri.authority [
        | none ↦ err insecure_url
        | some a ↦ if is_local_authority a then ok uri else err insecure_url
      ]
]
