-- ===== src/Transport/Url/Local.antt =====
-- Which authorities a `ws` URL may have.
use simple_remote.Base.{
  All, none, ◌≢◌, bytes_eq, bytes_eq_sound, bytes_eq_refl, ◌≡◌, refl, ◌⊎◌, inl, inr, true, false,
  some, [], ◌∷◌, ◌++◌, any_of, codes, arith, ◌==◌, ap, ◌∙◌, Option-cases, Bool-cases,
}
use simple_remote.Base.Text.{Str}
use simple_remote.Transport.Url.Spelling.{
  IsSpelling, IsBracketed, IsSpelling-sound, IsSpelling-complete, strip_ipv6_brackets-IsBracketed,
  strip_ipv6_brackets_complete,
}
use simple_remote.Transport.Url.{
  lower, to_ascii_lowercase, Authority, eq_ignore_case, strip_prefix, strip_ipv6_brackets,
  is_port_or_empty, is_loopback, is_local_authority,
}

pub strip_prefix_sound : (p s rest : Str) → strip_prefix p s ≡ some rest → s ≡ p ++ rest
unfolding strip_prefix
strip_prefix_sound [] s rest e = ground arith
strip_prefix_sound (c ∷ cs) [] rest e = cc
strip_prefix_sound (c ∷ cs) (d ∷ s) rest e = ground (arith, strip_prefix_sound cs s rest)

pub strip_prefix_complete : (p rest : Str) → strip_prefix p (p ++ rest) ≡ some rest
unfolding strip_prefix
strip_prefix_complete [] rest = refl
strip_prefix_complete (c ∷ cs) rest = ground (arith, strip_prefix_complete cs rest)

-- These names have no capital letter.
lower_numbers : lower (codes "127.0.0.1") ≡ codes "127.0.0.1"
unfolding lower to_ascii_lowercase
lower_numbers = refl

lower_localhost : lower (codes "localhost") ≡ codes "localhost"
unfolding lower to_ascii_lowercase
lower_localhost = refl

-- A name of this machine
abbrev pub IsThisMachine : Str → Type 0
IsThisMachine h =
    IsSpelling (codes "127.0.0.1") h ⊎ ((h ≡ codes "::1") ⊎ IsSpelling (codes "localhost") h)

-- The authority is a loopback host, perhaps between brackets, alone or with a colon and a port after it,
-- and nothing else: no user information, no text between the host and the colon.
pub record IsLocal (a : Authority) : Type 0 where
  pub rest : Str
  pub name : Str
  pub no_userinfo : All (λ c. c ≢ b'@') a.text
  pub whole : a.text ≡ a.host ++ rest
  pub port : (rest ≡ []) ⊎ ((port : Str) × (rest ≡ b':' ∷ port))
  pub host : IsBracketed name a.host
  pub loopback : IsThisMachine name

is_loopback_sound : (h : Str) → is_loopback h ≡ true → IsThisMachine h
unfolding is_loopback
is_loopback_sound h e = elim (Bool-cases (eq_ignore_case h (codes "127.0.0.1"))) [
  | inl first ↦ inl (IsSpelling-sound (codes "127.0.0.1") h lower_numbers first)
  | inr f ↦ elim (Bool-cases (bytes_eq h (codes "::1"))) [
    | inl second ↦ inr (inl (bytes_eq_sound h (codes "::1") second))
    | inr g ↦
        inr (inr (IsSpelling-sound (codes "localhost") h lower_localhost (ground (arith, f, g))))
  ]
]

is_loopback_complete : (h : Str) → IsThisMachine h → is_loopback h ≡ true
unfolding is_loopback
is_loopback_complete h (inl s) =
    ground (arith, IsSpelling-complete (codes "127.0.0.1") h lower_numbers s)
is_loopback_complete h (inr (inl s)) =
    ground (arith, ap (λ l. bytes_eq l (codes "::1")) s ∙ bytes_eq_refl (codes "::1"))
is_loopback_complete h (inr (inr s)) =
    ground (arith, IsSpelling-complete (codes "localhost") h lower_localhost s)

-- No name of this machine begins with a bracket.
this_machine_plain : (h : Str) → IsThisMachine h → strip_prefix (b'[' ∷ []) h ≡ none
unfolding strip_prefix
this_machine_plain [] s = refl
this_machine_plain (d ∷ h) (inl (first, s)) = ground arith
this_machine_plain (d ∷ h) (inr (inl s)) = ground arith
this_machine_plain (d ∷ h) (inr (inr (first, s))) = ground arith

no_at_sound : (s : Str) → any_of (λ c. c == b'@') s ≡ false → All (λ c. c ≢ b'@') s
no_at_sound [] e = tt
no_at_sound (c ∷ s) e = ((λ same. ground arith), no_at_sound s (ground arith))

no_at_complete : (s : Str) → All (λ c. c ≢ b'@') s → any_of (λ c. c == b'@') s ≡ false
no_at_complete [] all = refl
no_at_complete (c ∷ s) (other, all) = ground (arith, no_at_complete s all)

port_sound :
    (rest : Str)
    → is_port_or_empty rest ≡ true
    → (rest ≡ []) ⊎ ((port : Str) × (rest ≡ b':' ∷ port))
unfolding is_port_or_empty
port_sound [] e = inl refl
port_sound (c ∷ port) e = inr (port, ground arith)

port_complete :
    (rest : Str)
    → (rest ≡ []) ⊎ ((port : Str) × (rest ≡ b':' ∷ port))
    → is_port_or_empty rest ≡ true
unfolding is_port_or_empty
port_complete rest (inl e) = ground (arith, e)
port_complete rest (inr (port, e)) = ground (arith, e)

pub is_local_authority_sound : (a : Authority) → is_local_authority a ≡ true → IsLocal a
unfolding is_local_authority
is_local_authority_sound a h = elim (Option-cases (strip_prefix a.host a.text)) [
  | inl e ↦ absurd (ground (arith, e))
  | inr (rest, e) ↦ record {
    rest = rest;
    name = strip_ipv6_brackets a.host;
    no_userinfo = no_at_sound a.text (ground (arith, e));
    whole = strip_prefix_sound a.host a.text rest e;
    port = port_sound rest (ground (arith, e));
    host = strip_ipv6_brackets-IsBracketed a.host;
    loopback = is_loopback_sound (strip_ipv6_brackets a.host) (ground (arith, e));
  }
]

pub is_local_authority_complete : (a : Authority) → IsLocal a → is_local_authority a ≡ true
unfolding is_local_authority
is_local_authority_complete a l =
    let found : strip_prefix a.host a.text ≡ some l.rest =
      ap (strip_prefix a.host) l.whole ∙ strip_prefix_complete a.host l.rest in
    let plain = this_machine_plain l.name l.loopback in
    let loopback : is_loopback (strip_ipv6_brackets a.host) ≡ true =
      ap is_loopback (strip_ipv6_brackets_complete l.name a.host plain l.host)
      ∙ is_loopback_complete l.name l.loopback in
    ground
      (arith, found, no_at_complete a.text l.no_userinfo, port_complete l.rest l.port, loopback)
