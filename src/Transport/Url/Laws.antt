-- ===== src/Transport/Url/Laws.antt =====
-- Which URLs a link is opened to.
use simple_remote.Base.{
  ℕ, sym, ◌≡◌, refl, ◌↔◌, ◌⊎◌, inl, inr, true, Option, some, ◌∷◌, ok, codes, arith, ap, ◌∙◌,
  Option-cases, Bool-cases, subst,
}
use simple_remote.Base.Text.{Str}
use simple_remote.Transport.Url.Spelling.{IsSpelling, IsSpelling-sound, IsSpelling-complete}
use simple_remote.Transport.Url.Local.{
  IsLocal, is_local_authority_sound, is_local_authority_complete,
}
use simple_remote.Transport.Url.{
  lower, to_ascii_lowercase, Uri, Authority, eq_ignore_case, is_local_authority, scheme_of,
  ensure_secure_url,
}

-- These schemes have no capital letter.
lower_ws : lower (codes "ws") ≡ codes "ws"
unfolding lower to_ascii_lowercase
lower_ws = refl

lower_wss : lower (codes "wss") ≡ codes "wss"
unfolding lower to_ascii_lowercase
lower_wss = refl

-- The scheme is this one, in capital or small letters.
abbrev pub HasScheme : Str → Uri → Type 0
HasScheme name uri = (s : Str) × (uri.scheme ≡ some s) × IsSpelling name s

scheme_sound :
    (c : ℕ) (cs : Str) (uri : Uri)
    → lower (c ∷ cs) ≡ c ∷ cs
    → eq_ignore_case (scheme_of uri) (c ∷ cs) ≡ true
    → HasScheme (c ∷ cs) uri
unfolding lower
scheme_sound c cs uri plain e = elim (Option-cases uri.scheme) [
  | inl without ↦ absurd (ground (arith, without))
  | inr (s, here) ↦
      let text_eq : scheme_of uri ≡ s = ground (arith, here) in
      let equal : eq_ignore_case s (c ∷ cs) ≡ true =
        ap (λ t. eq_ignore_case t (c ∷ cs)) (sym text_eq) ∙ e in
      (s, here, IsSpelling-sound (c ∷ cs) s plain equal)
]

scheme_complete :
    (name : Str) (uri : Uri)
    → lower name ≡ name
    → HasScheme name uri
    → eq_ignore_case (scheme_of uri) name ≡ true
scheme_complete name uri plain (s, here, spelled) =
    let text_eq : scheme_of uri ≡ s = ground (arith, here) in
    ap (λ t. eq_ignore_case t name) text_eq ∙ IsSpelling-complete name s plain spelled

-- The URLs a link is opened to.
abbrev pub IsSecure : Uri → Type 0
IsSecure uri =
    HasScheme (codes "wss") uri
    ⊎ (HasScheme (codes "ws") uri × ((a : Authority) × (uri.authority ≡ some a) × IsLocal a))

pub IsSecure-sound :
    (parse : Str → Option Uri) (url : Str) (uri : Uri)
    → ensure_secure_url parse url ≡ ok uri
    → (parse url ≡ some uri) × IsSecure uri
unfolding ensure_secure_url
IsSecure-sound parse url uri h = elim (Option-cases (parse url)) [
  | inl e ↦ absurd (ground (arith, e))
  | inr (found, e) ↦ elim (Bool-cases (eq_ignore_case (scheme_of found) (codes "wss"))) [
    | inl wss ↦
        let same : found ≡ uri = ground (arith, e, wss) in
        (
          ground (arith, same),
          subst IsSecure same (inl (scheme_sound b'w' (codes "ss") found lower_wss wss)),
        )
    | inr not_wss ↦ elim (Bool-cases (eq_ignore_case (scheme_of found) (codes "ws"))) [
      | inr f ↦ absurd (ground (arith, e, not_wss, f))
      | inl ws ↦ elim (Option-cases found.authority) [
        | inl f ↦ absurd (ground (arith, e, not_wss, ws, f))
        | inr (a, f) ↦ elim (Bool-cases (is_local_authority a)) [
          | inr g ↦ absurd (ground (arith, e, not_wss, ws, f, g))
          | inl g ↦
              let same : found ≡ uri = ground (arith, e, not_wss, ws, f, g) in
              (
                ground (arith, same),
                subst IsSecure same (
                    inr (
                      scheme_sound b'w' (codes "s") found lower_ws ws,
                      (a, f, is_local_authority_sound a g),
                    )),
              )
        ]
      ]
    ]
  ]
]

IsSecure-complete :
    (parse : Str → Option Uri) (url : Str) (uri : Uri)
    → parse url ≡ some uri
    → IsSecure uri
    → ensure_secure_url parse url ≡ ok uri
unfolding ensure_secure_url
IsSecure-complete parse url uri e (inl wss) =
    ground (arith, scheme_complete (codes "wss") uri lower_wss wss)
IsSecure-complete parse url uri e (inr (ws, (a, f, local))) =
    ground
      (arith, scheme_complete (codes "ws") uri lower_ws ws, f, is_local_authority_complete a local)

-- A URL is accepted, and unchanged, exactly when it parses and its scheme is `wss`; or its scheme is
-- `ws` and its authority has no user information and is a host, alone or followed by a colon and any
-- text, that is 127.0.0.1, ::1 or localhost, perhaps between brackets. The schemes and localhost may
-- be in capital or small letters.
pub IsSecure-exactly :
    (parse : Str → Option Uri) (url : Str) (uri : Uri)
    → (ensure_secure_url parse url ≡ ok uri) ↔ ((parse url ≡ some uri) × IsSecure uri)
IsSecure-exactly parse url uri =
    (IsSecure-sound parse url uri, λ h. IsSecure-complete parse url uri h.0 h.1)
