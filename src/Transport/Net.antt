-- ===== src/Transport/Net.antt =====
-- crates/transport/src/net.rs: the addresses of the machine that go out. UDP sockets and the two tests
-- on addresses of the standard library are parameters; an address is its text.
use simple_remote.Base.{
  ◌≡◌, Bool, false, ◌||◌, Option, none, some, List, [], ◌∷◌, codes, ◌==◌, if◌then◌else◌, All, arith,
  Bool-cases, Option-cases, inl, inr, sym, subst,
}
use simple_remote.Base.Text.{Str}

-- A socket bound to an address
pub record Udp : Type 1 where
  pub Socket : Type 0
  pub bind : Str → Option Socket
  pub connect : Socket → Str → Option Socket
  pub local_ip : Socket → Option Str
  pub is_loopback : Str → Bool
  pub is_unspecified : Str → Bool

-- `target.starts_with('[')`
unfoldable pub bind_addr : Str → Str
bind_addr [] = codes "0.0.0.0:0"
bind_addr (c ∷ s) = if c == b'[' then codes "[::]:0" else codes "0.0.0.0:0"

module _ (udp : Udp) where
  unfoldable pub local_ip_for : Str → Option Str
  local_ip_for target = elim (udp.bind (bind_addr target)) [
    | none ↦ none
    | some sock ↦ elim (udp.connect sock target) [ none ↦ none | some s ↦ udp.local_ip s ]
  ]

  -- The loop of `local_ips`
  unfoldable pub ips_for : List Str → List Str
  ips_for [] = []
  ips_for (target ∷ targets) =
      let more = ips_for targets in
      elim (local_ip_for target) [
        | none ↦ more
        | some ip ↦ if udp.is_loopback ip || udp.is_unspecified ip then more else ip ∷ more
      ]

  unfoldable pub local_ips : List Str
  local_ips = ips_for (codes "1.1.1.1:53" ∷ codes "[2606:4700:4700::1111]:53" ∷ [])

  -- An address that another machine may reach
  abbrev pub GoesOut : Str → Type 0
  GoesOut ip = (udp.is_loopback ip ≡ false) × (udp.is_unspecified ip ≡ false)

  ips_for-GoesOut : (targets : List Str) → All GoesOut (ips_for targets)
  unfolding ips_for
  ips_for-GoesOut [] = tt
  ips_for-GoesOut (target ∷ targets) = elim (Option-cases (local_ip_for target)) [
    | inl none_found ↦
        let out : ips_for (target ∷ targets) ≡ ips_for targets = ground (arith, none_found) in
        subst (All GoesOut) (sym out) (ips_for-GoesOut targets)
    | inr (ip, found) ↦ elim (Bool-cases (udp.is_loopback ip || udp.is_unspecified ip)) [
      | inl useless ↦
          let out : ips_for (target ∷ targets) ≡ ips_for targets = ground (arith, found, useless) in
          subst (All GoesOut) (sym out) (ips_for-GoesOut targets)
      | inr useful ↦
          let out : ips_for (target ∷ targets) ≡ ip ∷ ips_for targets =
            ground (arith, found, useful) in
          subst (All GoesOut) (sym out) ((ground arith, ground arith), ips_for-GoesOut targets)
    ]
  ]

  -- No address of the machine that `local_ips` gives is a loopback or an unspecified one.
  pub local_ips-GoesOut : All GoesOut local_ips
  unfolding local_ips
  local_ips-GoesOut = ips_for-GoesOut _
