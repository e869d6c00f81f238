-- ===== src/Transport/Link/Connect/First.antt =====
-- Which address a link is made to.
use simple_remote.Base.{
  ℕ, ◌≡◌, refl, inl, inr, Option, none, some, List, [], ◌∷◌, ◌++◌, ok, err, arith, All,
  Option-cases, Result-cases, ap, ◌∙◌, subst,
}
use simple_remote.Base.Text.{Str}
use simple_remote.Transport.Interface.{IoKind, not_found}
use simple_remote.Transport.Url.{Uri, Authority, strip_ipv6_brackets, ensure_secure_url}
use simple_remote.Transport.Url.Laws.{IsSecure, IsSecure-sound}
use simple_remote.Transport.Link.{WsLink}
use simple_remote.Transport.Link.Connect.{
  Network, connect_timeout, max_message_bytes, host_of, port_or_default, tcp_loop, connect_tcp,
  upgrade, connect,
}

module _ (net : Network) where
  abbrev pub Refuses : net.Addr → Type 0
  Refuses a = (e : IoKind) × (net.tcp_connect a connect_timeout ≡ err e)

  -- The first of the addresses that takes the connection
  abbrev pub FirstOf : List net.Addr → net.Stream → Type 0
  FirstOf addrs stream =
      (before : List net.Addr) × (addr : net.Addr) × (after : List net.Addr) × (addrs
        ≡ before ++ (addr ∷ after))
      × All Refuses before
      × (net.tcp_connect addr connect_timeout ≡ ok stream)

  tcp_loop-FirstOf :
      (last_err : IoKind) (addrs : List net.Addr) (stream : net.Stream)
      → tcp_loop net last_err addrs ≡ ok stream
      → FirstOf addrs stream
  unfolding tcp_loop
  tcp_loop-FirstOf last_err [] stream e = absurd (ground arith)
  tcp_loop-FirstOf last_err (addr ∷ more) stream e =
      elim (Result-cases (net.tcp_connect addr connect_timeout)) [
        | inl (x, refused) ↦
            let (before, a, after, split, refuse, takes) =
              tcp_loop-FirstOf x more stream (ground (arith, refused)) in
            (addr ∷ before, a, after, ap (λ l. addr ∷ l) split, ((x, refused), refuse), takes)
        | inr (s, taken) ↦ ([], addr, more, refl, tt, taken ∙ ap ok (ground (arith, taken)))
      ]

  upgrade_sound :
      (url : Str) (s stream : net.Stream) (link : WsLink)
      → upgrade net url s ≡ ok (stream, link)
      → (s ≡ stream) × (net.handshake url s max_message_bytes ≡ ok tt) × (link.closed ≡ none)
  unfolding upgrade
  upgrade_sound url s stream link e = elim (Result-cases (net.set_nodelay s)) [
    | inl (x, a) ↦ absurd (ground (arith, a))
    | inr (x, a) ↦ elim (Result-cases (net.set_read_timeout s connect_timeout)) [
      | inl (y, b) ↦ absurd (ground (arith, a, b))
      | inr (y, b) ↦ elim (Result-cases (net.set_write_timeout s connect_timeout)) [
        | inl (z, c) ↦ absurd (ground (arith, a, b, c))
        | inr (z, c) ↦ elim (Result-cases (net.handshake url s max_message_bytes)) [
          | inl (v, d) ↦ absurd (ground (arith, a, b, c, d))
          | inr (tt, d) ↦ ground (arith, a, b, c, d)
        ]
      ]
    ]
  ]

  -- When `connect` gives a link, its URL was read and is secure; the stream is that of the first
  -- address of the host, at the port of the URL or the one that belongs to the scheme, that took the
  -- connection, all addresses before it having refused; the handshake was made on this stream with
  -- the URL and the bound on messages, and the link is open.
  pub connect-IsSecure :
      (parse : Str → Option Uri) (port_u16 : Uri → Option ℕ) (url : Str) (stream : net.Stream)
      (link : WsLink)
      → connect net parse port_u16 url ≡ ok (stream, link)
      → (uri : Uri) × (authority : Authority) × (addrs : List net.Addr) × (parse url ≡ some uri)
        × IsSecure uri
        × (uri.authority ≡ some authority)
        × (net.to_socket_addrs
              (strip_ipv6_brackets authority.host)
              (port_or_default (port_u16 uri) uri)
            ≡ ok addrs)
        × FirstOf addrs stream
        × (net.handshake url stream max_message_bytes ≡ ok tt)
        × (link.closed ≡ none)
  unfolding connect connect_tcp host_of
  connect-IsSecure parse port_u16 url stream link e =
      elim (Result-cases (ensure_secure_url parse url)) [
        | inl (x, insecure) ↦ absurd (ground (arith, insecure))
        | inr (uri, secure) ↦ elim (Option-cases uri.authority) [
          | inl nobody ↦ absurd (ground (arith, secure, nobody))
          | inr (a, authority) ↦
              elim (Result-cases (
                net.to_socket_addrs (strip_ipv6_brackets a.host)
                  (port_or_default (port_u16 uri) uri))) [
                    | inl (x, unknown) ↦ absurd (ground (arith, secure, authority, unknown))
                    | inr (addrs, known) ↦ elim (Result-cases (tcp_loop net not_found addrs)) [
                      | inl (x, refused) ↦
                          absurd (ground (arith, secure, authority, known, refused))
                      | inr (s, taken) ↦
                          let (same, shaken, fresh) =
                            upgrade_sound url s stream link
                              (ground (arith, secure, authority, known, taken)) in
                          let (parsed, safe) = IsSecure-sound parse url uri secure in
                          (
                            uri,
                            a,
                            addrs,
                            parsed,
                            safe,
                            authority,
                            known,
                            subst (FirstOf addrs) same (tcp_loop-FirstOf not_found addrs s taken),
                            subst (λ s'. net.handshake url s' max_message_bytes ≡ ok tt) same
                                shaken,
                            fresh,
                          )
                    ]
                  ]
        ]
      ]
