-- ===== src/Transport/Peer/Poll/Means.antt =====
-- What the events of the library mean to the peer.
use simple_remote.Base.{
  ℕ, ◌≡◌, ◌≢◌, refl, inl, inr, true, false, Option, none, some, List, [], ◌∷◌, ◌++◌, arith, codes,
  ◌==◌, bytes_eq, bytes_eq_sound, Bool-cases, Option-cases, ap, sym, ◌∙◌, append_assoc, append-nil,
  subst,
}
use simple_remote.Base.Text.{Bytes, Str}
use simple_remote.Transport.Interface.{PeerEvent}
use simple_remote.Transport.Peer.{Event, Peer, control_label, map_event}
use simple_remote.Transport.Peer.Poll.{push}

-- With this control channel at the start, these events of the library are these events of the peer, in
-- their order, and this control channel at the end. The opening of a channel is told, and makes it the
-- control channel, only when its label is `control`; the closing of a channel is told only when it is
-- the control channel.
pub data Means : Option ℕ → List Event → List PeerEvent → Option ℕ → Type 0 where
  nothing : {c : Option ℕ} → Means c [] [] c
  connected :
      {c c' : Option ℕ} {es : List Event} {out : List PeerEvent}
      → Means c es out c'
      → Means c (Event.connected ∷ es) (PeerEvent.connected ∷ out) c'
  control_opened :
      {c c' : Option ℕ} {es : List Event} {out : List PeerEvent} {id : ℕ}
      → Means (some id) es out c'
      → Means c (Event.channel_open id (codes "control") ∷ es) (PeerEvent.channel_open ∷ out) c'
  other_opened :
      {c c' : Option ℕ} {es : List Event} {out : List PeerEvent} {id : ℕ} {label : Str}
      → label ≢ codes "control"
      → Means c es out c'
      → Means c (Event.channel_open id label ∷ es) out c'
  came :
      {c c' : Option ℕ} {es : List Event} {out : List PeerEvent} {d : Bytes}
      → Means c es out c'
      → Means c (Event.channel_data d ∷ es) (PeerEvent.received d ∷ out) c'
  control_closed :
      {c' : Option ℕ} {es : List Event} {out : List PeerEvent} {id : ℕ}
      → Means (some id) es out c'
      → Means (some id) (Event.channel_close id ∷ es) (PeerEvent.closed ∷ out) c'
  other_closed :
      {c c' : Option ℕ} {es : List Event} {out : List PeerEvent} {id : ℕ}
      → c ≢ some id
      → Means c es out c'
      → Means c (Event.channel_close id ∷ es) out c'
  closed :
      {c c' : Option ℕ} {es : List Event} {out : List PeerEvent}
      → Means c es out c'
      → Means c (Event.closed ∷ es) (PeerEvent.closed ∷ out) c'
  other :
      {c c' : Option ℕ} {es : List Event} {out : List PeerEvent}
      → Means c es out c'
      → Means c (Event.other ∷ es) out c'

-- What `poll` makes of the events, one after the other
abbrev pub told_all : List Event → List PeerEvent → Peer → List PeerEvent × Peer
told_all [] events p = (events, p)
told_all (e ∷ es) events p = told_all es (push (map_event e p).0 events) (map_event e p).1

-- After the events told before there are those that are meant, and only the control channel changes.
abbrev Adds : List Event → List PeerEvent → Peer → List PeerEvent × Peer → Type 0
Adds es acc p (events, p') =
    (out : List PeerEvent) × (events ≡ acc ++ out)
    × Means p.control es out p'.control
    × (p' ≡ record p { control = p'.control })

abbrev with_control : Option ℕ → Peer → Peer
with_control c p = record p { control = c }

-- An event that is told
told-Adds :
    (e : Event) (es : List Event) (acc : List PeerEvent) (p p1 : Peer) (told : PeerEvent)
    → map_event e p ≡ (some told, p1)
    → p1 ≡ record p { control = p1.control }
    → ((out : List PeerEvent) (c' : Option ℕ)
        → Means p1.control es out c'
        → Means p.control (e ∷ es) (told ∷ out) c')
    → Adds es (acc ++ told ∷ []) p1 (told_all es (acc ++ told ∷ []) p1)
    → Adds (e ∷ es) acc p (told_all (e ∷ es) acc p)
told-Adds e es acc p p1 told is_told only more (out, events, means, rest) =
    subst (λ m. Adds (e ∷ es) acc p (told_all es (push m.0 acc) m.1)) (sym is_told)
      (
        told ∷ out,
        events ∙ append_assoc acc (told ∷ []) out,
        more out (told_all es (acc ++ told ∷ []) p1).1.control means,
        rest ∙ ap {A = Peer} (with_control (told_all es (acc ++ told ∷ []) p1).1.control) only,
      )

-- An event that is not told
untold-Adds :
    (e : Event) (es : List Event) (acc : List PeerEvent) (p : Peer)
    → map_event e p ≡ (none, p)
    → ((out : List PeerEvent) (c' : Option ℕ)
        → Means p.control es out c'
        → Means p.control (e ∷ es) out c')
    → Adds es acc p (told_all es acc p)
    → Adds (e ∷ es) acc p (told_all (e ∷ es) acc p)
untold-Adds e es acc p silent more (out, events, means, rest) =
    subst (λ m. Adds (e ∷ es) acc p (told_all es (push m.0 acc) m.1)) (sym silent)
      (out, events, more out (told_all es acc p).1.control means, rest)

other_label : (label : Str) → bytes_eq label control_label ≡ false → label ≢ codes "control"
other_label label e same =
    let equal : bytes_eq label control_label ≡ true = ap (λ l. bytes_eq l control_label) same in
    absurd (ground arith)

told_all-Adds :
    (es : List Event) (acc : List PeerEvent) (p : Peer) → Adds es acc p (told_all es acc p)
unfolding map_event
told_all-Adds [] acc p = ([], sym (append-nil acc), nothing, refl)
told_all-Adds (Event.connected ∷ es) acc p =
    told-Adds Event.connected es acc p p PeerEvent.connected refl refl (λ out c' m. connected m)
      (told_all-Adds es (acc ++ PeerEvent.connected ∷ []) p)
told_all-Adds (Event.channel_open id label ∷ es) acc p =
    elim (Bool-cases (bytes_eq label control_label)) [
      | inr no_control ↦
          untold-Adds (Event.channel_open id label) es acc p (ground (arith, no_control))
            (λ out c' m. other_opened (other_label label no_control) m) (told_all-Adds es acc p)
      | inl control ↦
          let p1 : Peer = record p { control = some id } in
          let is_control : label ≡ codes "control" = bytes_eq_sound label control_label control in
          told-Adds (Event.channel_open id label) es acc p p1 PeerEvent.channel_open
            (ground (arith, control)) refl
            (λ out c' m.
              subst
                (λ l.
                  Means p.control (Event.channel_open id l ∷ es) (PeerEvent.channel_open ∷ out) c')
                (sym is_control) (control_opened m))
            (told_all-Adds es (acc ++ PeerEvent.channel_open ∷ []) p1)
    ]
told_all-Adds (Event.channel_data d ∷ es) acc p =
    told-Adds (Event.channel_data d) es acc p p (PeerEvent.received d) refl refl
      (λ out c' m. came m) (told_all-Adds es (acc ++ PeerEvent.received d ∷ []) p)
told_all-Adds (Event.channel_close id ∷ es) acc p = elim (Option-cases p.control) [
  | inl without ↦
      untold-Adds (Event.channel_close id) es acc p (ground (arith, without))
        (λ out c' m. other_closed (λ e. ground (arith, without)) m) (told_all-Adds es acc p)
  | inr (c, with_control) ↦ elim (Bool-cases (c == id)) [
    | inr another ↦
        untold-Adds (Event.channel_close id) es acc p (ground (arith, with_control, another))
          (λ out c' m. other_closed (λ e. ground (arith, with_control, another)) m)
          (told_all-Adds es acc p)
    | inl same ↦
        let is_id : some id ≡ p.control = ground (arith, with_control, same) in
        told-Adds (Event.channel_close id) es acc p p PeerEvent.closed
          (ground (arith, with_control, same)) refl
          (λ out c' m.
            subst (λ x. Means x (Event.channel_close id ∷ es) (PeerEvent.closed ∷ out) c') is_id
              (control_closed (subst (λ x. Means x es out c') (sym is_id) m)))
          (told_all-Adds es (acc ++ PeerEvent.closed ∷ []) p)
  ]
]
told_all-Adds (Event.closed ∷ es) acc p =
    told-Adds Event.closed es acc p p PeerEvent.closed refl refl (λ out c' m. closed m)
      (told_all-Adds es (acc ++ PeerEvent.closed ∷ []) p)
told_all-Adds (Event.other ∷ es) acc p =
    untold-Adds Event.other es acc p refl (λ out c' m. other m) (told_all-Adds es acc p)

-- What is told from the start on is what is meant.
pub told_all-Means :
    (es : List Event) (p p' : Peer) (events : List PeerEvent)
    → told_all es [] p ≡ (events, p')
    → Means p.control es events p'.control × (p' ≡ record p { control = p'.control })
told_all-Means es p p' events e =
    let (out, same, means, rest) = subst (Adds es [] p) e (told_all-Adds es [] p) in
    (subst (λ x. Means p.control es x p'.control) (sym same) means, rest)
