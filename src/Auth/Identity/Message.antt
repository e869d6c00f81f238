-- ===== src/Auth/Identity/Message.antt =====
-- The bytes that a device signs.
use simple_remote.Base.{
  ℕ, ◌%◌, ◌<◌, ◌≡◌, ◌≢◌, refl, [], ◌∷◌, ◌++◌, length, drop, arith, ap, sym, ◌∙◌, codes,
}
use simple_remote.Base.Text.{Bytes}
use simple_remote.Base.Words.{u16_to_be}
use simple_remote.Auth.Identity.{
  Role, viewer, host, byte, with_length, session_message, reconnect_message,
}

byte-injective : (r s : Role) → byte r ≡ byte s → r ≡ s
unfolding byte
byte-injective viewer viewer e = refl
byte-injective viewer host e = absurd (omega arith)
byte-injective host viewer e = absurd (omega arith)
byte-injective host host e = refl

-- Two lists with prefixes of one length are equal part by part.
append-injective :
    (xs ys : Bytes) (zs ws : Bytes)
    → length xs ≡ length ys
    → xs ++ zs ≡ ys ++ ws
    → (xs ≡ ys) × (zs ≡ ws)
append-injective [] [] zs ws l e = (refl, e)
append-injective [] (y ∷ ys) zs ws l e = absurd (omega arith)
append-injective (x ∷ xs) [] zs ws l e = absurd (omega arith)
append-injective (x ∷ xs) (y ∷ ys) zs ws l e =
    let (same, rest) = append-injective xs ys zs ws (omega arith) (cc) in (cc, rest)

u16-injective :
    (m n : ℕ) → m < 65536 → n < 65536 → u16_to_be (m % 65536) ≡ u16_to_be (n % 65536) → m ≡ n
unfolding u16_to_be
u16-injective m n hm hn e = ground arith

length-u16 : (m n : ℕ) → length (u16_to_be m) ≡ length (u16_to_be n)
unfolding u16_to_be
length-u16 m n = refl

with_length-injective :
    (f g rest more : Bytes)
    → length f < 65536
    → length g < 65536
    → with_length f rest ≡ with_length g more
    → (f ≡ g) × (rest ≡ more)
unfolding with_length
with_length-injective f g rest more hf hg e =
    let (counts, bodies) =
      append-injective (u16_to_be (length f % 65536)) (u16_to_be (length g % 65536)) (f ++ rest)
        (g ++ more) (length-u16 (length f % 65536) (length g % 65536)) e in
    append-injective f g rest more (u16-injective (length f) (length g) hf hg counts) bodies

abbrev pub FitsU16 : Bytes → Type 0
FitsU16 b = length b < 65536

-- The signed message determines the sender's role, the session's binding, both fingerprints and the
-- name, as long as bindings have 32 bytes and the other fields less than `2 ^ 16`: a signature for
-- one session, role or pair of fingerprints is none for another.
pub session_message-injective :
    (r r' : Role) (b b' own own' peer peer' name name' : Bytes)
    → length b ≡ 32
    → length b' ≡ 32
    → FitsU16 own
    → FitsU16 own'
    → FitsU16 peer
    → FitsU16 peer'
    → FitsU16 name
    → FitsU16 name'
    → session_message r b own peer name ≡ session_message r' b' own' peer' name'
    → (r ≡ r') × (b ≡ b') × (own ≡ own') × (peer ≡ peer') × (name ≡ name')
unfolding session_message
session_message-injective r r' b b' own own' peer peer' name name' lb lb' o o' p p' n n' e =
    let body = λ (s : Role) (c f g m : Bytes).
      byte s ∷ (c ++ with_length f (with_length g (with_length m []))) in
    let (_, tagged) =
      append-injective (codes "simple-remote hello v1") (codes "simple-remote hello v1")
        (body r b own peer name) (body r' b' own' peer' name') refl e in
    let role : byte r ≡ byte r' = ground (arith, tagged) in
    let fields = ap (drop 1) tagged in
    let (bindings, rest) =
      append-injective b b' (with_length own (with_length peer (with_length name [])))
        (with_length own' (with_length peer' (with_length name' []))) (lb ∙ sym lb') fields in
    let (owns, rest') =
      with_length-injective own own' (with_length peer (with_length name []))
        (with_length peer' (with_length name' [])) o o' rest in
    let (peers, rest'') =
      with_length-injective peer peer' (with_length name []) (with_length name' []) p p' rest' in
    let (names, _) = with_length-injective name name' [] [] n n' rest'' in
    (byte-injective r r' role, bindings, owns, peers, names)

-- The signaling server's challenge is signed behind a third prefix (see `Host.Register`).
abbrev pub auth_prefix : Bytes
auth_prefix = codes "simple-remote signaling auth v1"

-- No message is at once a session's, a reconnect key's and a signaling challenge's, or two of these.
pub contexts_disjoint :
    (r : Role) (b own peer name key answer : Bytes)
    → (session_message r b own peer name ≢ reconnect_message key)
      × (session_message r b own peer name ≢ auth_prefix ++ answer)
      × (reconnect_message key ≢ auth_prefix ++ answer)
unfolding session_message reconnect_message
contexts_disjoint r b own peer name key answer = (
  λ e. let at = ap (drop 14) e in ground (arith, at),
  λ e. let at = ap (drop 14) e in ground (arith, at),
  λ e. let at = ap (drop 14) e in ground (arith, at),
)
