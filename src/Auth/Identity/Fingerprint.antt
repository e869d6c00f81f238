-- ===== src/Auth/Identity/Fingerprint.antt =====
-- The shape of a displayed fingerprint.
use simple_remote.Base.{◌*◌, ◌≤◌, ◌≡◌, refl, [], ◌∷◌, ◌++◌, length, take, drop, arith, ap, ◌∙◌}
use simple_remote.Base.Text.{Bytes, Str}
use simple_remote.Protocol.Serde.{Codec}
use simple_remote.Auth.Identity.{group_by_four, key_fingerprint}

-- The four groups of a list of sixteen digits, with a space between each two.
abbrev pub spaced : Str → Str
spaced s =
    take 4 s ++ 32 ∷ (take 4 (drop 4 s) ++ 32 ∷ (take 4 (drop 8 s) ++ 32 ∷ take 4 (drop 12 s)))

group_sixteen : (s : Str) → length s ≡ 16 → group_by_four s ≡ spaced s
unfolding group_by_four
group_sixteen (a ∷ b ∷ c ∷ d ∷ e ∷ f ∷ g ∷ h ∷ i ∷ j ∷ k ∷ l ∷ m ∷ n ∷ o ∷ p ∷ []) _ = refl
group_sixteen _ w = absurd (omega arith)

length-spaced : (s : Str) → length s ≡ 16 → length (spaced s) ≡ 19
length-spaced (a ∷ b ∷ c ∷ d ∷ e ∷ f ∷ g ∷ h ∷ i ∷ j ∷ k ∷ l ∷ m ∷ n ∷ o ∷ p ∷ []) _ = refl
length-spaced _ w = absurd (omega arith)

length-take_eight : (s : Bytes) → 8 ≤ length s → length (take 8 s) ≡ 8
length-take_eight (a ∷ b ∷ c ∷ d ∷ e ∷ f ∷ g ∷ h ∷ s) _ = refl
length-take_eight _ w = absurd (omega arith)

-- A fingerprint shows the hex digits of the first eight bytes of the key's hash, in four groups of
-- four with a space between each two, 19 characters in all; the hash has eight bytes or more, and
-- the hex encoder writes two digits to a byte.
pub key_fingerprint_shape :
    (sha256 : Bytes → Bytes) (hex : Codec Bytes Str) (key : Bytes)
    → ((b : Bytes) → length (hex.to_wire b) ≡ 2 * length b)
    → 8 ≤ length (sha256 key)
    → (key_fingerprint sha256 hex key ≡ spaced (hex.to_wire (take 8 (sha256 key))))
      × (length (key_fingerprint sha256 hex key) ≡ 19)
unfolding key_fingerprint
key_fingerprint_shape sha256 hex key two long =
    let digits = hex.to_wire (take 8 (sha256 key)) in
    let sixteen : length digits ≡ 16 =
      omega (arith, two (take 8 (sha256 key)), length-take_eight (sha256 key) long) in
    let grouped = group_sixteen digits sixteen in
    (grouped, ap length grouped ∙ length-spaced digits sixteen)
