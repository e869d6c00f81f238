-- ===== src/Base/Words.antt =====
-- Big-endian machine words as byte strings (`to_be_bytes`, `from_be_bytes`).
use Prim.Native.Nat.{ℕ, ◌+◌, ◌*◌, ◌/◌, ◌%◌, ◌<◌}
use mathlib.Core.Path.{◌≡◌}
use mathlib.Core.List.{List, [], ◌∷◌}
use native.Mathlib.Omega.{arith}

unfoldable pub u16_to_be : ℕ → List ℕ
u16_to_be n = (n / 256 % 256) ∷ (n % 256) ∷ []

unfoldable pub u64_to_be : ℕ → List ℕ
u64_to_be n =
    (n / 72057594037927936 % 256)
    ∷ (n / 281474976710656 % 256)
    ∷ (n / 1099511627776 % 256)
    ∷ (n / 4294967296 % 256)
    ∷ (n / 16777216 % 256)
    ∷ (n / 65536 % 256)
    ∷ (n / 256 % 256)
    ∷ (n % 256)
    ∷ []

from_be_acc : ℕ → List ℕ → ℕ
from_be_acc acc [] = acc
from_be_acc acc (b ∷ bs) = from_be_acc (acc * 256 + b) bs

unfoldable pub from_be : List ℕ → ℕ
unfolding from_be_acc
from_be bs = from_be_acc 0 bs

pub from_be-u64_to_be : (n : ℕ) → n < 18446744073709551616 → from_be (u64_to_be n) ≡ n
unfolding from_be u64_to_be
from_be-u64_to_be n h = omega arith

-- The eight bytes are determined by the number that they stand for.
pub u64_to_be-from_be :
    (a b c d e f g h : ℕ)
    → a < 256
    → b < 256
    → c < 256
    → d < 256
    → e < 256
    → f < 256
    → g < 256
    → h < 256
    → let bs = a ∷ b ∷ c ∷ d ∷ e ∷ f ∷ g ∷ h ∷ [] in u64_to_be (from_be bs) ≡ bs
unfolding from_be u64_to_be
u64_to_be-from_be a b c d e f g h ha hb hc hd he hf hg hh = ground arith
