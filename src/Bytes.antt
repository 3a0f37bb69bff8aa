-- ===== src/Bytes.antt =====
-- Unsigned numbers in memory on a little-endian machine.
use Prim.Native.Nat.{◌/◌}
use distributed_replicated_c.Prelude.{
  ℕ, zero, suc, ◌+◌, ◌*◌, ◌%◌, ◌≡◌, refl, sym, ap, ◌∙◌, List, [], ◌∷◌, length, IsU64, arith,
}

unfoldable pub le_bytes : ℕ → ℕ → List ℕ
le_bytes zero v = []
le_bytes (suc k) v = (v % 256) ∷ le_bytes k (v / 256)

unfoldable pub of_le_bytes : List ℕ → ℕ
of_le_bytes [] = 0
of_le_bytes (x ∷ xs) = x + 256 * of_le_bytes xs

pub length-le_bytes : (k v : ℕ) → length (le_bytes k v) ≡ k
unfolding le_bytes
length-le_bytes zero v = refl
length-le_bytes (suc k) v = ap suc (length-le_bytes k (v / 256))

pub u64_round_trip : (v : ℕ) → IsU64 v → of_le_bytes (le_bytes 8 v) ≡ v
unfolding le_bytes of_le_bytes
u64_round_trip v h = omega arith

-- Different numbers have different bytes.
pub le_bytes-injective : (v w : ℕ) → IsU64 v → IsU64 w → le_bytes 8 v ≡ le_bytes 8 w → v ≡ w
le_bytes-injective v w h k e = sym (u64_round_trip v h) ∙ ap of_le_bytes e ∙ u64_round_trip w k
