-- ===== src/ResourceTypes.antt =====
-- agente_c/include/resource_types.h.
use tp_sist_op.Prelude.{Bool, true, false, ◌≡◌, refl, ◌↔◌, arith}

-- `RESOURCE_CPU`, `RESOURCE_MEM`, `RESOURCE_GPU`: every value that the parsers produce.
pub data Resource : Type 0 where
  cpu mem gpu : Resource

unfoldable pub resource_eq : Resource → Resource → Bool
resource_eq cpu cpu = true
resource_eq mem mem = true
resource_eq gpu gpu = true
resource_eq _ _ = false

pub resource_eq_iff : (a b : Resource) → (resource_eq a b ≡ true) ↔ (a ≡ b)
unfolding resource_eq
resource_eq_iff a b = ground arith

pub resource_eq_refl : (a : Resource) → resource_eq a a ≡ true
resource_eq_refl a = (resource_eq_iff a a).1 refl
