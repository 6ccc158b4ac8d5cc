-- ===== src/TypeBridge/Examples.antt =====
-- Values on which the theorems are applied.
use bht_bhte.Prelude.{ℕ, ◌≡◌, refl, List, ◌∷◌, some, arith, replicate}
use bht_bhte.TypeBridge.{to_hex, from_hex}
use bht_bhte.TypeBridge.Laws.{from_hex-to_hex}

abbrev value_256 : List ℕ
value_256 = 0 ∷ 171 ∷ replicate 30 9

from_hex-to_hex_example : from_hex (to_hex value_256) ≡ some value_256
from_hex-to_hex_example = from_hex-to_hex value_256 refl (omega arith)
