-- ===== src/Base/Fault.antt =====
-- Reads that may leave the buffer, and allocations that may fail: `none` is an access that C leaves undefined.
use mathlib.Core.Bool.{Bool, true}
use mathlib.Core.List.{List, [], ◌∷◌}
use mathlib.Core.Option.{Option, none, some}

infixl 5 ◌>>=◌
abbrev pub ◌>>=◌ {ℓ κ} : {A : Type ℓ} {B : Type κ} → Option A → (A → Option B) → Option B
none >>= f = none
some a >>= f = f a

-- The outcomes of the allocations to come: whether the next one succeeds, and those behind it
abbrev pub allocated : List Bool → Bool
allocated [] = true
allocated (b ∷ memory) = b

abbrev pub rest_of : List Bool → List Bool
rest_of [] = []
rest_of (b ∷ memory) = memory
