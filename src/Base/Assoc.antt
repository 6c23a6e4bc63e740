-- ===== src/Base/Assoc.antt =====
-- A hash map with texts as keys, as an association list, and what it holds under a key after each operation.
use Prim.Native.Nat.{ℕ}
use mathlib.Core.Path.{◌≡◌}
use mathlib.Core.Option.{Option, none, some}
use mathlib.Core.List.{List, [], ◌∷◌}
use native.Mathlib.Omega.{arith}
use secure_desk.Base.Tests.{if◌then◌else◌}
use secure_desk.Base.Text.{text_eq, text_eq_sound, text_eq_refl}

abbrev pub Assoc {ℓ} : Type ℓ → Type ℓ
Assoc V = List (List ℕ × V)

-- `HashMap::get`, `remove` and `insert`
unfoldable pub find {ℓ} : {V : Type ℓ} → List ℕ → Assoc V → Option V
find id [] = none
find id (p ∷ ps) = let rest = find id ps in if text_eq id p.0 then some p.1 else rest

unfoldable pub remove {ℓ} : {V : Type ℓ} → List ℕ → Assoc V → Assoc V
remove id [] = []
remove id (p ∷ ps) = let rest = remove id ps in if text_eq id p.0 then rest else p ∷ rest

unfoldable pub insert {ℓ} : {V : Type ℓ} → List ℕ → V → Assoc V → Assoc V
unfolding remove
insert id entry m = (id, entry) ∷ remove id m

module _ {ℓ} {V : Type ℓ} where
  pub find-remove :
      (id k : List ℕ) (m : Assoc V)
      → find k (remove id m) ≡ (if text_eq k id then none else find k m)
  unfolding find remove
  find-remove id k [] = ground arith
  find-remove id k (p ∷ ps) = ground (
    arith,
    find-remove id k ps,
    text_eq_sound id p.0,
    text_eq_refl p.0,
    text_eq_sound k p.0,
    text_eq_sound k id,
  )

  pub find-insert :
      (id k : List ℕ) (entry : V) (m : Assoc V)
      → find k (insert id entry m) ≡ (if text_eq k id then some entry else find k m)
  unfolding find insert
  find-insert id k entry m = ground (arith, find-remove id k m)
