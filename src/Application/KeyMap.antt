-- ===== src/Application/KeyMap.antt =====
-- A Go map with string keys, as the list of its entries. The code never walks over a map.
use ofm_mail_service.Prelude.{
  ◌≡◌, String, List, [], ◌∷◌, Option, none, some, arith, ◌==◌, eq_iff, if◌then◌else◌,
}

module _ {ℓ} {V : Type ℓ} where
  -- v, ok := m[key]
  unfoldable pub lookup : String → List (String × V) → Option V
  lookup key [] = none
  lookup key ((k, v) ∷ rest) = if k == key then some v else lookup key rest

  -- m[key] = v
  unfoldable pub assign : String → V → List (String × V) → List (String × V)
  assign key v [] = (key, v) ∷ []
  assign key v ((k, u) ∷ rest) =
      let later = assign key v rest in if k == key then (k, v) ∷ rest else (k, u) ∷ later

  pub lookup-assign :
      (key other : String) (v : V) (m : List (String × V))
      → lookup other (assign key v m) ≡ (if key == other then some v else lookup other m)
  unfolding lookup assign
  lookup-assign key other v [] = ground arith
  lookup-assign key other v ((k, u) ∷ rest) =
      ground (arith, lookup-assign key other v rest, eq_iff k key, eq_iff k other, eq_iff key other)
