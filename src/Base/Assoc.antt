-- ===== src/Base/Assoc.antt =====
-- A JavaScript object as an association list of its own properties, in insertion order.
use Prim.Native.String.{String}
use mathlib.Core.Path.{◌≡◌, refl}
use mathlib.Core.Option.{Option, none, some}
use mathlib.Core.List.{List, [], ◌∷◌}
use native.Mathlib.Omega.{arith}
use text.Mathlib.Text.{◌==◌}
use text.Mathlib.TextEquality.{eq_iff}
use harvestledger.Base.Tests.{if◌then◌else◌}

module _ {ℓ} {A : Type ℓ} where
  -- `properties[name]`
  unfoldable pub lookup : String → List (String × A) → Option A
  lookup name [] = none
  lookup name (property ∷ rest) =
      let later = lookup name rest in if property.0 == name then some property.1 else later

  -- `{ ...properties, [name]: a }`
  unfoldable pub insert : String → A → List (String × A) → List (String × A)
  insert name a [] = (name, a) ∷ []
  insert name a (property ∷ rest) =
      let later = insert name a rest in
      if property.0 == name then (name, a) ∷ rest else property ∷ later

  -- `const { [name]: _, ...rest } = properties`; the names of an object are distinct
  unfoldable pub erase : String → List (String × A) → List (String × A)
  erase name [] = []
  erase name (property ∷ rest) =
      let later = erase name rest in if property.0 == name then later else property ∷ later

  pub erase-insert_self :
      (name : String) (a : A) (properties : List (String × A))
      → erase name (insert name a properties) ≡ erase name properties
  unfolding erase insert
  erase-insert_self name a [] = ground (arith, eq_iff name name)
  erase-insert_self name a (property ∷ rest) =
      ground (arith, eq_iff name name, eq_iff property.0 name, erase-insert_self name a rest)

  pub erase_of_absent :
      (name : String) (properties : List (String × A))
      → lookup name properties ≡ none
      → erase name properties ≡ properties
  unfolding erase lookup
  erase_of_absent name [] h = refl
  erase_of_absent name (property ∷ rest) h = ground (arith, erase_of_absent name rest)

  pub lookup-insert :
      (set get : String) (a : A) (properties : List (String × A))
      → lookup get (insert set a properties)
        ≡ (if set == get then some a else lookup get properties)
  unfolding lookup insert
  lookup-insert set get a [] = refl
  lookup-insert set get a (property ∷ rest) = ground (
    arith,
    eq_iff set get,
    eq_iff property.0 set,
    eq_iff property.0 get,
    lookup-insert set get a rest,
  )
