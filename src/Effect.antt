-- ===== src/Effect.antt =====
-- The effects of a handler: it reads and changes a state, and returns a value or throws. What was
-- written before it throws stays written.
pub mod Binds
use Prim.Native.String
use harvestledger.Base.{String, Bool, Option, none, some, if◌then◌else◌}
use harvestledger.Http.{Exception, error}

pub data Result (X : Type 0) : Type 0 where
  ok : X → Result X
  err : Exception → Result X

-- What a failed query throws.
abbrev pub query_failed : Exception
query_failed = error "QueryFailedError"

abbrev pub Action : Type 0 → Type 0 → Type 0
Action W X = W → Result X × W

module _ {W : Type 0} where
  abbrev pub pure : {X : Type 0} → X → Action W X
  pure x w = (ok x, w)

  abbrev pub throw : {X : Type 0} → Exception → Action W X
  throw e w = (err e, w)

  infixl 5 ◌>>=◌ ◌>>◌
  abbrev pub ◌>>=◌ : {X Y : Type 0} → Action W X → (X → Action W Y) → Action W Y
  ◌>>=◌ m f w = let (r, w') = m w in elim r [ ok x ↦ f x w' | err e ↦ (err e, w') ]

  abbrev pub ◌>>◌ : {X Y : Type 0} → Action W X → Action W Y → Action W Y
  m >> k = m >>= λ _. k

  -- A value, or an exception in its absence.
  abbrev pub or_throw : {X : Type 0} → Option X → Exception → Action W X
  or_throw none e w = (err e, w)
  or_throw (some x) e w = (ok x, w)

  abbrev pub throw_if : Bool → Exception → Action W (Unit {0})
  throw_if b e w = (if b then err e else ok tt, w)

-- A column is falsy where it is NULL or the empty string.
unfoldable pub present : Option String → Option String
present none = none
present (some String.[]) = none
present (some (String.◌∷◌ c s)) = some (String.◌∷◌ c s)
