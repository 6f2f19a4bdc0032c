-- ===== src/Http/Guards.antt =====
-- libs/common/src/guards: `AuthGuard` and `RolesGuard` of the gateway.
pub mod Laws
use harvestledger.Base.{
  ℕ, ◌*◌, String, Bool, true, false, Option, none, some, List, [], ◌∷◌, ◌++◌, ltb, ◌==◌,
  if◌then◌else◌,
}
use harvestledger.Http.{Exception, unauthorized, forbidden}
use text.Mathlib.Text.{◌==◌ as str_eq}

pub data Result {ℓ} (A : Type ℓ) : Type ℓ where
  ok : A → Result A
  err : Exception → Result A

-- A header is taken apart, so it is a list of code units.
abbrev pub Chars : Type 0
Chars = List ℕ

abbrev pub space : ℕ
space = 32

-- `s.split(' ')`: `part` is the part read so far.
split_from : Chars → Chars → List Chars
split_from part [] = part ∷ []
split_from part (c ∷ s) =
    let closed = part ∷ split_from [] s in
    let longer = split_from (part ++ c ∷ []) s in if c == space then closed else longer

unfoldable pub split_space : Chars → List Chars
unfolding split_from
split_space s = split_from [] s

abbrev pub eq_chars : Chars → Chars → Bool
eq_chars [] [] = true
eq_chars (a ∷ x) (b ∷ y) = let rest = eq_chars x y in if a == b then rest else false
eq_chars _ _ = false

-- 'Bearer'
abbrev pub bearer : Chars
bearer = b'B' ∷ b'e' ∷ b'a' ∷ b'r' ∷ b'e' ∷ b'r' ∷ []

-- `U` is the type of the claims' `user`, and `verify` the reply to the message `verify-jwt`: the
-- fields `exp` and `user`, of which `exp` may be missing, or a failure.
module _ {U : Type 0} (verify : Chars → Result (Option ℕ × U)) where
  -- The function under `switchMap`, on the reply. A missing `exp` and 0 are both falsy.
  check_expiry : ℕ → Option ℕ → U → Result U
  check_expiry now none user = err (unauthorized "JWT token has no expiration date")
  check_expiry now (some exp) user =
      if exp == 0
      then err (unauthorized "JWT token has no expiration date")
      else if ltb now (exp * 1000)
      then ok user
      else err (unauthorized "JWT token expired")

  -- The observable with its `catchError`.
  checked : Result (Option ℕ × U) → ℕ → Result U
  unfolding check_expiry
  checked (err _) now = err (unauthorized "Authentication error")
  checked (ok (exp, user)) now = elim (check_expiry now exp user) [
    | ok u ↦ ok u
    | err _ ↦ err (unauthorized "Authentication error")
  ]

  -- The test on the number of parts, and what follows it.
  on_parts : List Chars → ℕ → Result U
  unfolding checked
  on_parts (scheme ∷ jwt ∷ []) now =
      if eq_chars scheme bearer
      then checked (verify jwt) now
      else err (unauthorized "Authorization scheme must be Bearer")
  on_parts _ now = err (unauthorized "Malformed authorization header")

  -- `AuthGuard.canActivate` of an HTTP request at time `now` in ms: the user that it attaches to
  -- the request, or what it throws. A missing and an empty header are both falsy.
  unfoldable pub can_activate : Option Chars → ℕ → Result U
  unfolding on_parts split_space
  can_activate none now = err (unauthorized "Missing authorization header")
  can_activate (some []) now = err (unauthorized "Missing authorization header")
  can_activate (some header) now = on_parts (split_space header) now

-- `requiredRoles.includes(user.rol)`
pub includes : List String → Option String → Bool
includes [] rol = false
includes (r ∷ rs) none = false
includes (r ∷ rs) (some rol) =
    let rest = includes rs (some rol) in if str_eq r rol then true else rest

-- `RolesGuard.canActivate`: the roles on the route or its class, and the request's user by its
-- field `rol`.
pub roles_can_activate : Option (List String) → Option (Option String) → Result Bool
unfolding includes
roles_can_activate none user = ok true
roles_can_activate (some []) user = ok true
roles_can_activate (some (r ∷ rs)) none = err (forbidden "Insufficient role")
roles_can_activate (some (r ∷ rs)) (some rol) =
    if includes (r ∷ rs) rol then ok true else err (forbidden "Insufficient role")
