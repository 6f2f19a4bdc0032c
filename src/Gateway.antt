-- ===== src/Gateway.antt =====
-- The gateway's routes, apps/gateway/src/controllers: a guard, the pipes on the arguments, and the
-- message that the handler sends. The pipes of NestJS and class-validator are not code of the
-- repository; a body stands for one that the global ValidationPipe has let through.
pub mod Farms
pub mod Auth
pub mod Csv
pub mod Laws
pub mod Tokens
pub mod Reports
mod Tests
use harvestledger.Base.{ℕ, ◌*◌, String, Option, none, some}
use harvestledger.Http.{Exception, error}
use harvestledger.Http.Guards.{Chars, can_activate}
use harvestledger.Effect.{Result, ok, err, Action}
use harvestledger.Auth.{LoginUser}
use harvestledger.Http.Guards

-- `parse_int` is ParseIntPipe, where a number that is negative names no row and is left out; and
-- `image` is ParseFilePipe with MaxFileSizeValidator and FileTypeValidator.
pub record Pipes (Upload File : Type 0) : Type 0 where
  pub parse_int : Option String → Result ℕ
  pub image : ℕ → String → Option Upload → Result File

-- maxSize: 1048576
abbrev pub max_size : ℕ
max_size = 1024 * 1024

-- Two pipes, in the order of the arguments.
abbrev pub both : {X Y Z : Type 0} → Result X → Result Y → (X → Y → Z) → Result Z
both (ok x) (ok y) f = ok (f x y)
both (ok x) (err e) f = err e
both (err e) _ f = err e

abbrev pub mapped : {X Y : Type 0} → (X → Y) → Result X → Result Y
mapped f (ok x) = ok (f x)
mapped f (err e) = err e

-- What reading `req.user.id` throws where the token has no user.
abbrev pub no_user : Exception
no_user = error "Cannot read properties of undefined (reading 'id')"

-- The reply to `verify-jwt`: `exp` and `user`.
abbrev pub Verify : Type 0
Verify = Chars → Guards.Result (Option ℕ × Option LoginUser)

-- The handler of a guarded route for the user that the guard has attached.
abbrev pub attached :
    {W M R : Type 0} → (ℕ → M → Action W R) → Result M → Option LoginUser → Action W R
attached run (err e) user w = (err e, w)
attached run (ok m) none w = (err no_user, w)
attached run (ok m) (some u) w = run u.id m w

abbrev pub admitted :
    {W M R : Type 0}
    → (ℕ → M → Action W R)
    → Result M
    → Guards.Result (Option LoginUser)
    → Action W R
admitted run m (Guards.Result.err e) w = (err e, w)
admitted run m (Guards.Result.ok user) w = attached run m user w

-- A route with `@UseGuards(AuthGuard)`: the guard, the pipes, and the handler.
unfoldable pub guarded :
    {W M R : Type 0} → Verify → Option Chars → ℕ → Result M → (ℕ → M → Action W R) → Action W R
guarded verify header now m run = admitted run m (can_activate verify header now)
