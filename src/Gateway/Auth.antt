-- ===== src/Gateway/Auth.antt =====
-- The routes to the auth service and to tracing: auth.controller.ts and tracing.controller.ts of
-- apps/gateway/src/controllers.
use harvestledger.Base.{ℕ, String, Option, some, List}
use harvestledger.Http.Guards
use harvestledger.Http.Guards.{Chars, can_activate}
use harvestledger.Effect.{Result, ok, err, Action}
use harvestledger.Auth.{CreateUserDto, UpdateUserDto, ExistingUserDto, ResetPasswordDto, LoginUser}
use harvestledger.Auth.World.{World, Env}
use harvestledger.Auth.Sessions.{verify_jwt}
use harvestledger.Auth.Controller.{Request, Reply, handle}
use harvestledger.Tracing.{TracingEvent, Store, get_history}
use harvestledger.Gateway.{Pipes, max_size, mapped, Verify, guarded}

-- The routes with no guard.
pub data OpenRoute : Type 0 where
  post_register : CreateUserDto → OpenRoute
  post_login : ExistingUserDto → OpenRoute
  post_refresh : Option String → OpenRoute
  post_forgot_password : Option String → OpenRoute
  patch_reset_password : ResetPasswordDto → OpenRoute

-- The guarded routes.
pub data OwnRoute (Upload : Type 0) : Type 0 where
  post_update : UpdateUserDto → OwnRoute Upload
  get_user : OwnRoute Upload
  post_profile_photo : Option Upload → OwnRoute Upload
  get_profile_photo : OwnRoute Upload

abbrev open_request : {File : Type 0} → OpenRoute → Request File
open_request (post_register dto) = Request.register dto
open_request (post_login dto) = Request.login dto
open_request (post_refresh token) = Request.refresh_token token
open_request (post_forgot_password email) = Request.forgot_password email
open_request (patch_reset_password dto) = Request.reset_password dto

-- The message for the id of the user.
abbrev own_request :
    {Upload File : Type 0} → Pipes Upload File → OwnRoute Upload → Result (ℕ → Request File)
own_request pipes (post_update dto) = ok (λ user. Request.update_user user dto)
own_request pipes get_user = ok (λ user. Request.get_user user)
own_request pipes (post_profile_photo file) =
    mapped (λ f user. Request.upload_user_image user f) (pipes.image max_size "image" file)
own_request pipes get_profile_photo = ok (λ user. Request.get_user_image user)

abbrev answered : Result (Option LoginUser × ℕ) → Guards.Result (Option ℕ × Option LoginUser)
answered (ok (user, exp)) = Guards.Result.ok (some exp, user)
answered (err e) = Guards.Result.err e

module _ {U O File Data : Type 0} (env : Env U O File Data) where
  unfoldable pub serve_open : ℕ → OpenRoute → Action (World U O) (Reply Data)
  serve_open now route = handle env now (open_request route)

  unfoldable pub serve_own :
      {Upload : Type 0}
      → Pipes Upload File
      → Verify
      → Option Chars
      → ℕ
      → OwnRoute Upload
      → Action (World U O) (Reply Data)
  unfolding guarded
  serve_own pipes verify header now route =
      guarded verify header now (own_request pipes route)
        (λ user request. handle env now (request user))

  -- The guard's message `verify-jwt`. `text_of` is the text of code units.
  unfoldable pub ask : (Chars → String) → ℕ → World U O → Verify
  ask text_of now w jwt = answered (verify_jwt env now (some (text_of jwt)) w).0

-- `getHistory`, which does not read the user.
abbrev admitted_history :
    {V : Type 0}
    → (ℕ → List (TracingEvent V) → List (TracingEvent V))
    → Store V
    → Result ℕ
    → Guards.Result (Option LoginUser)
    → Result (List (TracingEvent V))
admitted_history find s id (Guards.Result.err e) = err e
admitted_history find s (err e) (Guards.Result.ok user) = err e
admitted_history find s (ok crop_id) (Guards.Result.ok user) = ok (get_history find crop_id s)

unfoldable pub serve_history :
    {V Upload File : Type 0}
    → Pipes Upload File
    → Verify
    → Option Chars
    → ℕ
    → Option String
    → (ℕ → List (TracingEvent V) → List (TracingEvent V))
    → Store V
    → Result (List (TracingEvent V))
serve_history pipes verify header now crop_id find s =
    admitted_history find s (pipes.parse_int crop_id) (can_activate verify header now)
