-- ===== src/Auth/Controller.antt =====
-- The message handlers of auth: apps/auth/src/auth.controller.ts.
pub mod Steps
pub mod OfUsers
pub mod OfTokens
pub mod OfPasswords
pub mod Kept
pub mod SingleUse
use harvestledger.Base.{ℕ, String, Option}
use harvestledger.Effect.{Action, pure, ◌>>=◌}
use harvestledger.Auth.{
  Profile, CreateUserDto, UpdateUserDto, ExistingUserDto, ResetPasswordDto, LoginUser,
}
use harvestledger.Auth.World.{World, Env}
use harvestledger.Auth.Users
use harvestledger.Auth.Sessions
use harvestledger.Auth.Sessions.{Tokens}
use harvestledger.Auth.Passwords
use harvestledger.Auth.Images
use harvestledger.Auth.Images.{Upload}

-- A message, by the service's method that its handler calls.
pub data Request (File : Type 0) : Type 0 where
  register : CreateUserDto → Request File
  login : ExistingUserDto → Request File
  verify_jwt : Option String → Request File
  refresh_token : Option String → Request File
  update_user : ℕ → UpdateUserDto → Request File
  get_user : ℕ → Request File
  forgot_password : Option String → Request File
  reset_password : ResetPasswordDto → Request File
  upload_user_image : ℕ → File → Request File
  get_user_image : ℕ → Request File

pub data Reply (Data : Type 0) : Type 0 where
  profile : Profile → Reply Data
  changed : Profile × Option String → Reply Data
  tokens : Tokens → Reply Data
  verified : Option LoginUser × ℕ → Reply Data
  password : Passwords.Reply → Reply Data
  upload : Upload → Reply Data
  image : Option Data → Reply Data

abbrev pub replied : {W X R : Type 0} → Action W X → (X → R) → Action W R
replied m f = m >>= λ x. pure (f x)

-- A handler that runs at time `now`.
unfoldable pub handle :
    {U O File Data : Type 0} (env : Env U O File Data) (now : ℕ)
    → Request File
    → Action (World U O) (Reply Data)
handle env now (Request.register a) = replied (Users.register env a) Reply.profile
handle env now (Request.login a) = replied (Sessions.login env now a) Reply.tokens
handle env now (Request.verify_jwt a) = replied (Sessions.verify_jwt env now a) Reply.verified
handle env now (Request.refresh_token a) = replied (Sessions.refresh_token env now a) Reply.tokens
handle env now (Request.update_user a b) = replied (Users.update_user_info env a b) Reply.changed
handle env now (Request.get_user a) = replied (Users.get_user env a) Reply.profile
handle env now (Request.forgot_password a) =
    replied (Passwords.forgot_password env now a) Reply.password
handle env now (Request.reset_password a) =
    replied (Passwords.reset_password env now a) Reply.password
handle env now (Request.upload_user_image a b) =
    replied (Images.upload_user_image env b a) Reply.upload
handle env now (Request.get_user_image a) = replied (Images.get_user_image env a) Reply.image
