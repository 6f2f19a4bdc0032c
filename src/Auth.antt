-- ===== src/Auth.antt =====
-- The auth service, apps/auth/src: its entity libs/common/src/entities/user.entity.ts, the request
-- bodies of libs/common/src/dtos/users and libs/common/src/dtos/auth, and what its tokens hold.
pub mod World
pub mod Users
pub mod Sessions
pub mod Passwords
pub mod Images
pub mod Controller
pub mod Relay
pub mod Seed
mod Samples
mod Tests
use harvestledger.Base.{ℕ, ℤ, String, Option, List}
use harvestledger.Outbox.{Carrier}

pub data Gender : Type 0 where
  male female other : Gender

pub data DocumentType : Type 0 where
  cc_document nit : DocumentType

-- The columns of `UserEntity` but "password", which no query selects unless it is asked to.
pub record Profile : Type 0 where
  pub id : ℕ
  pub first_name : String
  pub last_name : Option String
  pub email : String
  pub rol : Option String
  pub photo : Option String
  pub gender : Option Gender
  pub document_type : Option DocumentType
  pub document_number : Option ℤ
  pub date_of_birth : Option String
  pub country : Option String
  pub forgot_password_token : Option String
  pub state : Option String
  pub city : Option String

pub record User : Type 0 where
  pub profile : Profile
  pub password : String

-- createUserDto.dto.ts and updateUserDto.dto.ts
pub record CreateUserDto : Type 0 where
  pub first_name : String
  pub last_name : String
  pub email : String
  pub password : String
  pub photo : Option String
  pub document_type : Option DocumentType
  pub document_number : ℤ
  pub gender : Option Gender
  pub date_of_birth : Option String
  pub country : Option String
  pub state : Option String
  pub city : Option String

pub record UpdateUserDto : Type 0 where
  pub first_name : Option String
  pub last_name : Option String
  pub email : Option String
  pub password : Option String
  pub photo : Option String
  pub document_type : Option DocumentType
  pub document_number : Option ℤ
  pub gender : Option Gender
  pub date_of_birth : Option String
  pub country : Option String
  pub state : Option String
  pub city : Option String

-- existingUserDto.dto.ts and resetPassword.dto.ts
pub record ExistingUserDto : Type 0 where
  pub email : String
  pub password : String

pub record ResetPasswordDto : Type 0 where
  pub token : String
  pub new_password : String

-- What `login` leaves of a user: it deletes the other columns that it has read.
pub record LoginUser : Type 0 where
  pub id : ℕ
  pub rol : Option String

-- The payload of an access token, of a refresh token, and of one that resets a password.
pub data Claims : Type 0 where
  access : LoginUser → Claims
  refresh : LoginUser → String → Claims
  forgot : ℕ → String → ℕ → Claims

-- JWT_SECRET and JWT_REFRESH_SECRET
pub data Secret : Type 0 where
  jwt_secret jwt_refresh_secret : Secret

-- The JSON values of the events that the service enqueues.
pub data Value : Type 0 where
  number : ℕ → Value
  string : String → Value
  null : Value
  carrier : Carrier → Value
