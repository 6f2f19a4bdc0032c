-- ===== src/Auth/Passwords.antt =====
-- Forgotten passwords: `forgotPassword` and `resetPassword` of apps/auth/src/auth.service.ts.
pub mod Reset
pub mod RoundTrip
use harvestledger.Base.{
  ℕ, ◌+◌, ◌*◌, String, Bool, true, false, not, Option, none, some, List, [], ◌∷◌, ltb,
  if◌then◌else◌,
}
use harvestledger.Http.{Exception, error, bad_request}
use harvestledger.Effect.{Result, ok, err, Action, pure, throw, or_throw, throw_if, ◌>>=◌, ◌>>◌}
use harvestledger.Auth.{
  User, Claims, access, refresh, forgot, Secret, jwt_secret, ResetPasswordDto, string,
}
use harvestledger.Auth.World.{
  World, Env, find_by_email, hash_password, transaction, enqueue_event, update_user_row,
  update_entity,
}

-- 24 * 60 * 60 * 1000
abbrev pub reset_ttl_ms : ℕ
reset_ttl_ms = 24 * 60 * 60 * 1000

-- The generic response, and that of `resetPassword`.
pub data Reply : Type 0 where
  sent_if_registered password_changed : Reply

-- `forgotPasswordToken: hashedToken`
abbrev pub set_token : Option String → User → User
set_token token u = record u { profile = record u.profile { forgot_password_token = token } }

-- `password: …, forgotPasswordToken: null`
abbrev pub set_password : String → User → User
set_password hashed u = record {
  profile = record u.profile { forgot_password_token = none };
  password = hashed;
}

-- The fields `email` and `timestamp` of what `decode` gives.
abbrev pub email_of : Claims → Option String
email_of (access _) = none
email_of (refresh _ _) = none
email_of (forgot _ email _) = some email

abbrev pub timestamp_of : Claims → Option ℕ
timestamp_of (access _) = none
timestamp_of (refresh _ _) = none
timestamp_of (forgot _ _ timestamp) = some timestamp

-- `currentTime > timestamp + …`; a comparison with NaN is false.
abbrev pub is_late : ℕ → Option ℕ → Bool
is_late now none = false
is_late now (some t) = ltb (t + reset_ttl_ms) now

module _ {U O File Data : Type 0} (env : Env U O File Data) where
  -- The callback of the transaction in `forgotPassword`.
  unfoldable pub store_token : User → String → String → Action (World U O) (Unit {0})
  store_token user token hashed = do
    update_user_row env user.profile.id (set_token (some hashed))
    enqueue_event env "user.password_reset_requested"
        (("email", string user.profile.email) ∷ ("token", string token) ∷ [])

  abbrev pub reset_token_of : ℕ → User → String
  reset_token_of now user =
      env.sign jwt_secret now reset_ttl_ms (forgot user.profile.id user.profile.email now)

  abbrev pub request_reset : ℕ → Option User → Action (World U O) Reply
  request_reset now none = pure sent_if_registered
  request_reset now (some user) = do
    hashed ← hash_password env (reset_token_of now user)
    transaction env (store_token user (reset_token_of now user) hashed)
    pure sent_if_registered

  -- `forgotPassword` at time `now`. The body is not validated: its email may be missing, and `findOne`
  -- then has no condition.
  unfoldable pub forgot_password : ℕ → Option String → Action (World U O) Reply
  unfolding store_token
  forgot_password now email w = request_reset now (find_by_email env email w) w

  -- `bcrypt.compare(token, hash)`, which throws where the hash is null.
  unfoldable pub compare_token : String → Option String → Action (World U O) Bool
  compare_token token none = throw (error "Illegal arguments: string, object")
  compare_token token (some hashed) = pure (env.compare token hashed)

  -- `resetPassword` for a user that was found, and the claims of the token.
  unfoldable pub reset_for : ℕ → ResetPasswordDto → Claims → User → Action (World U O) Reply
  unfolding compare_token update_entity
  reset_for now dto claims user = do
    matches ← compare_token dto.token user.profile.forgot_password_token
    throw_if (not matches) (bad_request "Invalid token")
    throw_if (is_late now (timestamp_of claims)) (bad_request "Token has expired")
    hashed ← hash_password env dto.new_password
    update_entity env user.profile.id (set_password hashed)
    pure password_changed

  unfoldable pub reset_password : ℕ → ResetPasswordDto → Action (World U O) Reply
  unfolding reset_for
  reset_password now dto w =
      (do
        claims ← or_throw (env.verify jwt_secret now dto.token) (bad_request "Invalid token")
        user ← or_throw (find_by_email env (email_of claims.0) w) (bad_request "Invalid token")
        reset_for now dto claims.0 user)
        w
