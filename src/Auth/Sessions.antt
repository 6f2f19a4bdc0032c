-- ===== src/Auth/Sessions.antt =====
-- Login and tokens: `login`, `refreshToken` and `verifyJwt` of apps/auth/src/auth.service.ts.
pub mod Keys
pub mod Login
use Prim.Native.String
use harvestledger.Base.{
  ℕ, suc, ◌*◌, String, Bool, true, false, not, ◌&&◌, Option, none, some, List, is_some,
  if◌then◌else◌,
}
use harvestledger.Http.{Exception, error, unauthorized}
use harvestledger.Effect.{
  Result, ok, err, Action, pure, throw, or_throw, throw_if, present, ◌>>=◌, ◌>>◌,
}
use harvestledger.Auth.{
  User, Profile, ExistingUserDto, LoginUser, Claims, access, refresh, forgot, Secret, jwt_secret,
  jwt_refresh_secret,
}
use harvestledger.Auth.World.{World, Env, is_live, del_key, set_with_ttl, draw}
use harvestledger.Auth.Users.{validate_user}

-- '15m' and '7d'; REFRESH_TTL_SECONDS is the same as the latter.
abbrev pub access_ttl_ms : ℕ
access_ttl_ms = 15 * 60 * 1000

abbrev pub refresh_ttl_seconds : ℕ
refresh_ttl_seconds = 7 * 24 * 60 * 60

abbrev pub refresh_ttl_ms : ℕ
refresh_ttl_ms = refresh_ttl_seconds * 1000

pub record Tokens : Type 0 where
  pub access_token : String
  pub refresh_token : String
  pub user : LoginUser

abbrev pub revoked : Exception
revoked = unauthorized "Refresh token has been revoked"

abbrev pub login_user : User → LoginUser
login_user u = record { id = u.profile.id; rol = u.profile.rol }

module _ {U O File Data : Type 0} (env : Env U O File Data) where
  -- `refreshKey`
  unfoldable pub refresh_key : ℕ → String → String
  refresh_key user_id jti =
      String.◌++◌ "refresh:" (String.◌++◌ (env.to_string user_id) (String.◌++◌ ":" jti))

  -- `issueRefreshToken` at time `now`
  unfoldable pub issue_refresh_token : ℕ → LoginUser → Action (World U O) String
  unfolding set_with_ttl
  issue_refresh_token now user = do
    n ← draw env
    λ w. (
      ok (env.sign jwt_refresh_secret now refresh_ttl_ms (refresh user (env.uuid n))),
      record w {
        keys = set_with_ttl now (refresh_key user.id (env.uuid n)) refresh_ttl_seconds w.keys;
      },
    )

  -- The two tokens that `login` and `refreshToken` return.
  unfoldable pub issue_tokens : ℕ → LoginUser → Action (World U O) Tokens
  unfolding issue_refresh_token
  issue_tokens now user = do
    token ← issue_refresh_token now user
    pure (record {
      access_token = env.sign jwt_secret now access_ttl_ms (access user);
      refresh_token = token;
      user = user;
    })

  unfoldable pub login : ℕ → ExistingUserDto → Action (World U O) Tokens
  unfolding issue_tokens
  login now dto w =
      (do
        user ← or_throw (validate_user env dto.email dto.password w) (unauthorized "Unauthorized")
        issue_tokens now (login_user user))
        w

  -- `jti && exists(key)`
  abbrev pub is_open : ℕ → ℕ → Option String → World U O → Bool
  is_open now user_id none w = false
  is_open now user_id (some jti) w = is_live now (refresh_key user_id jti) w.keys

  -- The rest of `refreshToken` for a valid token of this user and token id.
  unfoldable pub rotate : ℕ → LoginUser → String → Action (World U O) Tokens
  unfolding issue_tokens del_key present
  rotate now user jti w =
      (do
        throw_if (not (is_open now user.id (present (some jti)) w)) revoked
        λ v. (ok tt, record v { keys = del_key (refresh_key user.id jti) v.keys })
        issue_tokens now user)
        w

  -- By the payload. One with no token id is revoked, and one with no user breaks the handler.
  unfoldable pub refresh_claims : ℕ → Claims → Action (World U O) Tokens
  unfolding rotate
  refresh_claims now (refresh user jti) = rotate now user jti
  refresh_claims now (access user) = throw revoked
  refresh_claims now (forgot _ _ _) =
      throw (error "Cannot read properties of undefined (reading 'id')")

  unfoldable pub refresh_token : ℕ → Option String → Action (World U O) Tokens
  unfolding refresh_claims
  refresh_token now token = do
    t ← or_throw (present token) (unauthorized "No refresh token provided")
    claims ← or_throw (env.verify jwt_refresh_secret now t) (unauthorized "Invalid refresh token")
    refresh_claims now claims.0

  abbrev pub user_of : Claims → Option LoginUser
  user_of (access user) = some user
  user_of (refresh user _) = some user
  user_of (forgot _ _ _) = none

  -- `verifyJwt`: the user and `exp`.
  unfoldable pub verify_jwt : ℕ → Option String → Action (World U O) (Option LoginUser × ℕ)
  verify_jwt now jwt = do
    t ← or_throw (present jwt) (unauthorized "Unauthorized")
    claims ← or_throw (env.verify jwt_secret now t) (unauthorized "Unauthorized")
    pure (user_of claims.0, claims.1)
