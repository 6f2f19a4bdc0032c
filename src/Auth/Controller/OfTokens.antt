-- ===== src/Auth/Controller/OfTokens.antt =====
-- What the handlers of logins and tokens keep.
use harvestledger.Base.{ℕ, String, not, Option, some}
use harvestledger.Http.{unauthorized}
use harvestledger.Effect.{ok, present}
use harvestledger.Auth.{
  Claims, access, refresh, forgot, LoginUser, ExistingUserDto, jwt_secret, jwt_refresh_secret,
}
use harvestledger.Auth.World.{World, Env, del_key}
use harvestledger.Auth.Users
use harvestledger.Auth.Sessions
use harvestledger.Auth.Sessions.{refresh_key, refresh_ttl_seconds}
use harvestledger.Auth.Controller.Steps.{
  Preserves, IsKept, bind-Preserves, look-Preserves, or_throw-Preserves, throw_if-Preserves,
  pure-Preserves, throw-Preserves,
}

module _ {U O File Data : Type 0} (env : Env U O File Data) (Q : World U O → Type 0)
    (kept : IsKept env Q) where
  issue_refresh_token-Preserves :
      (now : ℕ) (user : LoginUser) → Preserves Q (Sessions.issue_refresh_token env now user)
  unfolding Sessions.issue_refresh_token Preserves
  issue_refresh_token-Preserves now user w q = kept.issued w now user.id q

  pub issue_tokens-Preserves :
      (now : ℕ) (user : LoginUser) → Preserves Q (Sessions.issue_tokens env now user)
  unfolding Sessions.issue_tokens
  issue_tokens-Preserves now user =
      bind-Preserves Q _ _ (issue_refresh_token-Preserves now user) (λ token.
        pure-Preserves env Q kept (record {
          access_token = env.sign jwt_secret now Sessions.access_ttl_ms (access user);
          refresh_token = token;
          user = user;
        }))

  pub login-Preserves : (now : ℕ) (dto : ExistingUserDto) → Preserves Q (Sessions.login env now dto)
  unfolding Sessions.login
  login-Preserves now dto = look-Preserves Q _ (λ w.
      bind-Preserves Q _ _
        (or_throw-Preserves env Q kept (Users.validate_user env dto.email dto.password w)
          (unauthorized "Unauthorized"))
        (λ user. issue_tokens-Preserves now (Sessions.login_user user)))

  del-Preserves :
      (key : String) → Preserves Q (λ v. (ok tt, record v { keys = del_key key v.keys }))
  unfolding Preserves
  del-Preserves key w q = kept.removed w key q

  rotate-Preserves :
      (now : ℕ) (user : LoginUser) (jti : String) → Preserves Q (Sessions.rotate env now user jti)
  unfolding Sessions.rotate
  rotate-Preserves now user jti = look-Preserves Q _ (λ w.
      bind-Preserves Q _ _
        (throw_if-Preserves env Q kept
          (not (Sessions.is_open env now user.id (present (some jti)) w)) Sessions.revoked)
        (λ _.
          bind-Preserves Q _ _ (del-Preserves (refresh_key env user.id jti))
            (λ _. issue_tokens-Preserves now user)))

  refresh_claims-Preserves :
      (now : ℕ) (claims : Claims) → Preserves Q (Sessions.refresh_claims env now claims)
  unfolding Sessions.refresh_claims
  refresh_claims-Preserves now (refresh user jti) = rotate-Preserves now user jti
  refresh_claims-Preserves now (access user) = throw-Preserves env Q kept _ Sessions.revoked
  refresh_claims-Preserves now (forgot _ _ _) = throw-Preserves env Q kept _ _

  pub refresh_token-Preserves :
      (now : ℕ) (token : Option String) → Preserves Q (Sessions.refresh_token env now token)
  unfolding Sessions.refresh_token
  refresh_token-Preserves now token =
      bind-Preserves Q _ _
        (or_throw-Preserves env Q kept (present token) (unauthorized "No refresh token provided"))
        (λ t.
          bind-Preserves Q _ _
            (or_throw-Preserves env Q kept (env.verify jwt_refresh_secret now t)
              (unauthorized "Invalid refresh token"))
            (λ claims. refresh_claims-Preserves now claims.0))

  pub verify_jwt-Preserves :
      (now : ℕ) (jwt : Option String) → Preserves Q (Sessions.verify_jwt env now jwt)
  unfolding Sessions.verify_jwt
  verify_jwt-Preserves now jwt =
      bind-Preserves Q _ _
        (or_throw-Preserves env Q kept (present jwt) (unauthorized "Unauthorized"))
        (λ t.
          bind-Preserves Q _ _
            (or_throw-Preserves env Q kept (env.verify jwt_secret now t)
              (unauthorized "Unauthorized"))
            (λ claims. pure-Preserves env Q kept _))
