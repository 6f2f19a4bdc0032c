-- ===== src/Auth/Controller/OfPasswords.antt =====
-- What the handlers of forgotten passwords keep.
use harvestledger.Base.{ℕ, String, not, Option, none, some}
use harvestledger.Http.{bad_request}
use harvestledger.Auth.{User, Claims, ResetPasswordDto, jwt_secret}
use harvestledger.Auth.World.{World, Env, find_by_email}
use harvestledger.Auth.Passwords
use harvestledger.Auth.Controller.Steps.{
  Preserves, IsKept, bind-Preserves, look-Preserves, reset_requested, or_throw-Preserves,
  throw_if-Preserves, transaction-Preserves, enqueue_event-Preserves, update_entity-Preserves,
  hash_password-Preserves, pure-Preserves, throw-Preserves, update_user_row-Preserves,
}

module _ {U O File Data : Type 0} (env : Env U O File Data) (Q : World U O → Type 0)
    (kept : IsKept env Q) where
  store_token-Preserves :
      (u : User) (token hashed : String) → Preserves Q (Passwords.store_token env u token hashed)
  unfolding Passwords.store_token
  store_token-Preserves u token hashed =
      bind-Preserves Q _ _
        (update_user_row-Preserves env Q kept u.profile.id (Passwords.set_token (some hashed)))
        (λ _. enqueue_event-Preserves env Q kept "user.password_reset_requested" _ reset_requested)

  request_reset-Preserves :
      (now : ℕ) (o : Option User) → Preserves Q (Passwords.request_reset env now o)
  request_reset-Preserves now none = pure-Preserves env Q kept _
  request_reset-Preserves now (some u) =
      bind-Preserves Q _ _ (hash_password-Preserves env Q kept (Passwords.reset_token_of env now u))
        (λ hashed.
          bind-Preserves Q _ _
            (transaction-Preserves env Q kept
              (Passwords.store_token env u (Passwords.reset_token_of env now u) hashed)
              (store_token-Preserves u (Passwords.reset_token_of env now u) hashed))
            (λ _. pure-Preserves env Q kept Passwords.sent_if_registered))

  pub forgot_password-Preserves :
      (now : ℕ) (email : Option String) → Preserves Q (Passwords.forgot_password env now email)
  unfolding Passwords.forgot_password
  forgot_password-Preserves now email =
      look-Preserves Q _ (λ w. request_reset-Preserves now (find_by_email env email w))

  compare_token-Preserves :
      (token : String) (o : Option String) → Preserves Q (Passwords.compare_token env token o)
  unfolding Passwords.compare_token
  compare_token-Preserves token none = throw-Preserves env Q kept _ _
  compare_token-Preserves token (some hashed) = pure-Preserves env Q kept _

  reset_for-Preserves :
      (now : ℕ) (dto : ResetPasswordDto) (claims : Claims) (u : User)
      → Preserves Q (Passwords.reset_for env now dto claims u)
  unfolding Passwords.reset_for
  reset_for-Preserves now dto claims u =
      bind-Preserves Q _ _ (compare_token-Preserves dto.token u.profile.forgot_password_token)
        (λ matches.
          bind-Preserves Q _ _
            (throw_if-Preserves env Q kept (not matches) (bad_request "Invalid token"))
            (λ _.
              bind-Preserves Q _ _
                (throw_if-Preserves env Q kept
                  (Passwords.is_late now (Passwords.timestamp_of claims))
                  (bad_request "Token has expired"))
                (λ _.
                  bind-Preserves Q _ _ (hash_password-Preserves env Q kept dto.new_password)
                    (λ hashed.
                      bind-Preserves Q _ _
                        (update_entity-Preserves env Q kept u.profile.id
                          (Passwords.set_password hashed))
                        (λ _. pure-Preserves env Q kept Passwords.password_changed)))))

  pub reset_password-Preserves :
      (now : ℕ) (dto : ResetPasswordDto) → Preserves Q (Passwords.reset_password env now dto)
  unfolding Passwords.reset_password
  reset_password-Preserves now dto = look-Preserves Q _ (λ w.
      bind-Preserves Q _ _
        (or_throw-Preserves env Q kept (env.verify jwt_secret now dto.token)
          (bad_request "Invalid token"))
        (λ claims.
          bind-Preserves Q _ _
            (or_throw-Preserves env Q kept (find_by_email env (Passwords.email_of claims.0) w)
              (bad_request "Invalid token"))
            (λ u. reset_for-Preserves now dto claims.0 u)))
