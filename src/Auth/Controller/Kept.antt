-- ===== src/Auth/Controller/Kept.antt =====
-- What every message handler of auth keeps.
use harvestledger.Base.{ℕ}
use harvestledger.Auth.World.{World, Env}
use harvestledger.Auth.Controller.{Request, handle}
use harvestledger.Auth.Controller.Steps.{Preserves, IsKept, replied-Preserves}
use harvestledger.Auth.Controller.OfUsers.{
  register-Preserves, update_user_info-Preserves, get_user-Preserves, upload_user_image-Preserves,
  get_user_image-Preserves,
}
use harvestledger.Auth.Controller.OfTokens.{
  login-Preserves, refresh_token-Preserves, verify_jwt-Preserves,
}
use harvestledger.Auth.Controller.OfPasswords.{forgot_password-Preserves, reset_password-Preserves}

module _ {U O File Data : Type 0} (env : Env U O File Data) (Q : World U O → Type 0)
    (kept : IsKept env Q) where
  pub handle-Preserves : (now : ℕ) (r : Request File) → Preserves Q (handle env now r)
  unfolding handle
  handle-Preserves now (Request.register a) =
      replied-Preserves env Q kept _ _ (register-Preserves env Q kept a)
  handle-Preserves now (Request.login a) =
      replied-Preserves env Q kept _ _ (login-Preserves env Q kept now a)
  handle-Preserves now (Request.verify_jwt a) =
      replied-Preserves env Q kept _ _ (verify_jwt-Preserves env Q kept now a)
  handle-Preserves now (Request.refresh_token a) =
      replied-Preserves env Q kept _ _ (refresh_token-Preserves env Q kept now a)
  handle-Preserves now (Request.update_user a b) =
      replied-Preserves env Q kept _ _ (update_user_info-Preserves env Q kept a b)
  handle-Preserves now (Request.get_user a) =
      replied-Preserves env Q kept _ _ (get_user-Preserves env Q kept a)
  handle-Preserves now (Request.forgot_password a) =
      replied-Preserves env Q kept _ _ (forgot_password-Preserves env Q kept now a)
  handle-Preserves now (Request.reset_password a) =
      replied-Preserves env Q kept _ _ (reset_password-Preserves env Q kept now a)
  handle-Preserves now (Request.upload_user_image a b) =
      replied-Preserves env Q kept _ _ (upload_user_image-Preserves env Q kept b a)
  handle-Preserves now (Request.get_user_image a) =
      replied-Preserves env Q kept _ _ (get_user_image-Preserves env Q kept a)
