-- ===== src/Auth/Seed.antt =====
-- The administrator's account: apps/auth/src/db/user.seed.ts.
pub mod Twice
use Prim.Native.String
use harvestledger.Base.{ℕ, String, Bool, true, false, not, ◌||◌, Option, none, some, if◌then◌else◌}
use text.Mathlib.Text.{◌==◌ as str_eq}
use harvestledger.Effect.{Action, ok, pure, present, ◌>>=◌}
use harvestledger.Auth.{User, Profile}
use harvestledger.Auth.World.{World, Env, find_by_email, hash_password, insert_user, save_user}

-- The row that is saved where there is none.
abbrev pub admin_user : String → String → ℕ → User
admin_user email hashed id = record {
  profile = record {
    id = id;
    first_name = "Admin";
    last_name = none;
    email = email;
    rol = some "admin";
    photo = none;
    gender = none;
    document_type = none;
    document_number = none;
    date_of_birth = none;
    country = none;
    forgot_password_token = none;
    state = none;
    city = none;
  };
  password = hashed;
}

-- `rol = 'admin'` and the new password
abbrev pub as_admin : String → User → User
as_admin hashed u = record u {
  profile = record u.profile { rol = some "admin" };
  password = hashed;
}

abbrev pub has_admin_role : Option String → Bool
has_admin_role none = false
has_admin_role (some rol) = str_eq rol "admin"

module _ {U O File Data : Type 0} (env : Env U O File Data) where
  abbrev pub is_outdated : String → User → Bool
  is_outdated pass u = not (has_admin_role u.profile.rol) || not (env.compare pass u.password)

  -- What follows the lookup.
  abbrev pub reconcile : String → String → Option User → Action (World U O) (Unit {0})
  reconcile email pass none w =
      (do
        hashed ← hash_password env pass
        saved ← insert_user env (admin_user email hashed)
        pure tt)
        w
  reconcile email pass (some u) w =
      if is_outdated pass u
      then (hash_password env pass >>= λ hashed. save_user env (as_admin hashed u)) w
      else (ok tt, w)

  abbrev pub with_credentials : Option String → Option String → Action (World U O) (Unit {0})
  with_credentials (some email) (some pass) w =
      reconcile email pass (find_by_email env (some email) w) w
  with_credentials _ _ w = (ok tt, w)

  -- `run` with ADMIN_EMAIL and ADMIN_PASSWORD
  unfoldable pub run : Option String → Option String → Action (World U O) (Unit {0})
  unfolding present
  run admin_email admin_pass = with_credentials (present admin_email) (present admin_pass)
