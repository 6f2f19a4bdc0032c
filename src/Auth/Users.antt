-- ===== src/Auth/Users.antt =====
-- The users of apps/auth/src/auth.service.ts: `register`, `validateUser`, `updateUserInfo` and
-- `getUser`.
pub mod Registration
pub mod Update
use harvestledger.Base.{
  ℕ, String, Bool, Option, none, some, List, [], ◌∷◌, is_some, or_else, if◌then◌else◌,
}
use harvestledger.Http.{conflict, not_found}
use harvestledger.Effect.{Result, ok, err, Action, pure, or_throw, throw_if, ◌>>=◌, ◌>>◌}
use harvestledger.Outbox.{Payload}
use harvestledger.Auth.{User, Profile, CreateUserDto, UpdateUserDto, Value, number, string, null}
use harvestledger.Auth.World.{
  World, Env, find_by_email, hash_password, transaction, enqueue_event, insert_user, save_user,
}

-- `{ ...userProperties, password: hashedPassword }`, as the table fills it up
unfoldable pub new_user : CreateUserDto → String → ℕ → User
new_user dto hashed id = record {
  profile = record {
    id = id;
    first_name = dto.first_name;
    last_name = some dto.last_name;
    email = dto.email;
    rol = none;
    photo = dto.photo;
    gender = dto.gender;
    document_type = dto.document_type;
    document_number = some dto.document_number;
    date_of_birth = dto.date_of_birth;
    country = dto.country;
    forgot_password_token = none;
    state = dto.state;
    city = dto.city;
  };
  password = hashed;
}

abbrev pub text_or_null : Option String → Value
text_or_null none = null
text_or_null (some s) = string s

-- The payload of `user.created` and `user.updated`.
abbrev pub user_event : Profile → Payload Value
user_event p =
    ("id", number p.id)
    ∷ ("firstName", string p.first_name)
    ∷ ("lastName", text_or_null p.last_name)
    ∷ ("email", string p.email)
    ∷ ("rol", text_or_null p.rol)
    ∷ []

abbrev set : {X : Type 0} → Option X → Option X → Option X
set none old = old
set (some new) old = some new

-- The loop of `updateUserInfo` over the keys of the body.
unfoldable pub assign_user : UpdateUserDto → User → User
assign_user dto u = record {
  profile = record u.profile {
    first_name = or_else dto.first_name u.profile.first_name;
    last_name = set dto.last_name u.profile.last_name;
    email = or_else dto.email u.profile.email;
    photo = set dto.photo u.profile.photo;
    document_type = set dto.document_type u.profile.document_type;
    document_number = set dto.document_number u.profile.document_number;
    gender = set dto.gender u.profile.gender;
    date_of_birth = set dto.date_of_birth u.profile.date_of_birth;
    country = set dto.country u.profile.country;
    state = set dto.state u.profile.state;
    city = set dto.city u.profile.city;
  };
  password = or_else dto.password u.password;
}

module _ {U O File Data : Type 0} (env : Env U O File Data) where
  -- The callback of the transaction in `register`.
  unfoldable pub save_new_user : CreateUserDto → String → Action (World U O) User
  unfolding new_user
  save_new_user dto hashed = do
    saved ← insert_user env (new_user dto hashed)
    enqueue_event env "user.created" (user_event saved.profile)
    pure saved

  -- `register`, with the user of its reply.
  unfoldable pub register : CreateUserDto → Action (World U O) Profile
  unfolding save_new_user
  register dto w =
      (do
        throw_if (is_some (find_by_email env (some dto.email) w)) (conflict "User already exists")
        hashed ← hash_password env dto.password
        saved ← transaction env (save_new_user dto hashed)
        pure saved.profile)
        w

  abbrev pub matching : String → Option User → Option User
  matching password none = none
  matching password (some u) = if env.compare password u.password then some u else none

  -- `validateUser`
  unfoldable pub validate_user : String → String → World U O → Option User
  validate_user email password w = matching password (find_by_email env (some email) w)

  -- The callback of the transaction in `updateUserInfo`.
  unfoldable pub save_changed_user : User → Action (World U O) (Unit {0})
  save_changed_user u = do save_user env u; enqueue_event env "user.updated" (user_event u.profile)

  -- `updateUserInfo`. Its reply is the saved entity: the password is in it only if the body had one.
  unfoldable pub update_user_info : ℕ → UpdateUserDto → Action (World U O) (Profile × Option String)
  unfolding assign_user save_changed_user
  update_user_info user_id dto w =
      (do
        user ← or_throw (env.users.find_one user_id w.users) (not_found "User not found")
        transaction env (save_changed_user (assign_user dto user))
        pure ((assign_user dto user).profile, dto.password))
        w

  unfoldable pub get_user : ℕ → Action (World U O) Profile
  get_user user_id w =
      (do
        user ← or_throw (env.users.find_one user_id w.users) (not_found "User not found")
        pure user.profile)
        w
