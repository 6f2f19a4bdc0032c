-- ===== src/Auth/Controller/OfUsers.antt =====
-- What the handlers of users and their photos keep.
use Prim.Native.String
use harvestledger.Base.{ℕ, String, Option, none, some, is_some}
use harvestledger.Http.{error, conflict, not_found}
use harvestledger.Store.{Fetched, body, no_such_key, failure}
use harvestledger.Effect.{Result, ok, err, present}
use harvestledger.Auth.{User, CreateUserDto, UpdateUserDto}
use harvestledger.Auth.World.{World, Env, find_by_email}
use harvestledger.Auth.Users
use harvestledger.Auth.Images
use harvestledger.Auth.Controller.Steps.{
  Preserves, IsKept, bind-Preserves, look-Preserves, created, updated, or_throw-Preserves,
  throw_if-Preserves, transaction-Preserves, enqueue_event-Preserves, insert_user-Preserves,
  save_user-Preserves, hash_password-Preserves, pure-Preserves,
}

module _ {U O File Data : Type 0} (env : Env U O File Data) (Q : World U O → Type 0)
    (kept : IsKept env Q) where
  save_new_user-Preserves :
      (dto : CreateUserDto) (hashed : String) → Preserves Q (Users.save_new_user env dto hashed)
  unfolding Users.save_new_user
  save_new_user-Preserves dto hashed =
      bind-Preserves Q _ _ (insert_user-Preserves env Q kept (Users.new_user dto hashed)) (λ saved.
        bind-Preserves Q _ _
          (enqueue_event-Preserves env Q kept "user.created" (Users.user_event saved.profile)
            created)
          (λ _. pure-Preserves env Q kept saved))

  pub register-Preserves : (dto : CreateUserDto) → Preserves Q (Users.register env dto)
  unfolding Users.register
  register-Preserves dto = look-Preserves Q _ (λ w.
      bind-Preserves Q _ _
        (throw_if-Preserves env Q kept (is_some (find_by_email env (some dto.email) w))
          (conflict "User already exists"))
        (λ _. bind-Preserves Q _ _ (hash_password-Preserves env Q kept dto.password) (λ hashed.
          bind-Preserves Q _ _
            (transaction-Preserves env Q kept (Users.save_new_user env dto hashed)
              (save_new_user-Preserves dto hashed))
            (λ saved. pure-Preserves env Q kept saved.profile))))

  save_changed_user-Preserves : (u : User) → Preserves Q (Users.save_changed_user env u)
  unfolding Users.save_changed_user
  save_changed_user-Preserves u =
      bind-Preserves Q _ _ (save_user-Preserves env Q kept u) (λ _.
        enqueue_event-Preserves env Q kept "user.updated" (Users.user_event u.profile) updated)

  pub update_user_info-Preserves :
      (id : ℕ) (dto : UpdateUserDto) → Preserves Q (Users.update_user_info env id dto)
  unfolding Users.update_user_info
  update_user_info-Preserves id dto = look-Preserves Q _ (λ w.
      bind-Preserves Q _ _
        (or_throw-Preserves env Q kept (env.users.find_one id w.users) (not_found "User not found"))
        (λ user.
          bind-Preserves Q _ _
            (transaction-Preserves env Q kept
              (Users.save_changed_user env (Users.assign_user dto user))
              (save_changed_user-Preserves (Users.assign_user dto user)))
            (λ _. pure-Preserves env Q kept _)))

  pub get_user-Preserves : (id : ℕ) → Preserves Q (Users.get_user env id)
  unfolding Users.get_user
  get_user-Preserves id = look-Preserves Q _ (λ w.
      bind-Preserves Q _ _
        (or_throw-Preserves env Q kept (env.users.find_one id w.users) (not_found "User not found"))
        (λ user. pure-Preserves env Q kept _))

  put_image-Preserves : (file : File) (key : String) → Preserves Q (Images.put_image env file key)
  unfolding Images.put_image Preserves
  put_image-Preserves file key w q = ends (env.bucket.upload key file w.objects)
    where
      ends :
          (r : Option String × O)
          → Q
              (elim r.0 as (λ _. Result String × World U O) [
                | none ↦ (ok key, record w { objects = r.1 })
                | some m ↦ (err (error m), record w { objects = r.1 })
              ]).1
      ends (none, o) = kept.stored w o q
      ends (some m, o) = kept.stored w o q

  store_image-Preserves : (file : File) (id : ℕ) → Preserves Q (Images.store_image env file id)
  unfolding Images.store_image
  store_image-Preserves file id = look-Preserves Q _ (λ w.
      bind-Preserves Q _ _ (put_image-Preserves file (String.◌++◌ "user-" (env.to_string id)))
        (λ key.
          bind-Preserves Q _ _
            (or_throw-Preserves env Q kept (env.users.find_one id w.users)
              (error "Cannot set properties of null (setting 'photo')"))
            (λ u. save_user-Preserves env Q kept (Images.with_photo key u))))

  caught-Preserves : (r : Result (Unit {0}) × World U O) → Q r.1 → Q (Images.caught env r).1
  caught-Preserves (ok _, w) h = h
  caught-Preserves (err _, w) h = h

  pub upload_user_image-Preserves :
      (file : File) (id : ℕ) → Preserves Q (Images.upload_user_image env file id)
  unfolding Images.upload_user_image Preserves
  upload_user_image-Preserves file id w q =
      caught-Preserves (Images.store_image env file id w) (store_image-Preserves file id w q)

  read_image-Preserves : (key : Option String) → Preserves Q (Images.read_image env key)
  unfolding Images.read_image Preserves
  read_image-Preserves none w q = q
  read_image-Preserves (some key) w q = ends (env.bucket.get_object key w.objects)
    where
      ends :
          (r : Fetched Data)
          → Q
              (elim r as (λ _. Result (Option Data) × World U O) [
                | body d ↦ (ok (some d), w)
                | no_such_key ↦ (ok none, w)
                | failure m ↦ (err (error m), w)
              ]).1
      ends (body d) = q
      ends no_such_key = q
      ends (failure m) = q

  pub get_user_image-Preserves : (id : ℕ) → Preserves Q (Images.get_user_image env id)
  unfolding Images.get_user_image
  get_user_image-Preserves id = look-Preserves Q _ (λ w.
      bind-Preserves Q _ _
        (or_throw-Preserves env Q kept (env.users.find_one id w.users)
          (error "Cannot read properties of null (reading 'photo')"))
        (λ u. read_image-Preserves (present u.profile.photo)))
