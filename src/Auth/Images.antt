-- ===== src/Auth/Images.antt =====
-- The photos of users: `uploadUserImage` and `getUserImage` of apps/auth/src/auth.service.ts, over
-- `uploadFile` and `getFile` of libs/common/src/services/s3.service.ts.
use Prim.Native.String
use harvestledger.Base.{ℕ, String, Option, none, some}
use harvestledger.Http.{error}
use harvestledger.Effect.{Result, ok, err, Action, or_throw, present, ◌>>=◌}
use harvestledger.Store.{body, no_such_key, failure}
use harvestledger.Auth.{User}
use harvestledger.Auth.World.{World, Env, save_user}

pub data Upload : Type 0 where
  uploaded upload_failed : Upload

abbrev pub with_photo : String → User → User
with_photo key u = record u { profile = record u.profile { photo = some key } }

module _ {U O File Data : Type 0} (env : Env U O File Data) where
  -- `uploadFile`
  unfoldable pub put_image : File → String → Action (World U O) String
  put_image file key w =
      let (failed, objects) = env.bucket.upload key file w.objects in
      elim failed [
        | none ↦ (ok key, record w { objects = objects })
        | some m ↦ (err (error m), record w { objects = objects })
      ]

  -- The `try` block of `uploadUserImage`. The photo is stored before a missing user breaks it.
  unfoldable pub store_image : File → ℕ → Action (World U O) (Unit {0})
  unfolding put_image
  store_image file user_id w =
      (do
        key ← put_image file (String.◌++◌ "user-" (env.to_string user_id))
        u ←
            or_throw (env.users.find_one user_id w.users)
              (error "Cannot set properties of null (setting 'photo')")
        save_user env (with_photo key u))
        w

  -- Its handler.
  abbrev pub caught : Result (Unit {0}) × World U O → Result Upload × World U O
  caught (ok _, w) = (ok uploaded, w)
  caught (err _, w) = (ok upload_failed, w)

  unfoldable pub upload_user_image : File → ℕ → Action (World U O) Upload
  unfolding store_image
  upload_user_image file user_id w = caught (store_image file user_id w)

  -- `getFile`: null for an empty key and for a missing object.
  unfoldable pub read_image : Option String → Action (World U O) (Option Data)
  read_image none w = (ok none, w)
  read_image (some key) w = elim (env.bucket.get_object key w.objects) [
    | body d ↦ (ok (some d), w)
    | no_such_key ↦ (ok none, w)
    | failure m ↦ (err (error m), w)
  ]

  unfoldable pub get_user_image : ℕ → Action (World U O) (Option Data)
  unfolding read_image present
  get_user_image user_id w =
      (do
        u ←
            or_throw (env.users.find_one user_id w.users)
              (error "Cannot read properties of null (reading 'photo')")
        read_image (present u.profile.photo))
        w
