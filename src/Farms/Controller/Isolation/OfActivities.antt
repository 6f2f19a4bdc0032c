-- ===== src/Farms/Controller/Isolation/OfActivities.antt =====
-- The handlers of activities leave the rows of others alone.
use harvestledger.Base.{ℕ, String, some, refl, ap, ◌∙◌, [], ◌∷◌}
use harvestledger.Farms.{
  Activity, CreateActivityDto, UpdateActivityDto, Value, number, number_or_undefined,
}
use harvestledger.Farms.World.{
  World, Env, Action, pure, ◌>>=◌, ◌>>◌, transaction, upload_file, fetch,
}
use harvestledger.Farms.Ownership.{crop_owner}
use harvestledger.Farms.Schema.{insert_activity, save_activity, remove_activity, is_id}
use harvestledger.Farms.Activities
use harvestledger.Farms.Controller.Isolation.Writes.{AreTables}
use harvestledger.Farms.Controller.Isolation.ChildWrites.{
  insert_activity-Keeps, save_activity-Keeps, remove_activity-Keeps,
}
use harvestledger.Farms.Controller.Isolation.Rules.{
  P, unchanged, saved-Keeps, upload-Keeps, fetch-Keeps, crop_ends, activity_ends, last_ends,
  with_objects,
}

module _ {F C A H O File Data : Type 0} (env : Env F C A H O File Data) (tables : AreTables env)
    (user : ℕ) (w : World F C A H O) where
  pub update_activity-Keeps :
      (dto : UpdateActivityDto) (id : ℕ)
      → (P env tables user w) (Activities.update_activity env user dto id w).1
  unfolding Activities.update_activity
  update_activity-Keeps dto id =
      let change = Activities.assign_activity dto in
      (activity_ends env tables user w) id (λ x. save_activity env (change x) >> pure (change x))
        (λ x found mine.
          (last_ends env tables user w) (save_activity env (change x)) (λ _. pure (change x)) w
            (λ y v. refl)
            (save_activity-Keeps env user w tables w.objects (change x) x
              (ap (λ j. env.activities.find_one j w.activities)
                  (tables.activities.key_found id w.activities x found)
                ∙ found)
              mine))

  pub delete_activity-Keeps :
      (id : ℕ) → (P env tables user w) (Activities.delete_activity env user id w).1
  unfolding Activities.delete_activity
  delete_activity-Keeps id =
      (activity_ends env tables user w) id (λ x. remove_activity env x >> pure x)
        (λ x found mine.
          (last_ends env tables user w) (remove_activity env x) (λ _. pure x) w (λ y v. refl)
            (remove_activity-Keeps env user w tables w.objects x
              (ap (λ j. env.activities.find_one j w.activities)
                  (tables.activities.key_found id w.activities x found)
                ∙ found)
              mine))

  pub upload_activity_photo-Keeps :
      (file : File) (id : ℕ)
      → (P env tables user w) (Activities.upload_activity_photo env file user id w).1
  unfolding Activities.upload_activity_photo
  upload_activity_photo-Keeps file id =
      let key = Activities.activity_photo_key env id user in
      let store : Activity → String → Action (World F C A H O) String =
        λ x k. save_activity env (record x { photo = some k }) >> pure k in
      (activity_ends env tables user w) id (λ x. upload_file env file key >>= store x)
        (λ x found mine. (upload-Keeps env tables user w) file key (store x) (λ o.
          (last_ends env tables user w) (save_activity env (record x { photo = some key }))
            (λ _. pure key) ((with_objects env tables user w) o) (λ y v. refl)
            (save_activity-Keeps env user w tables o (record x { photo = some key }) x
              (ap (λ j. env.activities.find_one j w.activities)
                  (tables.activities.key_found id w.activities x found)
                ∙ found)
              mine)))

  pub get_activity_photo-Keeps :
      (id : ℕ) → (P env tables user w) (Activities.get_activity_photo env user id w).1
  unfolding Activities.get_activity_photo
  get_activity_photo-Keeps id =
      (activity_ends env tables user w) id (λ x. fetch env x.photo "Activity photo not found")
        (λ x found mine. (fetch-Keeps env tables user w) x.photo "Activity photo not found")

  pub create_activity-Keeps :
      (dto : CreateActivityDto)
      → (P env tables user w) (Activities.create_activity env user dto w).1
  unfolding Activities.create_activity
  create_activity-Keeps dto =
      (crop_ends env tables user w) dto.crop_id
        (λ c. transaction env (Activities.save_new_activity env c (crop_owner env w c) dto))
        (λ c found mine.
          (saved-Keeps env tables user w)
            (insert_activity env dto.crop_id (Activities.new_activity dto)) "activity.created"
            (λ saved.
              ("cropId", number dto.crop_id)
              ∷ ("farmId", number_or_undefined c.farm_id)
              ∷ ("userId", number_or_undefined (crop_owner env w c))
              ∷ ("payload", Value.activity saved)
              ∷ [])
            (insert_activity-Keeps env user w tables w.objects dto.crop_id
              (Activities.new_activity dto)))

  pub find_activities_by_crop_id-Keeps :
      (id : ℕ) → (P env tables user w) (Activities.find_activities_by_crop_id env user id w).1
  unfolding Activities.find_activities_by_crop_id
  find_activities_by_crop_id-Keeps id =
      (crop_ends env tables user w) id
        (λ _ v. pure (env.activities.find (λ a. is_id id a.crop_id) v.activities) v)
        (λ x found mine. (unchanged env tables user w))
