-- ===== src/Farms/Controller/Isolation/OfCrops.antt =====
-- The handlers of crops leave the rows of others alone.
use harvestledger.Base.{ℕ, String, some, refl, ap, ◌∙◌, [], ◌∷◌}
use harvestledger.Farms.{Crop, CreateCropDto, UpdateCropDto, Value, number}
use harvestledger.Farms.World.{
  World, Env, Action, pure, ◌>>=◌, ◌>>◌, transaction, upload_file, fetch,
}
use harvestledger.Farms.Ownership.{assert_crop_owner}
use harvestledger.Farms.Schema.{insert_crop, save_crop, remove_crop, is_id}
use harvestledger.Farms.Crops
use harvestledger.Farms.Controller.Isolation.Steps.{unpure_ends}
use harvestledger.Farms.Controller.Isolation.Writes.{AreTables}
use harvestledger.Farms.Controller.Isolation.ParentWrites.{
  insert_crop-Keeps, save_crop-Keeps, remove_crop-Keeps,
}
use harvestledger.Farms.Controller.Isolation.Rules.{
  P, unchanged, saved-Keeps, upload-Keeps, fetch-Keeps, farm_ends, crop_ends, last_ends,
  with_objects,
}

module _ {F C A H O File Data : Type 0} (env : Env F C A H O File Data) (tables : AreTables env)
    (user : ℕ) (w : World F C A H O) where
  pub update_crop-Keeps :
      (dto : UpdateCropDto) (id : ℕ) → (P env tables user w) (Crops.update_crop env user dto id w).1
  unfolding Crops.update_crop
  update_crop-Keeps dto id =
      let change = Crops.assign_crop dto in
      (crop_ends env tables user w) id (λ x. save_crop env (change x) >> pure (change x))
        (λ x found mine.
          (last_ends env tables user w) (save_crop env (change x)) (λ _. pure (change x)) w
            (λ y v. refl)
            (save_crop-Keeps env user w tables w.objects (change x) x
              (ap (λ j. env.crops.find_one j w.crops) (tables.crops.key_found id w.crops x found)
                ∙ found)
              mine))

  pub delete_crop-Keeps : (id : ℕ) → (P env tables user w) (Crops.delete_crop env user id w).1
  unfolding Crops.delete_crop
  delete_crop-Keeps id = (crop_ends env tables user w) id (remove_crop env) (λ x found mine.
      remove_crop-Keeps env user w tables w.objects x
        (ap (λ j. env.crops.find_one j w.crops) (tables.crops.key_found id w.crops x found) ∙ found)
        mine)

  pub upload_crop_photo-Keeps :
      (file : File) (id : ℕ) → (P env tables user w) (Crops.upload_crop_photo env file user id w).1
  unfolding Crops.upload_crop_photo
  upload_crop_photo-Keeps file id =
      let key = Crops.crop_photo_key env id user in
      let store : Crop → String → Action (World F C A H O) String =
        λ x k. save_crop env (record x { photo = some k }) >> pure k in
      (crop_ends env tables user w) id (λ x. upload_file env file key >>= store x)
        (λ x found mine. (upload-Keeps env tables user w) file key (store x) (λ o.
          (last_ends env tables user w) (save_crop env (record x { photo = some key }))
            (λ _. pure key) ((with_objects env tables user w) o) (λ y v. refl)
            (save_crop-Keeps env user w tables o (record x { photo = some key }) x
              (ap (λ j. env.crops.find_one j w.crops) (tables.crops.key_found id w.crops x found)
                ∙ found)
              mine)))

  pub get_crop_photo-Keeps : (id : ℕ) → (P env tables user w) (Crops.get_crop_photo env user id w).1
  unfolding Crops.get_crop_photo
  get_crop_photo-Keeps id =
      (crop_ends env tables user w) id (λ x. fetch env x.photo "Crop photo not found")
        (λ x found mine. (fetch-Keeps env tables user w) x.photo "Crop photo not found")

  pub create_crop-Keeps :
      (dto : CreateCropDto) → (P env tables user w) (Crops.create_crop env user dto w).1
  unfolding Crops.create_crop
  create_crop-Keeps dto =
      (farm_ends env tables user w) dto.farm_id
        (λ f. transaction env (Crops.save_new_crop env f dto))
        (λ f found mine.
          (saved-Keeps env tables user w) (insert_crop env dto.farm_id (Crops.new_crop dto))
            "crop.initialized"
            (λ saved.
              ("cropId", number saved.id)
              ∷ ("farmId", number f.id)
              ∷ ("userId", number f.user_id)
              ∷ ("payload", Value.crop saved)
              ∷ [])
            (insert_crop-Keeps env user w tables w.objects dto.farm_id (Crops.new_crop dto)))

  pub find_crops_by_farm_id-Keeps :
      (id : ℕ) → (P env tables user w) (Crops.find_crops_by_farm_id env user id w).1
  unfolding Crops.find_crops_by_farm_id
  find_crops_by_farm_id-Keeps id =
      (farm_ends env tables user w) id
        (λ _ v. pure (env.crops.find (λ c. is_id id c.farm_id) v.crops) v)
        (λ x found mine. (unchanged env tables user w))

  pub find_crop_by_id-Keeps :
      (id : ℕ) → (P env tables user w) (Crops.find_crop_by_id env user id w).1
  unfolding Crops.find_crop_by_id
  find_crop_by_id-Keeps id =
      unpure_ends (P env tables user w) (assert_crop_owner env user id) w
        ((crop_ends env tables user w) id pure (λ x found mine. (unchanged env tables user w)))
