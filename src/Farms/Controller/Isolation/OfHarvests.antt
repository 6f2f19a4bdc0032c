-- ===== src/Farms/Controller/Isolation/OfHarvests.antt =====
-- The handlers of harvests leave the rows of others alone.
use harvestledger.Base.{ℕ, String, Option, some, ◌≡◌, refl, sym, ap, ◌∙◌, [], ◌∷◌}
use mathlib.Core.Path.{subst}
use harvestledger.Http.{conflict}
use harvestledger.Farms.{
  Crop, Harvest, CreateHarvestDto, UpdateHarvestDto, Value, number, number_or_undefined,
}
use harvestledger.Farms.World.{World, Env, Action, pure, throw_if, ◌>>=◌, ◌>>◌, upload_file, fetch}
use harvestledger.Farms.Ownership.{crop_owner, assert_crop_owner}
use harvestledger.Farms.Ownership.Laws.{assertions-Decides}
use harvestledger.Farms.Schema.{insert_harvest, save_harvest, remove_harvest}
use harvestledger.Farms.Harvests
use harvestledger.Farms.Controller.Isolation.Steps.{bind_ends, assertion_ends, throw_if_ends}
use harvestledger.Farms.Controller.Isolation.Writes.{AreTables}
use harvestledger.Farms.Controller.Isolation.ChildWrites.{
  insert_harvest-Keeps, save_harvest-Keeps, remove_harvest-Keeps,
}
use harvestledger.Farms.Controller.Isolation.Rules.{
  P, unchanged, saved-Keeps, upload-Keeps, fetch-Keeps, crop_ends, harvest_ends, last_ends,
  with_objects,
}

module _ {F C A H O File Data : Type 0} (env : Env F C A H O File Data) (tables : AreTables env)
    (user : ℕ) (w : World F C A H O) where
  pub update_harvest-Keeps :
      (dto : UpdateHarvestDto) (id : ℕ)
      → (P env tables user w) (Harvests.update_harvest env user dto id w).1
  unfolding Harvests.update_harvest
  update_harvest-Keeps dto id =
      let change = Harvests.assign_harvest dto in
      (harvest_ends env tables user w) id (λ x. save_harvest env (change x) >> pure (change x))
        (λ x found mine.
          (last_ends env tables user w) (save_harvest env (change x)) (λ _. pure (change x)) w
            (λ y v. refl)
            (save_harvest-Keeps env user w tables w.objects (change x) x
              (ap (λ j. env.harvests.find_one j w.harvests)
                  (tables.harvests.key_found id w.harvests x found)
                ∙ found)
              mine))

  pub delete_harvest-Keeps :
      (id : ℕ) → (P env tables user w) (Harvests.delete_harvest env user id w).1
  unfolding Harvests.delete_harvest
  delete_harvest-Keeps id =
      (harvest_ends env tables user w) id (λ x. remove_harvest env x >> pure x)
        (λ x found mine.
          (last_ends env tables user w) (remove_harvest env x) (λ _. pure x) w (λ y v. refl)
            (remove_harvest-Keeps env user w tables w.objects x
              (ap (λ j. env.harvests.find_one j w.harvests)
                  (tables.harvests.key_found id w.harvests x found)
                ∙ found)
              mine))

  pub upload_harvest_image-Keeps :
      (file : File) (id : ℕ)
      → (P env tables user w) (Harvests.upload_harvest_image env file user id w).1
  unfolding Harvests.upload_harvest_image
  upload_harvest_image-Keeps file id =
      let key = Harvests.harvest_photo_key env id user in
      let store : Harvest → String → Action (World F C A H O) String =
        λ x k. save_harvest env (record x { photo = some k }) >> pure k in
      (harvest_ends env tables user w) id (λ x. upload_file env file key >>= store x)
        (λ x found mine. (upload-Keeps env tables user w) file key (store x) (λ o.
          (last_ends env tables user w) (save_harvest env (record x { photo = some key }))
            (λ _. pure key) ((with_objects env tables user w) o) (λ y v. refl)
            (save_harvest-Keeps env user w tables o (record x { photo = some key }) x
              (ap (λ j. env.harvests.find_one j w.harvests)
                  (tables.harvests.key_found id w.harvests x found)
                ∙ found)
              mine)))

  pub get_harvest_image-Keeps :
      (id : ℕ) → (P env tables user w) (Harvests.get_harvest_image env user id w).1
  unfolding Harvests.get_harvest_image
  get_harvest_image-Keeps id =
      (harvest_ends env tables user w) id (λ x. fetch env x.photo "Harvest photo not found")
        (λ x found mine. (fetch-Keeps env tables user w) x.photo "Harvest photo not found")

  pub commit_new_harvest-Keeps :
      (dto : CreateHarvestDto) (c : Crop) (owner : Option ℕ)
      → (P env tables user w) (Harvests.commit_new_harvest env dto (c, owner) w).1
  unfolding Harvests.commit_new_harvest
  commit_new_harvest-Keeps dto c owner =
      (saved-Keeps env tables user w) (insert_harvest env dto.crop_id (Harvests.new_harvest dto))
        "harvest.created"
        (λ saved.
          ("cropId", number dto.crop_id)
          ∷ ("farmId", number_or_undefined c.farm_id)
          ∷ ("userId", number_or_undefined owner)
          ∷ ("payload", Value.harvest saved)
          ∷ [])
        (insert_harvest-Keeps env user w tables w.objects dto.crop_id (Harvests.new_harvest dto))

  -- The checks of `createHarvest` change nothing.
  pub check_new_harvest_same :
      (dto : CreateHarvestDto) → (Harvests.check_new_harvest env user dto w).1 ≡ w
  unfolding Harvests.check_new_harvest
  check_new_harvest_same dto =
      let test = Harvests.is_crop_have_harvest env dto.crop_id w in
      let refusal = conflict "The crop already has a harvest, no more can be added" in
      let result : Crop → Action (World F C A H O) (Crop × Option ℕ) =
        λ c. pure (c, crop_owner env w c) in
      assertion_ends (λ v. v ≡ w) "Crop not found" user (crop_owner env w)
        (env.crops.find_one dto.crop_id w.crops) (assert_crop_owner env user dto.crop_id)
        (λ c. throw_if test refusal >> result c) w (assertions-Decides env user dto.crop_id w).1
        refl (λ c found mine. throw_if_ends (λ v. v ≡ w) test refusal (result c) w refl refl)

  pub create_harvest-Keeps :
      (dto : CreateHarvestDto) → (P env tables user w) (Harvests.create_harvest env user dto w).1
  unfolding Harvests.create_harvest
  create_harvest-Keeps dto =
      bind_ends (P env tables user w) (Harvests.check_new_harvest env user dto)
        (Harvests.commit_new_harvest env dto) w
        (λ e v same.
          subst (P env tables user w) (sym (check_new_harvest_same dto) ∙ ap (λ r. r.1) same)
            (unchanged env tables user w))
        (λ (c, owner) v same.
          subst (λ v'. (P env tables user w) (Harvests.commit_new_harvest env dto (c, owner) v').1)
            (sym (check_new_harvest_same dto) ∙ ap (λ r. r.1) same)
            (commit_new_harvest-Keeps dto c owner))

  pub find_harvest_by_crop_id-Keeps :
      (id : ℕ) → (P env tables user w) (Harvests.find_harvest_by_crop_id env user id w).1
  unfolding Harvests.find_harvest_by_crop_id
  find_harvest_by_crop_id-Keeps id =
      (crop_ends env tables user w) id (λ _ v. pure (Harvests.harvests_of env id v) v)
        (λ x found mine. (unchanged env tables user w))
