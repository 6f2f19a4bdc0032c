-- ===== src/Farms/Controller/Isolation/OfFarms.antt =====
-- The handlers of farms leave the rows of others alone.
use harvestledger.Base.{ℕ, String, Option, some, refl, ap, ◌∙◌}
use harvestledger.Http.{conflict}
use harvestledger.Farms.{Farm, CreateFarmDto, UpdateFarmDto}
use harvestledger.Farms.World.{
  World, Env, Action, pure, throw_if, ◌>>=◌, ◌>>◌, upload_file, fetch, present,
}
use harvestledger.Farms.Schema.{insert_farm, save_farm, update_farm_row, remove_farm, is_filled}
use harvestledger.Farms.FarmsService
use harvestledger.Farms.Controller.Isolation.Steps.{throw_if_ends}
use harvestledger.Farms.Controller.Isolation.Writes.{AreTables}
use harvestledger.Farms.Controller.Isolation.ParentWrites.{
  insert_farm-Keeps, save_farm-Keeps, remove_farm-Keeps, update_farm_row-Keeps,
}
use harvestledger.Farms.Controller.Isolation.Rules.{
  P, unchanged, upload-Keeps, fetch-Keeps, farm_ends, last_ends, with_objects,
}

module _ {F C A H O File Data : Type 0} (env : Env F C A H O File Data) (tables : AreTables env)
    (user : ℕ) (w : World F C A H O) where
  pub create_farm-Keeps :
      (dto : CreateFarmDto) → (P env tables user w) (FarmsService.create_farm env user dto w).1
  unfolding FarmsService.create_farm
  create_farm-Keeps dto =
      throw_if_ends (P env tables user w) (is_filled (FarmsService.named env dto.name user w))
        (conflict "Farm already exists") (insert_farm env (FarmsService.new_farm user dto)) w
        (unchanged env tables user w)
        (insert_farm-Keeps env user w tables w.objects (FarmsService.new_farm user dto))

  pub update_farm-Keeps :
      (dto : UpdateFarmDto) (id : ℕ)
      → (P env tables user w) (FarmsService.update_farm env user dto id w).1
  unfolding FarmsService.update_farm
  update_farm-Keeps dto id =
      let change = FarmsService.set_farm dto in
      let read : Unit {0} → Action (World F C A H O) (Option Farm) =
        λ _ v. pure (env.farms.find_one id v.farms) v in
      let update : Action (World F C A H O) (Option Farm) =
        update_farm_row env user id dto.name change >>= read in
      let taken = FarmsService.is_name_taken env id (present dto.name) w in
      (farm_ends env tables user w) id
        (λ _. throw_if taken (conflict "Farm name already exists") >> update)
        (λ x found mine.
          throw_if_ends (P env tables user w) taken (conflict "Farm name already exists") update w
            (unchanged env tables user w)
            ((last_ends env tables user w) (update_farm_row env user id dto.name change) read w
              (λ y v. refl)
              (update_farm_row-Keeps env user w tables w.objects id dto.name change x found mine)))

  pub delete_farm-Keeps :
      (id : ℕ) → (P env tables user w) (FarmsService.delete_farm env user id w).1
  unfolding FarmsService.delete_farm
  delete_farm-Keeps id =
      (farm_ends env tables user w) id (λ x. remove_farm env x >> pure x)
        (λ x found mine.
          (last_ends env tables user w) (remove_farm env x) (λ _. pure x) w (λ y v. refl)
            (remove_farm-Keeps env user w tables w.objects x
              (ap (λ j. env.farms.find_one j w.farms) (tables.farms.key_found id w.farms x found)
                ∙ found)
              mine))

  pub upload_farm_image-Keeps :
      (file : File) (id : ℕ)
      → (P env tables user w) (FarmsService.upload_farm_image env file user id w).1
  unfolding FarmsService.upload_farm_image
  upload_farm_image-Keeps file id =
      let key = FarmsService.farm_photo_key env id user in
      let store : Farm → String → Action (World F C A H O) String =
        λ x k. save_farm env (record x { photo = some k }) >> pure k in
      (farm_ends env tables user w) id (λ x. upload_file env file key >>= store x)
        (λ x found mine. (upload-Keeps env tables user w) file key (store x) (λ o.
          (last_ends env tables user w) (save_farm env (record x { photo = some key }))
            (λ _. pure key) ((with_objects env tables user w) o) (λ y v. refl)
            (save_farm-Keeps env user w tables o (record x { photo = some key }) x
              (ap (λ j. env.farms.find_one j w.farms) (tables.farms.key_found id w.farms x found)
                ∙ found)
              mine)))

  pub get_farm_image-Keeps :
      (id : ℕ) → (P env tables user w) (FarmsService.get_farm_image env user id w).1
  unfolding FarmsService.get_farm_image
  get_farm_image-Keeps id =
      (farm_ends env tables user w) id (λ x. fetch env x.photo "Farm photo not found")
        (λ x found mine. (fetch-Keeps env tables user w) x.photo "Farm photo not found")

  pub find_all_by_user_id-Keeps :
      (P env tables user w) (FarmsService.find_all_by_user_id env user w).1
  unfolding FarmsService.find_all_by_user_id
  find_all_by_user_id-Keeps = (unchanged env tables user w)
