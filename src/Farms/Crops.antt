-- ===== src/Farms/Crops.antt =====
-- apps/farms/src/crops/crops.service.ts. A reply is its field `data`; its texts are left out.
use Prim.Native.String
use harvestledger.Base.{ℕ, String, Option, none, some, List, [], ◌∷◌, or_else}
use harvestledger.Farms.{Crop, CreateCropDto, UpdateCropDto, number, crop, Farm}
use harvestledger.Farms.World.{
  World, Env, Action, pure, ◌>>=◌, ◌>>◌, transaction, enqueue_event, upload_file, fetch,
}
use harvestledger.Farms.Ownership.{assert_farm_owner, assert_crop_owner}
use harvestledger.Farms.Schema.{insert_crop, save_crop, remove_crop, is_id}

-- `manager.create(CropEntity, { ...cropData, farm: { id: farmId } })`
unfoldable pub new_crop : CreateCropDto → ℕ → Crop
new_crop dto id = record {
  id = id;
  name = dto.name;
  product = dto.product;
  size = dto.size;
  location = dto.location;
  photo = none;
  sowing_date = dto.sowing_date;
  plants = dto.plants;
  farm_id = some dto.farm_id;
}

-- `Object.assign(crop, updateCropDto)`. The body's `farmId` becomes a property that is no column:
-- the relation is not changed by it.
unfoldable pub assign_crop : UpdateCropDto → Crop → Crop
assign_crop dto c = record c {
  name = or_else dto.name c.name;
  product = or_else dto.product c.product;
  size = or_else dto.size c.size;
  location = or_else dto.location c.location;
  sowing_date = or_else dto.sowing_date c.sowing_date;
  plants = or_else dto.plants c.plants;
}

module _ {F C A H O File Data : Type 0} (env : Env F C A H O File Data) where
  -- The callback of the transaction in `createCrop`.
  unfoldable pub save_new_crop : Farm → CreateCropDto → Action (World F C A H O) Crop
  unfolding new_crop
  save_new_crop farm dto = do
    saved ← insert_crop env dto.farm_id (new_crop dto)
    enqueue_event env "crop.initialized" (
        ("cropId", number saved.id)
        ∷ ("farmId", number farm.id)
        ∷ ("userId", number farm.user_id)
        ∷ ("payload", crop saved)
        ∷ [])
    pure saved

  unfoldable pub create_crop : ℕ → CreateCropDto → Action (World F C A H O) Crop
  unfolding save_new_crop
  create_crop user dto = do
    farm ← assert_farm_owner env user dto.farm_id
    transaction env (save_new_crop farm dto)

  unfoldable pub find_crops_by_farm_id : ℕ → ℕ → Action (World F C A H O) (List Crop)
  find_crops_by_farm_id user farm_id = do
    _ ← assert_farm_owner env user farm_id
    λ w. pure (env.crops.find (λ c. is_id farm_id c.farm_id) w.crops) w

  unfoldable pub update_crop : ℕ → UpdateCropDto → ℕ → Action (World F C A H O) Crop
  unfolding assign_crop
  update_crop user dto crop_id = do
    c ← assert_crop_owner env user crop_id
    save_crop env (assign_crop dto c)
    pure (assign_crop dto c)

  unfoldable pub delete_crop : ℕ → ℕ → Action (World F C A H O) (Unit {0})
  delete_crop user crop_id = do c ← assert_crop_owner env user crop_id; remove_crop env c

  -- `crop-${cropId}-user-${userId}`
  unfoldable pub crop_photo_key : ℕ → ℕ → String
  crop_photo_key crop_id user =
      String.◌++◌ "crop-"
        (String.◌++◌ (env.to_string crop_id) (String.◌++◌ "-user-" (env.to_string user)))

  unfoldable pub upload_crop_photo : File → ℕ → ℕ → Action (World F C A H O) String
  unfolding crop_photo_key
  upload_crop_photo file user crop_id = do
    c ← assert_crop_owner env user crop_id
    key ← upload_file env file (crop_photo_key crop_id user)
    save_crop env (record c { photo = some key })
    pure key

  unfoldable pub get_crop_photo : ℕ → ℕ → Action (World F C A H O) (Option Data)
  unfolding fetch
  get_crop_photo user crop_id = do
    c ← assert_crop_owner env user crop_id
    fetch env c.photo "Crop photo not found"

  unfoldable pub find_crop_by_id : ℕ → ℕ → Action (World F C A H O) Crop
  find_crop_by_id user crop_id = assert_crop_owner env user crop_id
