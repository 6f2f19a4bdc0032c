-- ===== src/Farms/Harvests.antt =====
-- apps/farms/src/harvests/harvests.service.ts. A reply is its field `data`; its texts are left out.
use Prim.Native.String
use harvestledger.Base.{ℕ, String, Bool, Option, none, some, List, [], ◌∷◌, or_else}
use harvestledger.Http.{conflict}
use harvestledger.Farms.{
  Crop, Harvest, CreateHarvestDto, UpdateHarvestDto, number, number_or_undefined, harvest,
}
use harvestledger.Farms.World.{
  World, Env, Action, pure, throw_if, ◌>>=◌, ◌>>◌, transaction, enqueue_event, upload_file, fetch,
}
use harvestledger.Farms.Ownership.{assert_crop_owner, assert_harvest_owner, crop_owner}
use harvestledger.Farms.Schema.{insert_harvest, save_harvest, remove_harvest, is_id, is_filled}

-- `manager.create(HarvestEntity, { ...harvestData, crop: { id: cropId } })`
unfoldable pub new_harvest : CreateHarvestDto → ℕ → Harvest
new_harvest dto id = record {
  id = id;
  photo = none;
  harvest_date = dto.harvest_date;
  amount = dto.amount;
  unit = dto.unit;
  category = dto.category;
  description = dto.description;
  crop_id = some dto.crop_id;
}

abbrev set_text : Option String → Option String → Option String
set_text none old = old
set_text (some new) old = some new

-- `Object.assign(harvest, updateHarvestDto)`. The body's `cropId` becomes a property that is no
-- column: the relation is not changed by it.
unfoldable pub assign_harvest : UpdateHarvestDto → Harvest → Harvest
assign_harvest dto h = record h {
  harvest_date = or_else dto.harvest_date h.harvest_date;
  amount = or_else dto.amount h.amount;
  unit = or_else dto.unit h.unit;
  category = or_else dto.category h.category;
  description = set_text dto.description h.description;
}

module _ {F C A H O File Data : Type 0} (env : Env F C A H O File Data) where
  -- The harvests of a crop: `find({ where: { crop: Equal(cropId) } })`.
  abbrev pub harvests_of : ℕ → World F C A H O → List Harvest
  harvests_of crop_id w = env.harvests.find (λ h. is_id crop_id h.crop_id) w.harvests

  -- `isCropHaveHarvest`
  unfoldable pub is_crop_have_harvest : ℕ → World F C A H O → Bool
  is_crop_have_harvest crop_id w = is_filled (harvests_of crop_id w)

  -- `createHarvest` up to its transaction: the crop, and its owner as the relation gives it.
  unfoldable pub check_new_harvest :
      ℕ → CreateHarvestDto → Action (World F C A H O) (Crop × Option ℕ)
  unfolding is_crop_have_harvest
  check_new_harvest user dto w =
      (do
        crop ← assert_crop_owner env user dto.crop_id
        throw_if (is_crop_have_harvest dto.crop_id w)
            (conflict "The crop already has a harvest, no more can be added")
        pure (crop, crop_owner env w crop))
        w

  -- The callback of the transaction in `createHarvest`.
  unfoldable pub save_new_harvest :
      Crop → Option ℕ → CreateHarvestDto → Action (World F C A H O) Harvest
  unfolding new_harvest
  save_new_harvest crop owner dto = do
    saved ← insert_harvest env dto.crop_id (new_harvest dto)
    enqueue_event env "harvest.created" (
        ("cropId", number dto.crop_id)
        ∷ ("farmId", number_or_undefined crop.farm_id)
        ∷ ("userId", number_or_undefined owner)
        ∷ ("payload", harvest saved)
        ∷ [])
    pure saved

  -- The rest of `createHarvest`.
  unfoldable pub commit_new_harvest :
      CreateHarvestDto → Crop × Option ℕ → Action (World F C A H O) Harvest
  unfolding save_new_harvest
  commit_new_harvest dto (crop, owner) = transaction env (save_new_harvest crop owner dto)

  unfoldable pub create_harvest : ℕ → CreateHarvestDto → Action (World F C A H O) Harvest
  unfolding check_new_harvest commit_new_harvest
  create_harvest user dto = do checked ← check_new_harvest user dto; commit_new_harvest dto checked

  unfoldable pub find_harvest_by_crop_id : ℕ → ℕ → Action (World F C A H O) (List Harvest)
  find_harvest_by_crop_id user crop_id = do
    _ ← assert_crop_owner env user crop_id
    λ w. pure (harvests_of crop_id w) w

  unfoldable pub delete_harvest : ℕ → ℕ → Action (World F C A H O) Harvest
  delete_harvest user harvest_id = do
    h ← assert_harvest_owner env user harvest_id
    remove_harvest env h
    pure h

  unfoldable pub update_harvest : ℕ → UpdateHarvestDto → ℕ → Action (World F C A H O) Harvest
  unfolding assign_harvest
  update_harvest user dto harvest_id = do
    h ← assert_harvest_owner env user harvest_id
    save_harvest env (assign_harvest dto h)
    pure (assign_harvest dto h)

  -- `harvest-${harvestId}-user-${userId}`
  unfoldable pub harvest_photo_key : ℕ → ℕ → String
  harvest_photo_key harvest_id user =
      String.◌++◌ "harvest-"
        (String.◌++◌ (env.to_string harvest_id) (String.◌++◌ "-user-" (env.to_string user)))

  unfoldable pub upload_harvest_image : File → ℕ → ℕ → Action (World F C A H O) String
  unfolding harvest_photo_key
  upload_harvest_image file user harvest_id = do
    h ← assert_harvest_owner env user harvest_id
    key ← upload_file env file (harvest_photo_key harvest_id user)
    save_harvest env (record h { photo = some key })
    pure key

  unfoldable pub get_harvest_image : ℕ → ℕ → Action (World F C A H O) (Option Data)
  unfolding fetch
  get_harvest_image user harvest_id = do
    h ← assert_harvest_owner env user harvest_id
    fetch env h.photo "Harvest photo not found"
