-- ===== src/Farms/Controller/Isolation.antt =====
-- No request changes a row that is not its user's.
mod Steps
pub mod Writes
mod ParentWrites
mod ChildWrites
mod Rules
mod OfFarms
mod OfCrops
mod OfActivities
mod OfHarvests
use harvestledger.Base.{
  ℕ, String, Bool, true, false, Option, none, some, ◌≡◌, refl, sym, ap, ◌∙◌, arith, inl, inr,
  Option-cases, Bool-cases, if◌then◌else◌, List, [], ◌∷◌,
}
use mathlib.Core.Path.{subst}
use harvestledger.Http.{Exception, conflict, error}
use harvestledger.Outbox.{Payload}
use harvestledger.Store.{Fetched, body, no_such_key, failure}
use harvestledger.Farms.{
  Farm, Crop, Activity, Harvest, CreateFarmDto, UpdateFarmDto, CreateCropDto, UpdateCropDto,
  CreateActivityDto, UpdateActivityDto, CreateHarvestDto, UpdateHarvestDto, Value, number,
  number_or_undefined,
}
use harvestledger.Farms.World.{
  World, Env, Action, Result, ok, err, pure, throw_if, query_failed, ◌>>=◌, ◌>>◌, transaction,
  enqueue_event, upload_file, fetch, get_file, present,
}
use harvestledger.Farms.Ownership.{
  crop_owner, child_owner, assert_farm_owner, assert_crop_owner, assert_activity_owner,
  assert_harvest_owner,
}
use harvestledger.Farms.Ownership.Laws.{assertions-Decides}
use harvestledger.Farms.Schema.{
  insert_farm, save_farm, update_farm_row, remove_farm, insert_crop, save_crop, remove_crop,
  insert_activity, save_activity, remove_activity, insert_harvest, save_harvest, remove_harvest,
  is_filled, is_id,
}
use harvestledger.Farms.FarmsService
use harvestledger.Farms.Crops
use harvestledger.Farms.Activities
use harvestledger.Farms.Harvests
use harvestledger.Farms.Controller.{Request, Reply, handle}
use harvestledger.Effect.Binds.{after}
use harvestledger.Farms.Controller.Isolation.Steps.{
  bind_ends, pure_ends, assertion_ends, throw_if_ends, unpure_ends,
}
use harvestledger.Farms.Controller.Isolation.Writes.{AreTables, Keeps, Keeps-refl, stored-Keeps}
use harvestledger.Farms.Controller.Isolation.ParentWrites.{
  insert_farm-Keeps, save_farm-Keeps, remove_farm-Keeps, update_farm_row-Keeps, insert_crop-Keeps,
  save_crop-Keeps, remove_crop-Keeps,
}
use harvestledger.Farms.Controller.Isolation.ChildWrites.{
  insert_activity-Keeps, save_activity-Keeps, remove_activity-Keeps, insert_harvest-Keeps,
  save_harvest-Keeps, remove_harvest-Keeps,
}
use harvestledger.Farms.Controller.Isolation.Rules.{P}
use harvestledger.Farms.Controller.Isolation.OfFarms.{
  create_farm-Keeps, update_farm-Keeps, delete_farm-Keeps, upload_farm_image-Keeps,
  get_farm_image-Keeps, find_all_by_user_id-Keeps,
}
use harvestledger.Farms.Controller.Isolation.OfCrops.{
  update_crop-Keeps, delete_crop-Keeps, upload_crop_photo-Keeps, get_crop_photo-Keeps,
  create_crop-Keeps, find_crops_by_farm_id-Keeps, find_crop_by_id-Keeps,
}
use harvestledger.Farms.Controller.Isolation.OfActivities.{
  update_activity-Keeps, delete_activity-Keeps, upload_activity_photo-Keeps,
  get_activity_photo-Keeps, create_activity-Keeps, find_activities_by_crop_id-Keeps,
}
use harvestledger.Farms.Controller.Isolation.OfHarvests.{
  update_harvest-Keeps, delete_harvest-Keeps, upload_harvest_image-Keeps, get_harvest_image-Keeps,
  create_harvest-Keeps, find_harvest_by_crop_id-Keeps,
}

module _ {F C A H O File Data : Type 0} (env : Env F C A H O File Data) (tables : AreTables env)
    (user : ℕ) (w : World F C A H O) where
  -- No request of a user changes or removes a farm, crop, activity or harvest that is not the
  -- user's own through the chain of crop and farm, whatever the request and its outcome.
  pub handle-Keeps : (r : Request File) → Keeps env user w (handle env user r w).1
  unfolding handle
  handle-Keeps (Request.create_farm a) =
      pure_ends (P env tables user w) (FarmsService.create_farm env user a) Reply.farm w
        ((create_farm-Keeps env tables user w) a)
  handle-Keeps Request.farms_by_user =
      pure_ends (P env tables user w) (FarmsService.find_all_by_user_id env user) Reply.farms w
        (find_all_by_user_id-Keeps env tables user w)
  handle-Keeps (Request.update_farm a b) =
      pure_ends (P env tables user w) (FarmsService.update_farm env user a b) Reply.found_farm w
        ((update_farm-Keeps env tables user w) a b)
  handle-Keeps (Request.delete_farm a) =
      pure_ends (P env tables user w) (FarmsService.delete_farm env user a) Reply.farm w
        ((delete_farm-Keeps env tables user w) a)
  handle-Keeps (Request.upload_farm_image a b) =
      pure_ends (P env tables user w) (FarmsService.upload_farm_image env a user b) Reply.key w
        ((upload_farm_image-Keeps env tables user w) a b)
  handle-Keeps (Request.get_farm_image a) =
      pure_ends (P env tables user w) (FarmsService.get_farm_image env user a) Reply.image w
        ((get_farm_image-Keeps env tables user w) a)
  handle-Keeps (Request.create_crop a) =
      pure_ends (P env tables user w) (Crops.create_crop env user a) Reply.crop w
        ((create_crop-Keeps env tables user w) a)
  handle-Keeps (Request.get_crop a) =
      pure_ends (P env tables user w) (Crops.find_crop_by_id env user a) Reply.crop w
        ((find_crop_by_id-Keeps env tables user w) a)
  handle-Keeps (Request.crops_by_farm a) =
      pure_ends (P env tables user w) (Crops.find_crops_by_farm_id env user a) Reply.crops w
        ((find_crops_by_farm_id-Keeps env tables user w) a)
  handle-Keeps (Request.update_crop a b) =
      pure_ends (P env tables user w) (Crops.update_crop env user a b) Reply.crop w
        ((update_crop-Keeps env tables user w) a b)
  handle-Keeps (Request.delete_crop a) =
      pure_ends (P env tables user w) (Crops.delete_crop env user a) (λ _. Reply.done) w
        ((delete_crop-Keeps env tables user w) a)
  handle-Keeps (Request.upload_crop_photo a b) =
      pure_ends (P env tables user w) (Crops.upload_crop_photo env a user b) Reply.key w
        ((upload_crop_photo-Keeps env tables user w) a b)
  handle-Keeps (Request.get_crop_photo a) =
      pure_ends (P env tables user w) (Crops.get_crop_photo env user a) Reply.image w
        ((get_crop_photo-Keeps env tables user w) a)
  handle-Keeps (Request.create_activity a) =
      pure_ends (P env tables user w) (Activities.create_activity env user a) Reply.activity w
        ((create_activity-Keeps env tables user w) a)
  handle-Keeps (Request.activities_by_crop a) =
      pure_ends (P env tables user w) (Activities.find_activities_by_crop_id env user a)
        Reply.activities w ((find_activities_by_crop_id-Keeps env tables user w) a)
  handle-Keeps (Request.update_activity a b) =
      pure_ends (P env tables user w) (Activities.update_activity env user a b) Reply.activity w
        ((update_activity-Keeps env tables user w) a b)
  handle-Keeps (Request.delete_activity a) =
      pure_ends (P env tables user w) (Activities.delete_activity env user a) Reply.activity w
        ((delete_activity-Keeps env tables user w) a)
  handle-Keeps (Request.upload_activity_photo a b) =
      pure_ends (P env tables user w) (Activities.upload_activity_photo env a user b) Reply.key w
        ((upload_activity_photo-Keeps env tables user w) a b)
  handle-Keeps (Request.get_activity_photo a) =
      pure_ends (P env tables user w) (Activities.get_activity_photo env user a) Reply.image w
        ((get_activity_photo-Keeps env tables user w) a)
  handle-Keeps (Request.create_harvest a) =
      pure_ends (P env tables user w) (Harvests.create_harvest env user a) Reply.harvest w
        ((create_harvest-Keeps env tables user w) a)
  handle-Keeps (Request.harvest_by_crop a) =
      pure_ends (P env tables user w) (Harvests.find_harvest_by_crop_id env user a) Reply.harvests w
        ((find_harvest_by_crop_id-Keeps env tables user w) a)
  handle-Keeps (Request.update_harvest a b) =
      pure_ends (P env tables user w) (Harvests.update_harvest env user a b) Reply.harvest w
        ((update_harvest-Keeps env tables user w) a b)
  handle-Keeps (Request.delete_harvest a) =
      pure_ends (P env tables user w) (Harvests.delete_harvest env user a) Reply.harvest w
        ((delete_harvest-Keeps env tables user w) a)
  handle-Keeps (Request.upload_harvest_image a b) =
      pure_ends (P env tables user w) (Harvests.upload_harvest_image env a user b) Reply.key w
        ((upload_harvest_image-Keeps env tables user w) a b)
  handle-Keeps (Request.get_harvest_image a) =
      pure_ends (P env tables user w) (Harvests.get_harvest_image env user a) Reply.image w
        ((get_harvest_image-Keeps env tables user w) a)
