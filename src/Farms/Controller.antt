-- ===== src/Farms/Controller.antt =====
-- The message handlers of the farms service: farms/farms.controller.ts, crops/crops.controller.ts,
-- activities/activities.controller.ts and harvests/harvest.controllers.ts of apps/farms/src, whose
-- payloads carry the id of the user that the gateway took from the token.
pub mod Refusal
pub mod Isolation
use harvestledger.Base.{ℕ, String, Option, none, some, List}
use harvestledger.Farms.{
  Farm, Crop, Activity, Harvest, CreateFarmDto, UpdateFarmDto, CreateCropDto, UpdateCropDto,
  CreateActivityDto, UpdateActivityDto, CreateHarvestDto, UpdateHarvestDto,
}
use harvestledger.Farms.World.{World, Env, Action, pure, ◌>>=◌}
use harvestledger.Farms.FarmsService
use harvestledger.Farms.Crops
use harvestledger.Farms.Activities
use harvestledger.Farms.Harvests

-- A message, by the service's method that its handler calls.
pub data Request (File : Type 0) : Type 0 where
  create_farm : CreateFarmDto → Request File
  farms_by_user : Request File
  update_farm : UpdateFarmDto → ℕ → Request File
  delete_farm : ℕ → Request File
  upload_farm_image : File → ℕ → Request File
  get_farm_image : ℕ → Request File
  create_crop : CreateCropDto → Request File
  get_crop : ℕ → Request File
  crops_by_farm : ℕ → Request File
  update_crop : UpdateCropDto → ℕ → Request File
  delete_crop : ℕ → Request File
  upload_crop_photo : File → ℕ → Request File
  get_crop_photo : ℕ → Request File
  create_activity : CreateActivityDto → Request File
  activities_by_crop : ℕ → Request File
  update_activity : UpdateActivityDto → ℕ → Request File
  delete_activity : ℕ → Request File
  upload_activity_photo : File → ℕ → Request File
  get_activity_photo : ℕ → Request File
  create_harvest : CreateHarvestDto → Request File
  harvest_by_crop : ℕ → Request File
  update_harvest : UpdateHarvestDto → ℕ → Request File
  delete_harvest : ℕ → Request File
  upload_harvest_image : File → ℕ → Request File
  get_harvest_image : ℕ → Request File

-- The field `data` of a reply.
pub data Reply (Data : Type 0) : Type 0 where
  done : Reply Data
  farm : Farm → Reply Data
  found_farm : Option Farm → Reply Data
  farms : List Farm → Reply Data
  crop : Crop → Reply Data
  crops : List Crop → Reply Data
  activity : Activity → Reply Data
  activities : List Activity → Reply Data
  harvest : Harvest → Reply Data
  harvests : List Harvest → Reply Data
  key : String → Reply Data
  image : Option Data → Reply Data

abbrev pub replied : {W X R : Type 0} → Action W X → (X → R) → Action W R
replied m f = m >>= λ x. pure (f x)

unfoldable pub handle :
    {F C A H O File Data : Type 0} (env : Env F C A H O File Data) (user : ℕ)
    → Request File
    → Action (World F C A H O) (Reply Data)
handle env user (Request.create_farm a) = replied (FarmsService.create_farm env user a) farm
handle env user Request.farms_by_user = replied (FarmsService.find_all_by_user_id env user) farms
handle env user (Request.update_farm a b) =
    replied (FarmsService.update_farm env user a b) found_farm
handle env user (Request.delete_farm a) = replied (FarmsService.delete_farm env user a) farm
handle env user (Request.upload_farm_image a b) =
    replied (FarmsService.upload_farm_image env a user b) key
handle env user (Request.get_farm_image a) = replied (FarmsService.get_farm_image env user a) image
handle env user (Request.create_crop a) = replied (Crops.create_crop env user a) crop
handle env user (Request.get_crop a) = replied (Crops.find_crop_by_id env user a) crop
handle env user (Request.crops_by_farm a) = replied (Crops.find_crops_by_farm_id env user a) crops
handle env user (Request.update_crop a b) = replied (Crops.update_crop env user a b) crop
handle env user (Request.delete_crop a) = replied (Crops.delete_crop env user a) (λ _. done)
handle env user (Request.upload_crop_photo a b) = replied (Crops.upload_crop_photo env a user b) key
handle env user (Request.get_crop_photo a) = replied (Crops.get_crop_photo env user a) image
handle env user (Request.create_activity a) =
    replied (Activities.create_activity env user a) activity
handle env user (Request.activities_by_crop a) =
    replied (Activities.find_activities_by_crop_id env user a) activities
handle env user (Request.update_activity a b) =
    replied (Activities.update_activity env user a b) activity
handle env user (Request.delete_activity a) =
    replied (Activities.delete_activity env user a) activity
handle env user (Request.upload_activity_photo a b) =
    replied (Activities.upload_activity_photo env a user b) key
handle env user (Request.get_activity_photo a) =
    replied (Activities.get_activity_photo env user a) image
handle env user (Request.create_harvest a) = replied (Harvests.create_harvest env user a) harvest
handle env user (Request.harvest_by_crop a) =
    replied (Harvests.find_harvest_by_crop_id env user a) harvests
handle env user (Request.update_harvest a b) =
    replied (Harvests.update_harvest env user a b) harvest
handle env user (Request.delete_harvest a) = replied (Harvests.delete_harvest env user a) harvest
handle env user (Request.upload_harvest_image a b) =
    replied (Harvests.upload_harvest_image env a user b) key
handle env user (Request.get_harvest_image a) =
    replied (Harvests.get_harvest_image env user a) image
