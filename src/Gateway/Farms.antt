-- ===== src/Gateway/Farms.antt =====
-- The routes to the farms service: farms.controller.ts, crops.controller.ts, activities.controller.ts
-- and harvests.controller.ts of apps/gateway/src/controllers.
use harvestledger.Base.{ℕ, String, Option}
use harvestledger.Http.Guards.{Chars}
use harvestledger.Effect.{Result, ok, Action}
use harvestledger.Farms.{
  CreateFarmDto, UpdateFarmDto, CreateCropDto, UpdateCropDto, CreateActivityDto, UpdateActivityDto,
  CreateHarvestDto, UpdateHarvestDto,
}
use harvestledger.Farms.World.{World, Env}
use harvestledger.Farms.Controller.{Request, Reply, handle}
use harvestledger.Gateway.{Pipes, max_size, both, mapped, Verify, guarded}

-- A request by its method and path, with its query, its parameters, its body and its file.
pub data FarmsRoute (Upload : Type 0) : Type 0 where
  post_farms : CreateFarmDto → FarmsRoute Upload
  get_farms : FarmsRoute Upload
  patch_farms : Option String → UpdateFarmDto → FarmsRoute Upload
  delete_farms : Option String → FarmsRoute Upload
  post_farms_photo : Option Upload → Option String → FarmsRoute Upload
  get_farms_photo : Option String → FarmsRoute Upload

pub data CropsRoute (Upload : Type 0) : Type 0 where
  post_crops : CreateCropDto → CropsRoute Upload
  get_crops : Option String → CropsRoute Upload
  patch_crops : Option String → UpdateCropDto → CropsRoute Upload
  get_crops_find_one : Option String → CropsRoute Upload
  delete_crops : Option String → CropsRoute Upload
  post_crops_photo : Option Upload → Option String → CropsRoute Upload
  get_crops_photo : Option String → CropsRoute Upload

pub data ActivitiesRoute (Upload : Type 0) : Type 0 where
  get_activities : Option String → ActivitiesRoute Upload
  post_activities : CreateActivityDto → ActivitiesRoute Upload
  patch_activities : Option String → UpdateActivityDto → ActivitiesRoute Upload
  delete_activities : Option String → ActivitiesRoute Upload
  post_activities_photo : Option Upload → Option String → ActivitiesRoute Upload
  get_activities_photo : Option String → ActivitiesRoute Upload

pub data HarvestsRoute (Upload : Type 0) : Type 0 where
  post_harvests : CreateHarvestDto → HarvestsRoute Upload
  get_harvests : Option String → HarvestsRoute Upload
  patch_harvests : Option String → UpdateHarvestDto → HarvestsRoute Upload
  delete_harvests : Option String → HarvestsRoute Upload
  post_harvests_photo : Option Upload → Option String → HarvestsRoute Upload
  get_harvests_photo : Option String → HarvestsRoute Upload

pub data Route (Upload : Type 0) : Type 0 where
  farms : FarmsRoute Upload → Route Upload
  crops : CropsRoute Upload → Route Upload
  activities : ActivitiesRoute Upload → Route Upload
  harvests : HarvestsRoute Upload → Route Upload

-- The `cmd` of the message, and its payload but the user's id.
pub record Message (File : Type 0) : Type 0 where
  pub cmd : String
  pub payload : Request File

abbrev message : {File : Type 0} → String → Request File → Message File
message cmd payload = record { cmd = cmd; payload = payload }

-- The `cmd` of the handler that serves a payload, by the decorators of apps/farms/src.
unfoldable pub pattern_of : {File : Type 0} → Request File → String
pattern_of (Request.create_farm _) = "farms"
pattern_of Request.farms_by_user = "farmsByUser"
pattern_of (Request.update_farm _ _) = "updateFarm"
pattern_of (Request.delete_farm _) = "deleteFarm"
pattern_of (Request.upload_farm_image _ _) = "farm-image"
pattern_of (Request.get_farm_image _) = "get-farm-image"
pattern_of (Request.create_crop _) = "crops"
pattern_of (Request.get_crop _) = "getCropById"
pattern_of (Request.crops_by_farm _) = "cropsByFarm"
pattern_of (Request.update_crop _ _) = "updateCrop"
pattern_of (Request.delete_crop _) = "deleteCrop"
pattern_of (Request.upload_crop_photo _ _) = "crop-photo"
pattern_of (Request.get_crop_photo _) = "get-crop-photo"
pattern_of (Request.create_activity _) = "activities"
pattern_of (Request.activities_by_crop _) = "activitiesByFarm"
pattern_of (Request.update_activity _ _) = "updateActivity"
pattern_of (Request.delete_activity _) = "deleteActivity"
pattern_of (Request.upload_activity_photo _ _) = "activity-photo"
pattern_of (Request.get_activity_photo _) = "get-activity-photo"
pattern_of (Request.create_harvest _) = "harvest"
pattern_of (Request.harvest_by_crop _) = "harvestByCrop"
pattern_of (Request.update_harvest _ _) = "updateHarvest"
pattern_of (Request.delete_harvest _) = "deleteHarvest"
pattern_of (Request.upload_harvest_image _ _) = "harvest-photo"
pattern_of (Request.get_harvest_image _) = "get-harvest-photo"

module _ {Upload File : Type 0} (pipes : Pipes Upload File) where
  abbrev image : Option Upload → Result File
  image = pipes.image max_size "image"

  -- A message about the row with the given id.
  abbrev by_id : String → (ℕ → Request File) → Option String → Result (Message File)
  by_id cmd payload id = mapped (λ k. message cmd (payload k)) (pipes.parse_int id)

  -- A message with a file and the id of a row.
  abbrev with_image :
      String → (File → ℕ → Request File) → Option Upload → Option String → Result (Message File)
  with_image cmd payload file id =
      both (image file) (pipes.parse_int id) (λ f k. message cmd (payload f k))

  -- The pipes of a route of farms.controller.ts and the message of its handler.
  unfoldable pub send_farms : FarmsRoute Upload → Result (Message File)
  send_farms (post_farms dto) = ok (message "farms" (Request.create_farm dto))
  send_farms get_farms = ok (message "farmsByUser" Request.farms_by_user)
  send_farms (patch_farms id dto) = by_id "updateFarm" (Request.update_farm dto) id
  send_farms (delete_farms id) = by_id "deleteFarm" Request.delete_farm id
  send_farms (post_farms_photo file id) = with_image "farm-image" Request.upload_farm_image file id
  send_farms (get_farms_photo id) = by_id "get-farm-image" Request.get_farm_image id

  -- The pipes of a route of crops.controller.ts and the message of its handler.
  unfoldable pub send_crops : CropsRoute Upload → Result (Message File)
  send_crops (post_crops dto) = ok (message "crops" (Request.create_crop dto))
  send_crops (get_crops id) = by_id "cropsByFarm" Request.crops_by_farm id
  send_crops (patch_crops id dto) = by_id "updateCrop" (Request.update_crop dto) id
  send_crops (get_crops_find_one id) = by_id "getCropById" Request.get_crop id
  send_crops (delete_crops id) = by_id "deleteCrop" Request.delete_crop id
  send_crops (post_crops_photo file id) = with_image "crop-photo" Request.upload_crop_photo file id
  send_crops (get_crops_photo id) = by_id "get-crop-photo" Request.get_crop_photo id

  -- The pipes of a route of activities.controller.ts and the message of its handler.
  unfoldable pub send_activities : ActivitiesRoute Upload → Result (Message File)
  send_activities (get_activities id) = by_id "activitiesByFarm" Request.activities_by_crop id
  send_activities (post_activities dto) = ok (message "activities" (Request.create_activity dto))
  send_activities (patch_activities id dto) =
      by_id "updateActivity" (Request.update_activity dto) id
  send_activities (delete_activities id) = by_id "deleteActivity" Request.delete_activity id
  send_activities (post_activities_photo file id) =
      with_image "activity-photo" Request.upload_activity_photo file id
  send_activities (get_activities_photo id) =
      by_id "get-activity-photo" Request.get_activity_photo id

  -- The pipes of a route of harvests.controller.ts and the message of its handler.
  unfoldable pub send_harvests : HarvestsRoute Upload → Result (Message File)
  send_harvests (post_harvests dto) = ok (message "harvest" (Request.create_harvest dto))
  send_harvests (get_harvests id) = by_id "harvestByCrop" Request.harvest_by_crop id
  send_harvests (patch_harvests id dto) = by_id "updateHarvest" (Request.update_harvest dto) id
  send_harvests (delete_harvests id) = by_id "deleteHarvest" Request.delete_harvest id
  send_harvests (post_harvests_photo file id) =
      with_image "harvest-photo" Request.upload_harvest_image file id
  send_harvests (get_harvests_photo id) = by_id "get-harvest-photo" Request.get_harvest_image id

  unfoldable pub send : Route Upload → Result (Message File)
  unfolding send_farms send_crops send_activities send_harvests
  send (farms r) = send_farms r
  send (crops r) = send_crops r
  send (activities r) = send_activities r
  send (harvests r) = send_harvests r

  -- A request up to the reply of the farms service.
  unfoldable pub serve :
      {F C A H O Data : Type 0} (env : Env F C A H O File Data) (verify : Verify)
      (header : Option Chars) (now : ℕ)
      → Route Upload
      → Action (World F C A H O) (Reply Data)
  unfolding guarded
  serve env verify header now route =
      guarded verify header now (send route) (λ user m. handle env user m.payload)
