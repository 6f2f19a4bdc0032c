-- ===== src/Farms/Activities.antt =====
-- apps/farms/src/activities/activities.service.ts. A reply is its field `data`; its texts are left out.
use Prim.Native.String
use harvestledger.Base.{ℕ, String, Option, none, some, List, [], ◌∷◌}
use harvestledger.Farms.{
  Crop, Activity, CreateActivityDto, UpdateActivityDto, number, number_or_undefined, activity,
}
use harvestledger.Farms.World.{
  World, Env, Action, pure, ◌>>=◌, ◌>>◌, transaction, enqueue_event, upload_file, fetch,
}
use harvestledger.Farms.Ownership.{assert_crop_owner, assert_activity_owner, crop_owner}
use harvestledger.Farms.Schema.{insert_activity, save_activity, remove_activity, is_id}

-- `manager.create(ActivitiesEntity, { ...activityData, crop: { id: cropId } })`
unfoldable pub new_activity : CreateActivityDto → ℕ → Activity
new_activity dto id = record {
  id = id;
  photo = none;
  type = dto.rest.type;
  input_date = dto.rest.input_date;
  title = dto.rest.title;
  manufacture_location = dto.rest.manufacture_location;
  app_ratio = dto.rest.app_ratio;
  app_method = dto.rest.app_method;
  comment = dto.rest.comment;
  category = dto.rest.category;
  bio_name = dto.rest.bio_name;
  bio_type = dto.rest.bio_type;
  crop_id = some dto.crop_id;
}

-- A property of the body, where it has it.
abbrev set_text : Option String → Option String → Option String
set_text none old = old
set_text (some new) old = some new

-- `Object.assign(activity, updateActivityDto)`. The body's `cropId` becomes a property that is no
-- column: the relation is not changed by it.
unfoldable pub assign_activity : UpdateActivityDto → Activity → Activity
assign_activity dto a = record a {
  type = set_text dto.rest.type a.type;
  input_date = set_text dto.rest.input_date a.input_date;
  title = set_text dto.rest.title a.title;
  manufacture_location = set_text dto.rest.manufacture_location a.manufacture_location;
  app_ratio = set_text dto.rest.app_ratio a.app_ratio;
  app_method = set_text dto.rest.app_method a.app_method;
  comment = set_text dto.rest.comment a.comment;
  category = set_text dto.rest.category a.category;
  bio_name = set_text dto.rest.bio_name a.bio_name;
  bio_type = set_text dto.rest.bio_type a.bio_type;
}

module _ {F C A H O File Data : Type 0} (env : Env F C A H O File Data) where
  -- The callback of the transaction in `createActivity`: `crop.farm?.id` is the crop's foreign key,
  -- and `crop.farm?.userId` its owner, at the time of the check.
  unfoldable pub save_new_activity :
      Crop → Option ℕ → CreateActivityDto → Action (World F C A H O) Activity
  unfolding new_activity
  save_new_activity crop owner dto = do
    saved ← insert_activity env dto.crop_id (new_activity dto)
    enqueue_event env "activity.created" (
        ("cropId", number dto.crop_id)
        ∷ ("farmId", number_or_undefined crop.farm_id)
        ∷ ("userId", number_or_undefined owner)
        ∷ ("payload", activity saved)
        ∷ [])
    pure saved

  unfoldable pub create_activity : ℕ → CreateActivityDto → Action (World F C A H O) Activity
  unfolding save_new_activity
  create_activity user dto w =
      (do
        crop ← assert_crop_owner env user dto.crop_id
        transaction env (save_new_activity crop (crop_owner env w crop) dto))
        w

  unfoldable pub find_activities_by_crop_id : ℕ → ℕ → Action (World F C A H O) (List Activity)
  find_activities_by_crop_id user crop_id = do
    _ ← assert_crop_owner env user crop_id
    λ w. pure (env.activities.find (λ a. is_id crop_id a.crop_id) w.activities) w

  unfoldable pub update_activity : ℕ → UpdateActivityDto → ℕ → Action (World F C A H O) Activity
  unfolding assign_activity
  update_activity user dto activity_id = do
    a ← assert_activity_owner env user activity_id
    save_activity env (assign_activity dto a)
    pure (assign_activity dto a)

  unfoldable pub delete_activity : ℕ → ℕ → Action (World F C A H O) Activity
  delete_activity user activity_id = do
    a ← assert_activity_owner env user activity_id
    remove_activity env a
    pure a

  -- `activity-${activityId}-user-${userId}`
  unfoldable pub activity_photo_key : ℕ → ℕ → String
  activity_photo_key activity_id user =
      String.◌++◌ "activity-"
        (String.◌++◌ (env.to_string activity_id) (String.◌++◌ "-user-" (env.to_string user)))

  unfoldable pub upload_activity_photo : File → ℕ → ℕ → Action (World F C A H O) String
  unfolding activity_photo_key
  upload_activity_photo file user activity_id = do
    a ← assert_activity_owner env user activity_id
    key ← upload_file env file (activity_photo_key activity_id user)
    save_activity env (record a { photo = some key })
    pure key

  unfoldable pub get_activity_photo : ℕ → ℕ → Action (World F C A H O) (Option Data)
  unfolding fetch
  get_activity_photo user activity_id = do
    a ← assert_activity_owner env user activity_id
    fetch env a.photo "Activity photo not found"
