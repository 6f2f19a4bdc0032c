-- ===== src/Farms/Ownership.antt =====
-- apps/farms/src/ownership/ownership.service.ts: the chain from a resource to its owner. A relation
-- that `findOne` loads is the row that the foreign key names.
pub mod Laws
use harvestledger.Base.{ℕ, Bool, true, false, not, Option, none, some, ◌==◌, if◌then◌else◌}
use mathlib.Core.Option
use harvestledger.Http.{not_found, forbidden}
use harvestledger.Farms.{Farm, Crop, Activity, Harvest}
use harvestledger.Farms.World.{World, Env, Action, pure, throw_if, or_throw, ◌>>=◌, ◌>>◌}

-- `ownerId === undefined || ownerId !== userId`
unfoldable pub is_foreign : ℕ → Option ℕ → Bool
is_foreign user none = true
is_foreign user (some owner) = not (owner == user)

module _ {W : Type 0} where
  -- `OwnershipService.check`
  unfoldable pub check : ℕ → Option ℕ → Action W (Unit {0})
  unfolding is_foreign
  check user owner =
      throw_if (is_foreign user owner) (forbidden "You do not have access to this resource")

module _ {F C A H O File Data : Type 0} (env : Env F C A H O File Data) where
  -- `crop.farm`, `crop.farm?.userId` and `activity.crop?.farm?.userId`
  unfoldable pub farm_of : World F C A H O → Option ℕ → Option Farm
  farm_of w none = none
  farm_of w (some farm_id) = env.farms.find_one farm_id w.farms

  unfoldable pub crop_of : World F C A H O → Option ℕ → Option Crop
  crop_of w none = none
  crop_of w (some crop_id) = env.crops.find_one crop_id w.crops

  abbrev user_of : Option Farm → Option ℕ
  user_of none = none
  user_of (some farm) = some farm.user_id

  unfoldable pub crop_owner : World F C A H O → Crop → Option ℕ
  unfolding farm_of
  crop_owner w crop = user_of (farm_of w crop.farm_id)

  abbrev owner_under : World F C A H O → Option Crop → Option ℕ
  owner_under w none = none
  owner_under w (some crop) = crop_owner w crop

  unfoldable pub child_owner : World F C A H O → Option ℕ → Option ℕ
  unfolding crop_of crop_owner
  child_owner w crop_id = owner_under w (crop_of w crop_id)

  unfoldable pub assert_farm_owner : ℕ → ℕ → Action (World F C A H O) Farm
  unfolding check
  assert_farm_owner user farm_id w =
      (do
        farm ← or_throw (env.farms.find_one farm_id w.farms) (not_found "Farm not found")
        check user (some farm.user_id)
        pure farm)
        w

  unfoldable pub assert_crop_owner : ℕ → ℕ → Action (World F C A H O) Crop
  unfolding check crop_owner
  assert_crop_owner user crop_id w =
      (do
        crop ← or_throw (env.crops.find_one crop_id w.crops) (not_found "Crop not found")
        check user (crop_owner w crop)
        pure crop)
        w

  unfoldable pub assert_activity_owner : ℕ → ℕ → Action (World F C A H O) Activity
  unfolding check child_owner
  assert_activity_owner user activity_id w =
      (do
        activity ←
            or_throw (env.activities.find_one activity_id w.activities)
              (not_found "Activity not found")
        check user (child_owner w activity.crop_id)
        pure activity)
        w

  unfoldable pub assert_harvest_owner : ℕ → ℕ → Action (World F C A H O) Harvest
  unfolding check child_owner
  assert_harvest_owner user harvest_id w =
      (do
        harvest ←
            or_throw (env.harvests.find_one harvest_id w.harvests) (not_found "Harvest not found")
        check user (child_owner w harvest.crop_id)
        pure harvest)
        w
