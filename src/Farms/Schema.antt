-- ===== src/Farms/Schema.antt =====
-- The writes to the tables, with the constraints that
-- apps/farms/src/db/migrations/1785100000000-FarmsInitialSchema.ts declares: a farm's name is unique
-- per user, and a foreign key with NO ACTION refuses a missing parent and the removal of a parent.
use harvestledger.Base.{
  ℕ, String, Bool, false, not, ◌&&◌, ◌||◌, Option, none, some, ◌==◌, if◌then◌else◌, is_some,
}
pub use harvestledger.Base.{is_filled}
use text.Mathlib.Text.{◌==◌ as str_eq}
use harvestledger.Farms.{Farm, Crop, Activity, Harvest}
use harvestledger.Farms.World.{World, Env, Action, Result, ok, err, query_failed}

abbrev pub is_id : ℕ → Option ℕ → Bool
is_id k none = false
is_id k (some j) = j == k

module _ {F C A H O File Data : Type 0} (env : Env F C A H O File Data) where
  abbrev inserted :
      {S X : Type 0}
      → Option (X × S)
      → (S → World F C A H O)
      → World F C A H O
      → Result X × World F C A H O
  inserted none put w = (err query_failed, w)
  inserted (some (x, s)) put w = (ok x, put s)

  abbrev written :
      {S : Type 0}
      → Option S
      → (S → World F C A H O)
      → World F C A H O
      → Result (Unit {0}) × World F C A H O
  written none put w = (err query_failed, w)
  written (some s) put w = (ok tt, put s)

  -- UNIQUE ("name", "userId")
  abbrev same_name : String → ℕ → Farm → Bool
  same_name name user f = str_eq f.name name && f.user_id == user

  unfoldable pub insert_farm : (ℕ → Farm) → Action (World F C A H O) Farm
  insert_farm mk w =
      if is_filled (env.farms.find (same_name (mk 0).name (mk 0).user_id) w.farms)
      then (err query_failed, w)
      else inserted (env.farms.insert mk w.farms) (λ s. record w { farms = s }) w

  unfoldable pub save_farm : Farm → Action (World F C A H O) (Unit {0})
  save_farm f w = written (env.farms.save f w.farms) (λ s. record w { farms = s }) w

  -- `change` leaves "id" and "userId" alone; `name` is the new name, if one is set.
  abbrev pub renamed : ℕ → Option String → Farm → Bool
  renamed id none f = false
  renamed id (some name) f = str_eq f.name name && not (f.id == id)

  unfoldable pub update_farm_row :
      ℕ → ℕ → Option String → (Farm → Farm) → Action (World F C A H O) (Unit {0})
  update_farm_row user id name change w =
      if is_filled (env.farms.find (λ f. renamed id name f && f.user_id == user) w.farms)
      then (err query_failed, w)
      else written (env.farms.update id change w.farms) (λ s. record w { farms = s }) w

  -- FOREIGN KEY crops("farmId")
  unfoldable pub remove_farm : Farm → Action (World F C A H O) (Unit {0})
  remove_farm f w =
      if is_filled (env.crops.find (λ c. is_id f.id c.farm_id) w.crops)
      then (err query_failed, w)
      else written (env.farms.remove f w.farms) (λ s. record w { farms = s }) w

  unfoldable pub insert_crop : ℕ → (ℕ → Crop) → Action (World F C A H O) Crop
  insert_crop farm_id mk w =
      if is_some (env.farms.find_one farm_id w.farms)
      then inserted (env.crops.insert mk w.crops) (λ s. record w { crops = s }) w
      else (err query_failed, w)

  unfoldable pub save_crop : Crop → Action (World F C A H O) (Unit {0})
  save_crop c w = written (env.crops.save c w.crops) (λ s. record w { crops = s }) w

  -- FOREIGN KEY activities("cropId"), harvests("cropId")
  unfoldable pub remove_crop : Crop → Action (World F C A H O) (Unit {0})
  remove_crop c w =
      if is_filled (env.activities.find (λ a. is_id c.id a.crop_id) w.activities)
        || is_filled (env.harvests.find (λ h. is_id c.id h.crop_id) w.harvests)
      then (err query_failed, w)
      else written (env.crops.remove c w.crops) (λ s. record w { crops = s }) w

  unfoldable pub insert_activity : ℕ → (ℕ → Activity) → Action (World F C A H O) Activity
  insert_activity crop_id mk w =
      if is_some (env.crops.find_one crop_id w.crops)
      then inserted (env.activities.insert mk w.activities) (λ s. record w { activities = s }) w
      else (err query_failed, w)

  unfoldable pub save_activity : Activity → Action (World F C A H O) (Unit {0})
  save_activity a w =
      written (env.activities.save a w.activities) (λ s. record w { activities = s }) w

  unfoldable pub remove_activity : Activity → Action (World F C A H O) (Unit {0})
  remove_activity a w =
      written (env.activities.remove a w.activities) (λ s. record w { activities = s }) w

  unfoldable pub insert_harvest : ℕ → (ℕ → Harvest) → Action (World F C A H O) Harvest
  insert_harvest crop_id mk w =
      if is_some (env.crops.find_one crop_id w.crops)
      then inserted (env.harvests.insert mk w.harvests) (λ s. record w { harvests = s }) w
      else (err query_failed, w)

  unfoldable pub save_harvest : Harvest → Action (World F C A H O) (Unit {0})
  save_harvest h w = written (env.harvests.save h w.harvests) (λ s. record w { harvests = s }) w

  unfoldable pub remove_harvest : Harvest → Action (World F C A H O) (Unit {0})
  remove_harvest h w = written (env.harvests.remove h w.harvests) (λ s. record w { harvests = s }) w
