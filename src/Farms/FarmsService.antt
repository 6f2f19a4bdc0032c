-- ===== src/Farms/FarmsService.antt =====
-- apps/farms/src/farms/farms.service.ts. A reply is its field `data`; its texts are left out.
pub mod Names
use Prim.Native.String
use harvestledger.Base.{
  ℕ, String, Bool, true, false, not, ◌&&◌, Option, none, some, List, or_else, ◌==◌,
}
use text.Mathlib.Text.{◌==◌ as str_eq}
use harvestledger.Http.{conflict}
use harvestledger.Farms.{Farm, CreateFarmDto, UpdateFarmDto}
use harvestledger.Farms.World.{
  World, Env, Action, pure, throw_if, ◌>>=◌, ◌>>◌, present, upload_file, fetch,
}
use harvestledger.Farms.Ownership.{assert_farm_owner}
use harvestledger.Farms.Schema.{insert_farm, save_farm, update_farm_row, remove_farm, is_filled}

-- `farmsRepository.create({ ...createFarmDto, userId })`
unfoldable pub new_farm : ℕ → CreateFarmDto → ℕ → Farm
new_farm user dto id = record {
  id = id;
  name = dto.name;
  location = dto.location;
  photo = none;
  state = dto.state;
  area = dto.area;
  user_id = user;
}

-- The columns that `update(farmId, updateFarmDto)` sets.
unfoldable pub set_farm : UpdateFarmDto → Farm → Farm
set_farm dto f = record f {
  name = or_else dto.name f.name;
  location = or_else dto.location f.location;
  state = or_else dto.state f.state;
  area = or_else dto.area f.area;
}

-- `where: { name: Equal(name), userId: Equal(userId) }`
abbrev pub is_named : String → ℕ → Farm → Bool
is_named name user f = str_eq f.name name && f.user_id == user

module _ {F C A H O File Data : Type 0} (env : Env F C A H O File Data) where
  -- The user's farms of a given name.
  abbrev pub named : String → ℕ → World F C A H O → List Farm
  named name user w = env.farms.find (is_named name user) w.farms

  unfoldable pub create_farm : ℕ → CreateFarmDto → Action (World F C A H O) Farm
  unfolding new_farm
  create_farm user dto w =
      (do
        throw_if (is_filled (named dto.name user w)) (conflict "Farm already exists")
        insert_farm env (new_farm user dto))
        w

  unfoldable pub find_all_by_user_id : ℕ → Action (World F C A H O) (List Farm)
  find_all_by_user_id user w = pure (env.farms.find (λ f. f.user_id == user) w.farms) w

  -- The check on `updateFarmDto.name`: `name: Equal(…), id: Not(Equal(farmId))`.
  unfoldable pub is_name_taken : ℕ → Option String → World F C A H O → Bool
  is_name_taken farm_id none w = false
  is_name_taken farm_id (some name) w =
      is_filled (env.farms.find (λ f. str_eq f.name name && not (f.id == farm_id)) w.farms)

  -- The reply holds the row as it is read back after the update.
  unfoldable pub update_farm : ℕ → UpdateFarmDto → ℕ → Action (World F C A H O) (Option Farm)
  unfolding is_name_taken set_farm present
  update_farm user dto farm_id w =
      (do
        _ ← assert_farm_owner env user farm_id
        throw_if (is_name_taken farm_id (present dto.name) w) (conflict "Farm name already exists")
        update_farm_row env user farm_id dto.name (set_farm dto)
        λ w'. pure (env.farms.find_one farm_id w'.farms) w')
        w

  unfoldable pub delete_farm : ℕ → ℕ → Action (World F C A H O) Farm
  delete_farm user farm_id = do f ← assert_farm_owner env user farm_id; remove_farm env f; pure f

  -- `farm-${farmId}-user-${userId}`
  unfoldable pub farm_photo_key : ℕ → ℕ → String
  farm_photo_key farm_id user =
      String.◌++◌ "farm-"
        (String.◌++◌ (env.to_string farm_id) (String.◌++◌ "-user-" (env.to_string user)))

  unfoldable pub upload_farm_image : File → ℕ → ℕ → Action (World F C A H O) String
  unfolding farm_photo_key
  upload_farm_image file user farm_id = do
    f ← assert_farm_owner env user farm_id
    key ← upload_file env file (farm_photo_key farm_id user)
    save_farm env (record f { photo = some key })
    pure key

  unfoldable pub get_farm_image : ℕ → ℕ → Action (World F C A H O) (Option Data)
  unfolding fetch
  get_farm_image user farm_id = do
    f ← assert_farm_owner env user farm_id
    fetch env f.photo "Farm photo not found"
