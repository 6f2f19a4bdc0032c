-- ===== src/Farms.antt =====
-- The farms service, apps/farms/src, with the entities of libs/common/src/entities and the request
-- bodies of libs/common/src/dtos. Strings of a nullable column are `Option String`.
pub mod World
pub mod Ownership
pub mod Schema
pub mod Crops
pub mod Activities
pub mod Harvests
pub mod FarmsService
pub mod Creation
pub mod Controller
pub mod Samples
mod Tests
use harvestledger.Base.{ℕ, ℤ, String, Bool, Option, List}
use harvestledger.Outbox.{Carrier}

-- farms.entity.ts
pub data FarmState : Type 0 where
  ownnotmorgaged ownmorgaged leased : FarmState

pub record Farm : Type 0 where
  pub id : ℕ
  pub name : String
  pub location : String
  pub photo : Option String
  pub state : FarmState
  pub area : ℤ
  pub user_id : ℕ

-- crops.entity.ts; the relation `farm` is the column "farmId".
pub record Crop : Type 0 where
  pub id : ℕ
  pub name : String
  pub product : String
  pub size : ℤ
  pub location : String
  pub photo : Option String
  pub sowing_date : String
  pub plants : ℤ
  pub farm_id : Option ℕ

-- activities.entity.ts; the relation `crop` is the column "cropId".
pub record Activity : Type 0 where
  pub id : ℕ
  pub photo : Option String
  pub type : Option String
  pub input_date : Option String
  pub title : Option String
  pub manufacture_location : Option String
  pub app_ratio : Option String
  pub app_method : Option String
  pub comment : Option String
  pub category : Option String
  pub bio_name : Option String
  pub bio_type : Option String
  pub crop_id : Option ℕ

-- harvest.entity.ts
pub record Harvest : Type 0 where
  pub id : ℕ
  pub photo : Option String
  pub harvest_date : String
  pub amount : ℤ
  pub unit : String
  pub category : String
  pub description : Option String
  pub crop_id : Option ℕ

-- createFarmDto.dto.ts and updateFarmDto.dto.ts
pub record CreateFarmDto : Type 0 where
  pub name : String
  pub location : String
  pub state : FarmState
  pub area : ℤ

pub record UpdateFarmDto : Type 0 where
  pub name : Option String
  pub location : Option String
  pub state : Option FarmState
  pub area : Option ℤ

-- createCropDto.dto.ts and updateCropDto.dto.ts
pub record CreateCropDto : Type 0 where
  pub name : String
  pub product : String
  pub size : ℤ
  pub location : String
  pub sowing_date : String
  pub plants : ℤ
  pub farm_id : ℕ

pub record UpdateCropDto : Type 0 where
  pub name : Option String
  pub product : Option String
  pub size : Option ℤ
  pub location : Option String
  pub sowing_date : Option String
  pub plants : Option ℤ
  pub farm_id : Option ℕ

-- createActivityDto.dto.ts; of updateActivityDto.dto.ts only `cropId` becomes optional.
pub record ActivityData : Type 0 where
  pub type : Option String
  pub input_date : Option String
  pub title : Option String
  pub manufacture_location : Option String
  pub app_ratio : Option String
  pub app_method : Option String
  pub comment : Option String
  pub category : Option String
  pub bio_name : Option String
  pub bio_type : Option String

pub record CreateActivityDto : Type 0 where
  pub crop_id : ℕ
  pub rest : ActivityData

pub record UpdateActivityDto : Type 0 where
  pub crop_id : Option ℕ
  pub rest : ActivityData

-- createHarvestDto.dto.ts and updateHarvestsDto.dto.ts
pub record CreateHarvestDto : Type 0 where
  pub harvest_date : String
  pub amount : ℤ
  pub unit : String
  pub category : String
  pub description : Option String
  pub crop_id : ℕ

pub record UpdateHarvestDto : Type 0 where
  pub harvest_date : Option String
  pub amount : Option ℤ
  pub unit : Option String
  pub category : Option String
  pub description : Option String
  pub crop_id : Option ℕ

-- The JSON values of the events that the service enqueues; `undefined` is a missing one.
pub data Value : Type 0 where
  undefined : Value
  number : ℕ → Value
  crop : Crop → Value
  activity : Activity → Value
  harvest : Harvest → Value
  carrier : Carrier → Value

abbrev pub number_or_undefined : Option ℕ → Value
number_or_undefined Option.none = undefined
number_or_undefined (Option.some n) = number n
