-- ===== src/Farms/Samples.antt =====
-- A state of the farms service on tables in memory: a farm of user 7 with a crop, and another of
-- user 8.
use harvestledger.Base.{ℕ, pos, String, true, none, some, List, [], ◌∷◌}
use harvestledger.Store.{Bucket, body, no_such_key}
use harvestledger.Store.Memory.{memory, memory-IsTable}
use harvestledger.Farms.{
  Farm, Crop, Activity, Harvest, leased, CreateFarmDto, UpdateFarmDto, CreateCropDto,
  CreateHarvestDto,
}
use harvestledger.Farms.World.{World, Env}
use harvestledger.Farms.Controller.Isolation.Writes.{AreTables}

abbrev pub Rows : Type 0
Rows = World (List Farm) (List Crop) (List Activity) (List Harvest) (List String)

abbrev pub bucket : Bucket (List String) ℕ ℕ
bucket = record {
  upload = λ key file keys. (none, key ∷ keys);
  get_object = λ key keys. elim keys [ [] ↦ no_such_key | _ ∷ _ ↦ body 1 ];
}

abbrev pub env : Env (List Farm) (List Crop) (List Activity) (List Harvest) (List String) ℕ ℕ
env = record {
  farms = memory (λ f. f.id);
  crops = memory (λ c. c.id);
  activities = memory (λ a. a.id);
  harvests = memory (λ h. h.id);
  bucket = bucket;
  to_string = λ n. "1";
  outbox_accepts = λ w. true;
  commits = λ w. true;
  context = [];
}

pub env-AreTables : AreTables env
env-AreTables = record {
  farms = memory-IsTable (λ f. f.id);
  crops = memory-IsTable (λ c. c.id);
  activities = memory-IsTable (λ a. a.id);
  harvests = memory-IsTable (λ h. h.id);
}

abbrev pub farm_at : ℕ → String → ℕ → Farm
farm_at id name user = record {
  id = id;
  name = name;
  location = "north";
  photo = none;
  state = leased;
  area = pos 10;
  user_id = user;
}

abbrev pub maize : Crop
maize = record {
  id = 1;
  name = "maize";
  product = "corn";
  size = pos 4;
  location = "east field";
  photo = none;
  sowing_date = "2024-01-10";
  plants = pos 900;
  farm_id = some 1;
}

abbrev pub rows : Rows
rows = record {
  farms = farm_at 2 "Oak" 8 ∷ farm_at 1 "Elm" 7 ∷ [];
  crops = maize ∷ [];
  activities = [];
  harvests = [];
  outbox = [];
  outbox_seq = 1;
  objects = [];
}

abbrev pub new_maize : CreateCropDto
new_maize = record {
  name = "wheat";
  product = "grain";
  size = pos 2;
  location = "west field";
  sowing_date = "2024-03-01";
  plants = pos 500;
  farm_id = 1;
}

abbrev pub yield_dto : CreateHarvestDto
yield_dto = record {
  harvest_date = "2024-06-01";
  amount = pos 40;
  unit = "kg";
  category = "first";
  description = none;
  crop_id = 1;
}

abbrev pub new_elm : UpdateFarmDto
new_elm = record { name = some "Oak"; location = none; state = none; area = none }

abbrev pub ash : CreateFarmDto
ash = record { name = "Ash"; location = "south"; state = leased; area = pos 3 }
