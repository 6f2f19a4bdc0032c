-- ===== src/Gateway/Csv.antt =====
-- The CSV reports of apps/gateway/src/controllers/report.controller.ts: the rows that its loops add to
-- the worksheet, for the reports that the farms service returns.
pub mod Rows
pub mod Farmer
pub mod Bounds
mod Tests
use Prim.Native.String
use harvestledger.Base.{
  ℕ, ℤ, String, Bool, true, false, not, ◌&&◌, ◌||◌, Option, none, some, List, [], ◌∷◌, ◌++◌, map,
  is_filled, if◌then◌else◌,
}
use text.Mathlib.Text.{◌==◌ as str_eq}
use harvestledger.Farms.{Farm, FarmState, Crop, Activity, Harvest}
use harvestledger.Report.{CropReport, FarmReport, Group}

-- What a cell is given: the field of a row, or something that is no scalar. `missing` is undefined or
-- null.
pub data Cell : Type 0 where
  string : String → Cell
  integer : ℤ → Cell
  farm_state : FarmState → Cell
  structure : Cell
  missing : Cell

abbrev pub Cells : Type 0
Cells = List Cell

abbrev pub text_cell : Option String → Cell
text_cell none = missing
text_cell (some s) = string s

-- farm.name, …
abbrev pub farm_cells : Farm → Cells
farm_cells f = string f.name ∷ string f.location ∷ farm_state f.state ∷ integer f.area ∷ []

-- crop.name, …
abbrev pub crop_cells : Crop → Cells
crop_cells c =
    string c.name
    ∷ string c.product
    ∷ integer c.size
    ∷ string c.location
    ∷ string c.sowing_date
    ∷ integer c.plants
    ∷ []

-- activity.type, …
abbrev pub activity_cells : Activity → Cells
activity_cells a =
    text_cell a.type
    ∷ text_cell a.input_date
    ∷ text_cell a.title
    ∷ text_cell a.manufacture_location
    ∷ text_cell a.app_ratio
    ∷ text_cell a.app_method
    ∷ text_cell a.comment
    ∷ text_cell a.category
    ∷ text_cell a.bio_name
    ∷ text_cell a.bio_type
    ∷ []

-- The padding for the activity columns.
abbrev pub padding : Cells
padding =
    string ""
    ∷ string ""
    ∷ string ""
    ∷ string ""
    ∷ string ""
    ∷ string ""
    ∷ string ""
    ∷ string ""
    ∷ string ""
    ∷ string ""
    ∷ []

-- harvest.harvestDate, …
abbrev pub harvest_cells : Harvest → Cells
harvest_cells h =
    string h.harvest_date
    ∷ integer h.amount
    ∷ string h.unit
    ∷ string h.category
    ∷ text_cell h.description
    ∷ []

-- The columns of the farmer's report.
unfoldable pub columns : List String
columns =
    "Farm name" ∷ "Location" ∷ "Farm state" ∷ "Area" ∷ "Crop name" ∷ "Product" ∷ "Size" ∷ "Location"
    ∷ "Sowing date" ∷ "Plants" ∷ "Activity type" ∷ "Input date" ∷ "Title" ∷ "Manufacture location"
    ∷ "Application ratio" ∷ "Application method" ∷ "Comment" ∷ "Category" ∷ "Biological name"
    ∷ "Biological type" ∷ "Harvest date" ∷ "Amount" ∷ "Unit" ∷ "Category" ∷ "Description" ∷ []

-- The columns of the admin's report before those.
unfoldable pub owner_columns : List String
owner_columns =
    "First name" ∷ "Last name" ∷ "Email" ∷ "Gender" ∷ "Document type" ∷ "Document number"
    ∷ "Date of birth" ∷ "Country" ∷ "State" ∷ "City" ∷ "Role" ∷ []

-- The loop over the activities of a crop, and that over its harvests.
unfoldable pub activity_rows : Farm → Crop → List Activity → List Cells
activity_rows f c [] = []
activity_rows f c (a ∷ xs) =
    (farm_cells f ++ (crop_cells c ++ activity_cells a)) ∷ activity_rows f c xs

unfoldable pub harvest_rows : Farm → Crop → List Harvest → List Cells
harvest_rows f c [] = []
harvest_rows f c (h ∷ hs) =
    (farm_cells f ++ (crop_cells c ++ (padding ++ harvest_cells h))) ∷ harvest_rows f c hs

-- `!hasActivities && !hasHarvests`
abbrev pub bare_row : Farm → CropReport → List Cells
bare_row f r =
    if not (is_filled r.activities) && not (is_filled r.harvests)
    then (farm_cells f ++ crop_cells r.crop) ∷ []
    else []

-- The body of the loop over crops.
unfoldable pub crop_rows : Farm → CropReport → List Cells
unfolding activity_rows harvest_rows
crop_rows f r =
    activity_rows f r.crop r.activities ++ (harvest_rows f r.crop r.harvests ++ bare_row f r)

unfoldable pub crops_rows : Farm → List CropReport → List Cells
unfolding crop_rows
crops_rows f [] = []
crops_rows f (r ∷ rs) = crop_rows f r ++ crops_rows f rs

-- The body of the loop over farms.
unfoldable pub farm_rows : FarmReport → List Cells
unfolding crops_rows
farm_rows r = if is_filled r.crops then crops_rows r.farm r.crops else farm_cells r.farm ∷ []

-- The rows of `getFarmerReport`, with the columns first.
unfoldable pub farmer_rows : List FarmReport → List Cells
unfolding farm_rows
farmer_rows [] = []
farmer_rows (r ∷ rs) = farm_rows r ++ farmer_rows rs

unfoldable pub farmer_csv : List FarmReport → List Cells
unfolding farmer_rows columns
farmer_csv rs = map string columns ∷ farmer_rows rs

-- A field of an entry of the admin's report, an object with the fields `owner` and `farms`.
unfoldable pub field : String → Group → Cell
field name g =
    if str_eq name "owner" then structure else if str_eq name "farms" then structure else missing

-- `userData`
unfoldable pub user_data : Group → Cells
unfolding field
user_data g =
    field "firstName" g
    ∷ field "lastName" g
    ∷ field "email" g
    ∷ field "gender" g
    ∷ field "documentType" g
    ∷ field "documentNumber" g
    ∷ field "dateOfBirth" g
    ∷ field "country" g
    ∷ field "state" g
    ∷ field "city" g
    ∷ field "rol" g
    ∷ []

-- The same loops with `...userData` before the cells.
module _ (user : Cells) where
  unfoldable pub user_activity_rows : Farm → Crop → List Activity → List Cells
  user_activity_rows f c [] = []
  user_activity_rows f c (a ∷ xs) =
      (user ++ (farm_cells f ++ (crop_cells c ++ activity_cells a))) ∷ user_activity_rows f c xs

  unfoldable pub user_harvest_rows : Farm → Crop → List Harvest → List Cells
  user_harvest_rows f c [] = []
  user_harvest_rows f c (h ∷ hs) =
      (user ++ (farm_cells f ++ (crop_cells c ++ (padding ++ harvest_cells h))))
      ∷ user_harvest_rows f c hs

  abbrev pub user_bare_row : Farm → CropReport → List Cells
  user_bare_row f r =
      if not (is_filled r.activities) && not (is_filled r.harvests)
      then (user ++ (farm_cells f ++ crop_cells r.crop)) ∷ []
      else []

  unfoldable pub user_crop_rows : Farm → CropReport → List Cells
  unfolding user_activity_rows user_harvest_rows
  user_crop_rows f r =
      user_activity_rows f r.crop r.activities
      ++ (user_harvest_rows f r.crop r.harvests ++ user_bare_row f r)

  unfoldable pub user_crops_rows : Farm → List CropReport → List Cells
  unfolding user_crop_rows
  user_crops_rows f [] = []
  user_crops_rows f (r ∷ rs) = user_crop_rows f r ++ user_crops_rows f rs

  unfoldable pub user_farm_rows : FarmReport → List Cells
  unfolding user_crops_rows
  user_farm_rows r =
      if is_filled r.crops then user_crops_rows r.farm r.crops else (user ++ farm_cells r.farm) ∷ []

  unfoldable pub user_farms_rows : List FarmReport → List Cells
  unfolding user_farm_rows
  user_farms_rows [] = []
  user_farms_rows (r ∷ rs) = user_farm_rows r ++ user_farms_rows rs

-- The body of the loop over users.
unfoldable pub user_rows : Group → List Cells
unfolding user_farms_rows user_data
user_rows g = if is_filled g.farms then user_farms_rows (user_data g) g.farms else user_data g ∷ []

unfoldable pub users_rows : List Group → List Cells
unfolding user_rows
users_rows [] = []
users_rows (g ∷ gs) = user_rows g ++ users_rows gs

-- The rows of `getAdminReport`, with the columns first.
unfoldable pub admin_csv : List Group → List Cells
unfolding users_rows owner_columns columns
admin_csv gs = map string (owner_columns ++ columns) ∷ users_rows gs
