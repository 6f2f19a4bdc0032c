-- ===== src/Gateway/Csv/Tests.antt =====
-- The reports of a farm with a crop, and of one with none.
use harvestledger.Base.{◌≤◌, pos, none, some, List, [], ◌∷◌, ◌++◌, map, length, All, ◌≡◌}
use harvestledger.Farms.{Harvest}
use harvestledger.Farms.Samples.{farm_at, maize}
use harvestledger.Report.{FarmReport, Group, unknown}
use harvestledger.Gateway.Csv.{
  string, activity_cells, harvest_cells, columns, owner_columns, farmer_rows, farmer_csv, admin_csv,
}
use harvestledger.Gateway.Csv.Rows.{entries, admin_csv-entries}
use harvestledger.Gateway.Csv.Farmer.{picked, picked-farmer}
use harvestledger.Gateway.Csv.Bounds.{farmer_csv-Fits}

abbrev yield : Harvest
yield = record {
  id = 1;
  photo = none;
  harvest_date = "2024-06-01";
  amount = pos 40;
  unit = "kg";
  category = "first";
  description = none;
  crop_id = some 1;
}

abbrev farms : List FarmReport
farms =
    record {
      farm = farm_at 1 "Elm" 7;
      crops = record { crop = maize; activities = []; harvests = yield ∷ [] } ∷ [];
    }
    ∷ record { farm = farm_at 3 "Oak" 7; crops = [] }
    ∷ []

abbrev groups : List Group
groups = record { user_id = 7; owner = unknown 7; farms = farms } ∷ []

admin_csv-entries_example :
    admin_csv groups ≡ map string (owner_columns ++ columns) ∷ entries groups
admin_csv-entries_example = admin_csv-entries groups

picked-farmer_example :
    (picked 25 20 (farmer_rows farms) ≡ map harvest_cells (yield ∷ []))
    × (picked 20 10 (farmer_rows farms) ≡ map activity_cells [])
picked-farmer_example = picked-farmer farms

farmer_csv-Fits_example :
    (length (farmer_csv farms) ≡ 3) × All (λ r. length r ≤ length columns) (farmer_csv farms)
farmer_csv-Fits_example = farmer_csv-Fits farms
