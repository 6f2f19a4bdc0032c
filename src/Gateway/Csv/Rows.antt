-- ===== src/Gateway/Csv/Rows.antt =====
-- What the CSV reports hold.
use harvestledger.Base.{
  Bool, true, false, not, ◌&&◌, List, [], ◌∷◌, ◌++◌, map, is_filled, ◌≡◌, refl, ap, if◌then◌else◌,
}
use harvestledger.Farms.{Farm, Crop, Activity, Harvest}
use harvestledger.Report.{CropReport, FarmReport, Group}
use harvestledger.Gateway.Csv.{
  Cells, string, missing, farm_cells, crop_cells, activity_cells, padding, harvest_cells, columns,
  owner_columns, bare_row, user_bare_row, activity_rows, harvest_rows, crop_rows, crops_rows,
  farm_rows, farmer_rows, user_activity_rows, user_harvest_rows, user_crop_rows, user_crops_rows,
  user_farm_rows, user_farms_rows, users_rows, admin_csv,
}

pub map-append :
    {A B : Type 0} (f : A → B) (xs ys : List A) → map f (xs ++ ys) ≡ map f xs ++ map f ys
map-append f [] ys = refl
map-append f (x ∷ xs) ys = ap (λ zs. f x ∷ zs) (map-append f xs ys)

-- The rows with some cells before them.
abbrev before : Cells → List Cells → List Cells
before user rows = map (λ r. user ++ r) rows

module _ (user : Cells) where
  user_activity_rows_lem :
      (f : Farm) (c : Crop) (xs : List Activity)
      → user_activity_rows user f c xs ≡ before user (activity_rows f c xs)
  unfolding user_activity_rows activity_rows
  user_activity_rows_lem f c [] = refl
  user_activity_rows_lem f c (a ∷ xs) =
      ap (λ rows. (user ++ (farm_cells f ++ (crop_cells c ++ activity_cells a))) ∷ rows)
        (user_activity_rows_lem f c xs)

  user_harvest_rows_lem :
      (f : Farm) (c : Crop) (hs : List Harvest)
      → user_harvest_rows user f c hs ≡ before user (harvest_rows f c hs)
  unfolding user_harvest_rows harvest_rows
  user_harvest_rows_lem f c [] = refl
  user_harvest_rows_lem f c (h ∷ hs) =
      ap (λ rows. (user ++ (farm_cells f ++ (crop_cells c ++ (padding ++ harvest_cells h)))) ∷ rows)
        (user_harvest_rows_lem f c hs)

  if_before :
      (b : Bool) (x y : List Cells)
      → (if b then before user x else before user y) ≡ before user (if b then x else y)
  if_before true x y = refl
  if_before false x y = refl

  user_bare_row_lem :
      (f : Farm) (r : CropReport) → user_bare_row user f r ≡ before user (bare_row f r)
  user_bare_row_lem f r =
      if_before (not (is_filled r.activities) && not (is_filled r.harvests))
        ((farm_cells f ++ crop_cells r.crop) ∷ []) []

  user_crop_rows_lem :
      (f : Farm) (r : CropReport) → user_crop_rows user f r ≡ before user (crop_rows f r)
  unfolding user_crop_rows crop_rows
  user_crop_rows_lem f r = rw (
    user_activity_rows_lem f r.crop r.activities,
    user_harvest_rows_lem f r.crop r.harvests,
    user_bare_row_lem f r,
    map-append (λ x. user ++ x) (activity_rows f r.crop r.activities)
        (harvest_rows f r.crop r.harvests ++ bare_row f r),
    map-append (λ x. user ++ x) (harvest_rows f r.crop r.harvests) (bare_row f r),
  )

  user_crops_rows_lem :
      (f : Farm) (rs : List CropReport) → user_crops_rows user f rs ≡ before user (crops_rows f rs)
  unfolding user_crops_rows crops_rows
  user_crops_rows_lem f [] = refl
  user_crops_rows_lem f (r ∷ rs) = rw (
    user_crop_rows_lem f r,
    user_crops_rows_lem f rs,
    map-append (λ x. user ++ x) (crop_rows f r) (crops_rows f rs),
  )

  user_farm_rows_lem : (r : FarmReport) → user_farm_rows user r ≡ before user (farm_rows r)
  unfolding user_farm_rows farm_rows
  user_farm_rows_lem r = rw (
    user_crops_rows_lem r.farm r.crops,
    if_before (is_filled r.crops) (crops_rows r.farm r.crops) (farm_cells r.farm ∷ []),
  )

  user_farms_rows_lem :
      (rs : List FarmReport) → user_farms_rows user rs ≡ before user (farmer_rows rs)
  unfolding user_farms_rows farmer_rows
  user_farms_rows_lem [] = refl
  user_farms_rows_lem (r ∷ rs) = rw (
    user_farm_rows_lem r,
    user_farms_rows_lem rs,
    map-append (λ x. user ++ x) (farm_rows r) (farmer_rows rs),
  )

-- Eleven cells with nothing in them.
abbrev pub blanks : Cells
blanks =
    missing ∷ missing ∷ missing ∷ missing ∷ missing ∷ missing ∷ missing ∷ missing ∷ missing
    ∷ missing ∷ missing ∷ []

-- The rows of an entry, by the report of a farmer.
unfoldable pub entries : List Group → List Cells
entries [] = []
entries (g ∷ gs) =
    (if is_filled g.farms then map (λ r. blanks ++ r) (farmer_rows g.farms) else blanks ∷ [])
    ++ entries gs

-- The report of the admin is made of the reports that the farmers get, entry by entry, each row after
-- eleven cells for the owner; and these cells are always blank, whoever the owner is.
pub admin_csv-entries :
    (gs : List Group) → admin_csv gs ≡ map string (owner_columns ++ columns) ∷ entries gs
unfolding admin_csv entries
admin_csv-entries gs = ap (λ rows. map string (owner_columns ++ columns) ∷ rows) (go gs)
  where
    go : (gs : List Group) → users_rows gs ≡ entries gs
    go [] = refl
    go (g ∷ gs) = rw (user_farms_rows_lem blanks g.farms, go gs)
