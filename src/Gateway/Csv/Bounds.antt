-- ===== src/Gateway/Csv/Bounds.antt =====
-- The size of a farmer's report: the width of its rows and their number.
use Prim.Native.Nat.{max}
use harvestledger.Base.{
  ℕ, suc, ◌+◌, ◌≤◌, Bool, true, false, not, ◌&&◌, List, [], ◌∷◌, ◌++◌, length, length-append, All,
  All-append, is_filled, ◌≡◌, refl, ap, ◌∙◌, arith, if◌then◌else◌,
}
use harvestledger.Farms.{Farm, Crop, Activity, Harvest}
use harvestledger.Report.{CropReport, FarmReport}
use harvestledger.Gateway.Csv.{
  Cells, farm_cells, crop_cells, columns, bare_row, activity_rows, harvest_rows, crop_rows,
  crops_rows, farm_rows, farmer_rows, farmer_csv,
}

-- No wider than the columns.
abbrev Fits : Cells → Type 0
Fits r = length r ≤ length columns

activity_rows-Fits : (f : Farm) (c : Crop) (xs : List Activity) → All Fits (activity_rows f c xs)
unfolding activity_rows columns
activity_rows-Fits f c [] = tt
activity_rows-Fits f c (a ∷ xs) = (omega arith, activity_rows-Fits f c xs)

harvest_rows-Fits : (f : Farm) (c : Crop) (hs : List Harvest) → All Fits (harvest_rows f c hs)
unfolding harvest_rows columns
harvest_rows-Fits f c [] = tt
harvest_rows-Fits f c (h ∷ hs) = (omega arith, harvest_rows-Fits f c hs)

bare_row-Fits : (f : Farm) (r : CropReport) → All Fits (bare_row f r)
unfolding columns
bare_row-Fits f r = go (not (is_filled r.activities) && not (is_filled r.harvests))
  where
    go : (b : Bool) → All Fits (if b then (farm_cells f ++ crop_cells r.crop) ∷ [] else [])
    go true = (omega arith, tt)
    go false = tt

crops_rows-Fits : (f : Farm) (rs : List CropReport) → All Fits (crops_rows f rs)
unfolding crops_rows crop_rows
crops_rows-Fits f [] = tt
crops_rows-Fits f (r ∷ rs) =
    All-append Fits (crop_rows f r) (crops_rows f rs)
      (All-append Fits (activity_rows f r.crop r.activities)
        (harvest_rows f r.crop r.harvests ++ bare_row f r)
        (activity_rows-Fits f r.crop r.activities)
        (All-append Fits (harvest_rows f r.crop r.harvests) (bare_row f r)
          (harvest_rows-Fits f r.crop r.harvests) (bare_row-Fits f r)))
      (crops_rows-Fits f rs)

farm_rows-Fits : (r : FarmReport) → All Fits (farm_rows r)
unfolding farm_rows columns
farm_rows-Fits r = go r.crops
  where
    go :
        (rs : List CropReport)
        → All Fits (if is_filled rs then crops_rows r.farm rs else farm_cells r.farm ∷ [])
    go [] = (omega arith, tt)
    go (c ∷ cs) = crops_rows-Fits r.farm (c ∷ cs)

farmer_rows-Fits : (rs : List FarmReport) → All Fits (farmer_rows rs)
unfolding farmer_rows
farmer_rows-Fits [] = tt
farmer_rows-Fits (r ∷ rs) =
    All-append Fits (farm_rows r) (farmer_rows rs) (farm_rows-Fits r) (farmer_rows-Fits rs)

-- The rows that a crop and a farm take: at least one.
abbrev pub crop_size : CropReport → ℕ
crop_size r = max 1 (length r.activities + length r.harvests)

abbrev pub crops_size : List CropReport → ℕ
crops_size [] = 0
crops_size (r ∷ rs) = crop_size r + crops_size rs

abbrev pub report_size : List FarmReport → ℕ
report_size [] = 0
report_size (r ∷ rs) = max 1 (crops_size r.crops) + report_size rs

length-activity_rows :
    (f : Farm) (c : Crop) (xs : List Activity) → length (activity_rows f c xs) ≡ length xs
unfolding activity_rows
length-activity_rows f c [] = refl
length-activity_rows f c (a ∷ xs) = ap suc (length-activity_rows f c xs)

length-harvest_rows :
    (f : Farm) (c : Crop) (hs : List Harvest) → length (harvest_rows f c hs) ≡ length hs
unfolding harvest_rows
length-harvest_rows f c [] = refl
length-harvest_rows f c (h ∷ hs) = ap suc (length-harvest_rows f c hs)

length-crop_rows : (f : Farm) (r : CropReport) → length (crop_rows f r) ≡ crop_size r
unfolding crop_rows
length-crop_rows f r =
    length-append (activity_rows f r.crop r.activities)
      (harvest_rows f r.crop r.harvests ++ bare_row f r)
    ∙ ap (λ n. length (activity_rows f r.crop r.activities) + n)
        (length-append (harvest_rows f r.crop r.harvests) (bare_row f r))
    ∙ ap (λ n. n + (length (harvest_rows f r.crop r.harvests) + length (bare_row f r)))
        (length-activity_rows f r.crop r.activities)
    ∙ ap (λ n. length r.activities + (n + length (bare_row f r)))
        (length-harvest_rows f r.crop r.harvests)
    ∙ go r.activities r.harvests
  where
    go :
        (xs : List Activity) (hs : List Harvest)
        → length xs
            + (length hs
                + length (
                    if not (is_filled xs) && not (is_filled hs)
                    then (farm_cells f ++ crop_cells r.crop) ∷ []
                    else []))
          ≡ max 1 (length xs + length hs)
    go [] [] = refl
    go [] (h ∷ hs) = omega arith
    go (x ∷ xs) [] = omega arith
    go (x ∷ xs) (h ∷ hs) = omega arith

length-crops_rows : (f : Farm) (rs : List CropReport) → length (crops_rows f rs) ≡ crops_size rs
unfolding crops_rows
length-crops_rows f [] = refl
length-crops_rows f (r ∷ rs) = omega (
  arith,
  length-append (crop_rows f r) (crops_rows f rs),
  length-crop_rows f r,
  length-crops_rows f rs,
)

length-farm_rows : (r : FarmReport) → length (farm_rows r) ≡ max 1 (crops_size r.crops)
unfolding farm_rows
length-farm_rows r = go r.crops
  where
    go :
        (rs : List CropReport)
        → length (if is_filled rs then crops_rows r.farm rs else farm_cells r.farm ∷ [])
          ≡ max 1 (crops_size rs)
    go [] = refl
    go (c ∷ cs) = omega (arith, length-crops_rows r.farm (c ∷ cs))

length-farmer_rows : (rs : List FarmReport) → length (farmer_rows rs) ≡ report_size rs
unfolding farmer_rows
length-farmer_rows [] = refl
length-farmer_rows (r ∷ rs) =
    omega (
      arith,
      length-append (farm_rows r) (farmer_rows rs),
      length-farm_rows r,
      length-farmer_rows rs,
    )

-- The report of a farmer has one row for the columns, and then one for each activity and each harvest,
-- where a crop with neither and a farm with no crop take one row; and no row is wider than the columns.
pub farmer_csv-Fits :
    (rs : List FarmReport)
    → (length (farmer_csv rs) ≡ suc (report_size rs))
      × All (λ r. length r ≤ length columns) (farmer_csv rs)
unfolding farmer_csv columns
farmer_csv-Fits rs = (ap suc (length-farmer_rows rs), (omega arith, farmer_rows-Fits rs))
