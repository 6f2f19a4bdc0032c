-- ===== src/Gateway/Csv/Farmer.antt =====
-- Nothing of a farmer's report is lost, and no row is wider than the columns.
use harvestledger.Base.{
  ℕ, zero, suc, Bool, true, false, not, ◌&&◌, List, [], ◌∷◌, ◌++◌, map, length, keep, is_filled,
  ◌==◌, ◌≡◌, refl, sym, ap, ◌∙◌, arith, if◌then◌else◌,
}
use harvestledger.Farms.{Farm, Crop, Activity, Harvest}
use harvestledger.Report.{CropReport, FarmReport}
use harvestledger.Gateway.Csv.{
  Cells, farm_cells, crop_cells, activity_cells, harvest_cells, bare_row, activity_rows,
  harvest_rows, crop_rows, crops_rows, farm_rows, farmer_rows,
}
use harvestledger.Gateway.Csv.Rows.{map-append}

abbrev cells_from : ℕ → Cells → Cells
cells_from zero r = r
cells_from (suc n) [] = []
cells_from (suc n) (x ∷ r) = cells_from n r

-- Of the rows of the given width, the cells from a column on.
abbrev pub picked : ℕ → ℕ → List Cells → List Cells
picked width from rows = map (cells_from from) (keep (λ r. length r == width) rows)

keep-append :
    {A : Type 0} (p : A → Bool) (xs ys : List A) → keep p (xs ++ ys) ≡ keep p xs ++ keep p ys
keep-append p [] ys = refl
keep-append p (x ∷ xs) ys = ground (arith, keep-append p xs ys)

picked-append :
    (width from : ℕ) (xs ys : List Cells)
    → picked width from (xs ++ ys) ≡ picked width from xs ++ picked width from ys
picked-append width from xs ys =
    ap (λ rows. map (cells_from from) rows) (keep-append (λ r. length r == width) xs ys)
    ∙ map-append (cells_from from) (keep (λ r. length r == width) xs)
        (keep (λ r. length r == width) ys)

append-nil : {A : Type 0} (xs : List A) → xs ++ [] ≡ xs
append-nil [] = refl
append-nil (x ∷ xs) = ap (λ ys. x ∷ ys) (append-nil xs)

harvests-activity_rows :
    (f : Farm) (c : Crop) (xs : List Activity) → picked 25 20 (activity_rows f c xs) ≡ []
unfolding activity_rows
harvests-activity_rows f c [] = refl
harvests-activity_rows f c (a ∷ xs) = harvests-activity_rows f c xs

activities-activity_rows :
    (f : Farm) (c : Crop) (xs : List Activity)
    → picked 20 10 (activity_rows f c xs) ≡ map activity_cells xs
unfolding activity_rows
activities-activity_rows f c [] = refl
activities-activity_rows f c (a ∷ xs) =
    ap (λ rows. activity_cells a ∷ rows) (activities-activity_rows f c xs)

harvests-harvest_rows :
    (f : Farm) (c : Crop) (hs : List Harvest)
    → picked 25 20 (harvest_rows f c hs) ≡ map harvest_cells hs
unfolding harvest_rows
harvests-harvest_rows f c [] = refl
harvests-harvest_rows f c (h ∷ hs) =
    ap (λ rows. harvest_cells h ∷ rows) (harvests-harvest_rows f c hs)

activities-harvest_rows :
    (f : Farm) (c : Crop) (hs : List Harvest) → picked 20 10 (harvest_rows f c hs) ≡ []
unfolding harvest_rows
activities-harvest_rows f c [] = refl
activities-harvest_rows f c (h ∷ hs) = activities-harvest_rows f c hs

harvests-bare_row : (f : Farm) (r : CropReport) → picked 25 20 (bare_row f r) ≡ []
harvests-bare_row f r = go (not (is_filled r.activities) && not (is_filled r.harvests))
  where
    go : (b : Bool) → picked 25 20 (if b then (farm_cells f ++ crop_cells r.crop) ∷ [] else []) ≡ []
    go true = refl
    go false = refl

activities-bare_row : (f : Farm) (r : CropReport) → picked 20 10 (bare_row f r) ≡ []
activities-bare_row f r = go (not (is_filled r.activities) && not (is_filled r.harvests))
  where
    go : (b : Bool) → picked 20 10 (if b then (farm_cells f ++ crop_cells r.crop) ∷ [] else []) ≡ []
    go true = refl
    go false = refl

harvests-crop_rows :
    (f : Farm) (r : CropReport) → picked 25 20 (crop_rows f r) ≡ map harvest_cells r.harvests
unfolding crop_rows
harvests-crop_rows f r =
    picked-append 25 20 (activity_rows f r.crop r.activities)
      (harvest_rows f r.crop r.harvests ++ bare_row f r)
    ∙ ap (λ rows. rows ++ picked 25 20 (harvest_rows f r.crop r.harvests ++ bare_row f r))
        (harvests-activity_rows f r.crop r.activities)
    ∙ picked-append 25 20 (harvest_rows f r.crop r.harvests) (bare_row f r)
    ∙ ap (λ rows. picked 25 20 (harvest_rows f r.crop r.harvests) ++ rows) (harvests-bare_row f r)
    ∙ append-nil (picked 25 20 (harvest_rows f r.crop r.harvests))
    ∙ harvests-harvest_rows f r.crop r.harvests

activities-crop_rows :
    (f : Farm) (r : CropReport) → picked 20 10 (crop_rows f r) ≡ map activity_cells r.activities
unfolding crop_rows
activities-crop_rows f r =
    picked-append 20 10 (activity_rows f r.crop r.activities)
      (harvest_rows f r.crop r.harvests ++ bare_row f r)
    ∙ ap (λ rows. picked 20 10 (activity_rows f r.crop r.activities) ++ rows)
        (picked-append 20 10 (harvest_rows f r.crop r.harvests) (bare_row f r)
          ∙ ap (λ rows. rows ++ picked 20 10 (bare_row f r))
              (activities-harvest_rows f r.crop r.harvests)
          ∙ activities-bare_row f r)
    ∙ append-nil (picked 20 10 (activity_rows f r.crop r.activities))
    ∙ activities-activity_rows f r.crop r.activities

-- Something of each crop, of all crops.
abbrev pub gather : {X : Type 0} → (CropReport → List X) → List CropReport → List X
gather of_crop [] = []
gather of_crop (r ∷ rs) = of_crop r ++ gather of_crop rs

abbrev pub all_crops : List FarmReport → List CropReport
all_crops [] = []
all_crops (r ∷ rs) = r.crops ++ all_crops rs

append_assoc : {X : Type 0} (xs ys zs : List X) → (xs ++ ys) ++ zs ≡ xs ++ (ys ++ zs)
append_assoc [] ys zs = refl
append_assoc (x ∷ xs) ys zs = ap (λ l. x ∷ l) (append_assoc xs ys zs)

gather-append :
    {X : Type 0} (of_crop : CropReport → List X) (xs ys : List CropReport)
    → gather of_crop (xs ++ ys) ≡ gather of_crop xs ++ gather of_crop ys
gather-append of_crop [] ys = refl
gather-append of_crop (x ∷ xs) ys =
    ap (λ l. of_crop x ++ l) (gather-append of_crop xs ys)
    ∙ sym (append_assoc (of_crop x) (gather of_crop xs) (gather of_crop ys))

-- Rows of one width that show what each crop has show what all crops have.
module _ {X : Type 0} (width from : ℕ) (cells : X → Cells) (of_crop : CropReport → List X)
    (by_crop : (f : Farm) (r : CropReport)
      → picked width from (crop_rows f r) ≡ map cells (of_crop r))
    (by_farm : (f : Farm) → picked width from (farm_cells f ∷ []) ≡ []) where
  picked-crops_rows :
      (f : Farm) (rs : List CropReport)
      → picked width from (crops_rows f rs) ≡ map cells (gather of_crop rs)
  unfolding crops_rows
  picked-crops_rows f [] = refl
  picked-crops_rows f (r ∷ rs) =
      picked-append width from (crop_rows f r) (crops_rows f rs)
      ∙ ap (λ rows. rows ++ picked width from (crops_rows f rs)) (by_crop f r)
      ∙ ap (λ rows. map cells (of_crop r) ++ rows) (picked-crops_rows f rs)
      ∙ sym (map-append cells (of_crop r) (gather of_crop rs))

  picked-farm_rows :
      (r : FarmReport) → picked width from (farm_rows r) ≡ map cells (gather of_crop r.crops)
  unfolding farm_rows
  picked-farm_rows r = go r.crops
    where
      go :
          (rs : List CropReport)
          → picked width from
              (if is_filled rs then crops_rows r.farm rs else farm_cells r.farm ∷ [])
            ≡ map cells (gather of_crop rs)
      go [] = by_farm r.farm
      go (c ∷ cs) = picked-crops_rows r.farm (c ∷ cs)

  picked-farmer_rows :
      (rs : List FarmReport)
      → picked width from (farmer_rows rs) ≡ map cells (gather of_crop (all_crops rs))
  unfolding farmer_rows
  picked-farmer_rows [] = refl
  picked-farmer_rows (r ∷ rs) =
      picked-append width from (farm_rows r) (farmer_rows rs)
      ∙ ap (λ rows. rows ++ picked width from (farmer_rows rs)) (picked-farm_rows r)
      ∙ ap (λ rows. map cells (gather of_crop r.crops) ++ rows) (picked-farmer_rows rs)
      ∙ sym (map-append cells (gather of_crop r.crops) (gather of_crop (all_crops rs)))
      ∙ ap (map cells) (sym (gather-append of_crop r.crops (all_crops rs)))

-- The rows of a farmer's report that fill all 25 columns are those of the harvests of all farms and
-- crops, and the rows of 20 cells are those of the activities: each harvest and each activity of the
-- report stands in one row, in their order, in its own columns.
pub picked-farmer :
    (rs : List FarmReport)
    → (picked 25 20 (farmer_rows rs) ≡ map harvest_cells (gather (λ r. r.harvests) (all_crops rs)))
      × (picked 20 10 (farmer_rows rs)
          ≡ map activity_cells (gather (λ r. r.activities) (all_crops rs)))
picked-farmer rs = (
  picked-farmer_rows 25 20 harvest_cells (λ r. r.harvests) harvests-crop_rows (λ f. refl) rs,
  picked-farmer_rows 20 10 activity_cells (λ r. r.activities) activities-crop_rows (λ f. refl) rs,
)
