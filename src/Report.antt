-- ===== src/Report.antt =====
-- apps/farms/src/report/report.service.ts and report.controller.ts.
pub mod Groups
pub mod Cached
mod Tests
use Prim.Native.String
use harvestledger.Base.{
  ℕ, String, Bool, true, false, not, Option, none, some, List, [], ◌∷◌, ◌++◌, map, keep, or_else,
  ◌==◌, if◌then◌else◌,
}
use harvestledger.Base.Assoc.{lookup, insert}
use text.Mathlib.Text.{◌==◌ as str_eq}
use harvestledger.Http.{forbidden}
use harvestledger.Farms.{Farm, Crop, Activity, Harvest}
use harvestledger.Farms.World.{Result, ok, err, Action, present}
use harvestledger.UserProjection.{Projection, find_user}

-- A farm with FARM_REPORT_RELATIONS loaded.
pub record CropTree : Type 0 where
  pub crop : Crop
  pub activities : Option (List Activity)
  pub harvest : Option (List Harvest)

pub record FarmTree : Type 0 where
  pub farm : Farm
  pub crops : Option (List CropTree)

pub record CropReport : Type 0 where
  pub crop : Crop
  pub activities : List Activity
  pub harvests : List Harvest

pub record FarmReport : Type 0 where
  pub farm : Farm
  pub crops : List CropReport

abbrev shape_crop : CropTree → CropReport
shape_crop t = record {
  crop = t.crop;
  activities = or_else t.activities [];
  harvests = or_else t.harvest [];
}

-- `shapeFarm`
unfoldable pub shape_farm : FarmTree → FarmReport
shape_farm t = record { farm = t.farm; crops = map shape_crop (or_else t.crops []) }

pub data OwnerSummary : Type 0 where
  known : Projection → OwnerSummary
  unknown : ℕ → OwnerSummary

-- An entry of the map `byOwner`, with its key.
pub record Group : Type 0 where
  pub user_id : ℕ
  pub owner : OwnerSummary
  pub farms : List FarmReport

abbrev pub summary : ℕ → Option Projection → OwnerSummary
summary k none = unknown k
summary k (some p) = known p

module _ (owner_by_id : List Projection) where
  -- The body of the loop of `groupByOwner`: a map keeps its entries in the order of insertion.
  unfoldable pub add_farm : FarmTree → List Group → List Group
  unfolding shape_farm
  add_farm t [] =
      record {
        user_id = t.farm.user_id;
        owner = summary t.farm.user_id (find_user t.farm.user_id owner_by_id);
        farms = shape_farm t ∷ [];
      }
      ∷ []
  add_farm t (g ∷ gs) =
      let rest = add_farm t gs in
      if g.user_id == t.farm.user_id
      then record g { farms = g.farms ++ shape_farm t ∷ [] } ∷ gs
      else g ∷ rest

  unfoldable pub add_farms : List FarmTree → List Group → List Group
  unfolding add_farm
  add_farms [] gs = gs
  add_farms (t ∷ ts) gs = add_farms ts (add_farm t gs)

  -- `groupByOwner`
  unfoldable pub group_by_owner : List FarmTree → List Group
  unfolding add_farms
  group_by_owner ts = add_farms ts []

-- The keys of Redis and their values, while they last.
abbrev pub Cache : Type 0
Cache = List (String × String)

pub data Report : Type 0 where
  admin : List Group → Report
  farmer : List FarmReport → Report

-- 'admin'
abbrev admin_role : String
admin_role = "admin"

-- The farms found with `userId: Equal(farmerId)`, shaped.
abbrev pub farmer_report : List FarmTree → ℕ → Report
farmer_report ts farmer_id = farmer (map shape_farm (keep (λ t. t.farm.user_id == farmer_id) ts))

-- `requester?.rol !== Role.Admin`
unfoldable pub is_admin : Option Projection → Bool
is_admin none = false
is_admin (some p) = elim p.rol [ none ↦ false | some rol ↦ str_eq rol admin_role ]

-- `parse` and `stringify` are JSON's.
module _ (parse : String → Report) (stringify : Report → String) where
  -- A cached report, or a new one that is put into the cache.
  unfoldable pub through_cache : String → Report → Action Cache Report
  unfolding lookup insert present
  through_cache key report cache = elim (present (lookup key cache)) [
    | some text ↦ (ok (parse text), cache)
    | none ↦ (ok report, insert key (stringify report) cache)
  ]

  -- `generateAdminReport`: `users` are the rows of the projection, and `ts` those of "farms".
  unfoldable pub generate_admin_report : List Projection → List FarmTree → ℕ → Action Cache Report
  unfolding is_admin
  generate_admin_report users ts req_id cache =
      if is_admin (find_user req_id users)
      then through_cache "report:admin" (admin (group_by_owner users ts)) cache
      else (err (forbidden "Admin role required"), cache)

  module _ (to_string : ℕ → String) where
    -- `farmerReportKey`; `to_string` prints a number in a template literal.
    abbrev farmer_report_key : ℕ → String
    farmer_report_key farmer_id = String.◌++◌ "report:farmer:" (to_string farmer_id)

    -- `generateFarmerReport`
    unfoldable pub generate_farmer_report : List FarmTree → ℕ → ℕ → Action Cache Report
    generate_farmer_report ts farmer_id req_id cache =
        if farmer_id == req_id
        then through_cache (farmer_report_key farmer_id) (farmer_report ts farmer_id) cache
        else (err (forbidden "You can only access your own report"), cache)
