-- ===== src/Gateway/Reports.antt =====
-- The routes of report.controller.ts, apps/gateway/src/controllers: guards, the message to farms, and
-- the rows of the file.
pub mod Access
use Prim.Native.String
use harvestledger.Base.{ℕ, String, Bool, true, false, Option, none, some, List, [], ◌∷◌, ◌++◌, map}
use harvestledger.Http.{forbidden}
use harvestledger.Http.Guards
use harvestledger.Http.Guards.{Chars, can_activate, roles_can_activate}
use harvestledger.Effect.{Result, ok, err, Action}
use harvestledger.Auth.{LoginUser}
use harvestledger.UserProjection.{Projection}
use harvestledger.Report.{
  FarmTree, FarmReport, Report, admin, farmer, Cache, generate_admin_report, generate_farmer_report,
}
use harvestledger.Gateway.{Verify, admitted, no_user}
use harvestledger.Gateway.Csv.{
  Cell, Cells, string, farm_state, missing, columns, owner_columns, farmer_csv, admin_csv,
}

-- `userData` of an entry that is a farm, of whose fields it reads "state" only. No report of the admin
-- has such an entry.
abbrev stray_data : FarmReport → Cells
stray_data r =
    missing
    ∷ missing
    ∷ missing
    ∷ missing
    ∷ missing
    ∷ missing
    ∷ missing
    ∷ missing
    ∷ farm_state r.farm.state
    ∷ missing
    ∷ missing
    ∷ []

-- The loops of `getAdminReport` on `res.result`.
unfoldable pub admin_content : Report → List Cells
admin_content (admin gs) = admin_csv gs
admin_content (farmer rs) = map string (owner_columns ++ columns) ∷ map stray_data rs

-- The loops of `getFarmerReport`. An entry with an owner has none of the fields that they read.
unfoldable pub farmer_content : Report → List Cells
farmer_content (farmer rs) = farmer_csv rs
farmer_content (admin gs) =
    map string columns ∷ map (λ g. missing ∷ missing ∷ missing ∷ missing ∷ []) gs

-- `user.rol` of the request's user, if there is one
abbrev role_of : Option LoginUser → Option (Option String)
role_of none = none
role_of (some u) = some u.rol

-- `@Roles(Role.Admin)`
abbrev roles : Option (List String)
roles = some ("admin" ∷ [])

-- A reply of farms, whose status is always 'success', made to a file.
abbrev filed : {W : Type 0} → (Report → List Cells) → Result Report × W → Result (List Cells) × W
filed content (err e, w) = (err e, w)
filed content (ok r, w) = (ok (content r), w)

-- A guard of roles that lets a request through or throws; one that says no is answered with 403.
abbrev allowed : {W R : Type 0} → Action W R → Guards.Result Bool → Action W R
allowed run (Guards.Result.ok true) w = run w
allowed run (Guards.Result.ok false) w = (err (forbidden "Forbidden resource"), w)
allowed run (Guards.Result.err e) w = (err e, w)

module _ (parse : String → Report) (stringify : Report → String) (users : List Projection)
    (ts : List FarmTree) where
  -- `getAdminReport` of the user that the first guard has attached.
  abbrev admin_route : Option LoginUser → Action Cache (List Cells)
  admin_route none w = (err no_user, w)
  admin_route (some u) w =
      filed admin_content (generate_admin_report parse stringify users ts u.id w)

  abbrev with_roles : Guards.Result (Option LoginUser) → Action Cache (List Cells)
  with_roles (Guards.Result.err e) w = (err e, w)
  with_roles (Guards.Result.ok user) w =
      allowed (admin_route user) (roles_can_activate roles (role_of user)) w

  unfoldable pub serve_admin_report : Verify → Option Chars → ℕ → Action Cache (List Cells)
  unfolding admin_content
  serve_admin_report verify header now = with_roles (can_activate verify header now)

  -- `getFarmerReport`, with the piped id of the path.
  unfoldable pub serve_farmer_report :
      (ℕ → String) → Verify → Option Chars → ℕ → Result ℕ → Action Cache (List Cells)
  unfolding farmer_content
  serve_farmer_report to_string verify header now id =
      admitted
        (λ user farmer_id w.
          filed farmer_content
            (generate_farmer_report parse stringify to_string ts farmer_id user w))
        id (can_activate verify header now)
