-- ===== src/Report/Tests.antt =====
-- Reports at given inputs, and the copy of the users.
use harvestledger.Base.{
  ℕ, pos, String, none, some, List, [], ◌∷◌, ◌++◌, map, keep, any, ◌≡◌, ◌≢◌, refl, ◌==◌, arith,
  if◌then◌else◌,
}
use harvestledger.Store.{bit}
use harvestledger.Http.{forbidden}
use harvestledger.Farms.{leased}
use harvestledger.Farms.World.{ok, err, present}
use harvestledger.UserProjection.{
  Projection, UserProjectionEventDto, UserEvent, user_created, user_updated, find_user,
}
use harvestledger.UserProjection.Laws.{handle_users, last_of, find_one-handle_users}
use harvestledger.Report.{
  Report, farmer, FarmTree, shape_farm, group_by_owner, generate_farmer_report,
}
use harvestledger.Report.Groups.{AreOwned, groups_of, is_of, reported, group_by_owner-AreOwned}
use harvestledger.Report.Cached.{generate_farmer_report-twice}

abbrev tree : ℕ → ℕ → FarmTree
tree id user = record {
  farm = record {
    id = id;
    name = "Elm";
    location = "north";
    photo = none;
    state = leased;
    area = pos 10;
    user_id = user;
  };
  crops = none;
}

abbrev trees : List FarmTree
trees = tree 1 7 ∷ tree 2 8 ∷ tree 3 7 ∷ []

abbrev ana : UserProjectionEventDto
ana = record {
  id = 7;
  first_name = "Ana";
  last_name = none;
  email = "a@x.org";
  rol = some "farmer";
}

abbrev promoted : UserProjectionEventDto
promoted = record ana { rol = some "admin" }

-- A table of users as a list.
abbrev put : Projection → List Projection → List Projection
put p [] = p ∷ []
put p (x ∷ xs) = let rest = put p xs in if x.id == p.id then p ∷ xs else x ∷ rest

find_user-put :
    (p : Projection) (ps : List Projection) (k : ℕ)
    → find_user k (put p ps) ≡ (if p.id == k then some p else find_user k ps)
unfolding find_user
find_user-put p [] k = refl
find_user-put p (x ∷ xs) k = ground (arith, find_user-put p xs k)

abbrev created_and_promoted : List UserEvent
created_and_promoted = user_created ana ∷ user_updated promoted ∷ []

find_one-handle_users_example :
    (find_user 7 (handle_users put created_and_promoted []) ≡ last_of 7 created_and_promoted none)
    × (find_user 7 (handle_users put (created_and_promoted ++ created_and_promoted) [])
        ≡ find_user 7 (handle_users put created_and_promoted []))
unfolding find_user
find_one-handle_users_example =
    find_one-handle_users put find_user find_user-put 7 created_and_promoted []

group_by_owner-AreOwned_example :
    AreOwned [] (group_by_owner [] trees)
    × ((k : ℕ)
        → (groups_of k (group_by_owner [] trees) ≡ bit (any (is_of k) trees))
          × (reported k (group_by_owner [] trees) ≡ map shape_farm (keep (is_of k) trees)))
group_by_owner-AreOwned_example = group_by_owner-AreOwned [] trees

abbrev parse : String → Report
parse _ = farmer (shape_farm (tree 1 7) ∷ shape_farm (tree 3 7) ∷ [])

abbrev stringify : Report → String
stringify _ = "[1,3]"

generate_farmer_report-twice_example :
    (◌≢◌ {A = ℕ} 7 7
      → generate_farmer_report parse stringify (λ n. "7") trees 7 7 []
        ≡ (err (forbidden "You can only access your own report"), []))
    × ((report : Report) (cache' : List (String × String))
        → generate_farmer_report parse stringify (λ n. "7") trees 7 7 [] ≡ (ok report, cache')
        → generate_farmer_report parse stringify (λ n. "7") [] 7 7 cache' ≡ (ok report, cache'))
unfolding present
generate_farmer_report-twice_example =
    generate_farmer_report-twice parse stringify (λ n. "7") trees [] 7 7 [] (refl, refl)
