-- ===== src/Farms/Tests.antt =====
-- The farms service on the sample state.
use harvestledger.Base.{ℕ, pos, none, some, [], ◌∷◌, ◌≡◌, refl, length, arith}
use harvestledger.Http.{Exception, conflict}
use harvestledger.Outbox.Relay.Laws.{events}
use harvestledger.Store.Memory.{memory, memory-IsTable}
use harvestledger.Farms.{Farm, Crop, Harvest, leased, Value, number}
use harvestledger.Farms.World.{ok, err, present, transaction, enqueue_event}
use harvestledger.Farms.Schema.{insert_farm, insert_crop, insert_harvest}
use harvestledger.Farms.Ownership.{
  crop_owner, child_owner, assert_farm_owner, assert_crop_owner, assert_activity_owner,
  assert_harvest_owner,
}
use harvestledger.Farms.Ownership.Laws.{Decides, assertions-Decides}
use harvestledger.Farms.FarmsService.{create_farm, update_farm, named, new_farm}
use harvestledger.Farms.FarmsService.Names.{create_farm_once, update_farm-taken}
use harvestledger.Farms.Crops.{create_crop, new_crop}
use harvestledger.Farms.Harvests.{
  create_harvest, check_new_harvest, commit_new_harvest, harvests_of, new_harvest,
}
use harvestledger.Farms.Creation.{create_crop_atomic}
use harvestledger.Farms.Creation.Writes.{child_event}
use harvestledger.Farms.Creation.HarvestOnce.{create_harvest_once, create_harvest_race}
use harvestledger.Farms.Controller.{Request, handle}
use harvestledger.Farms.Controller.Refusal.{Target, target, target_owner, Refuses, handle-Refuses}
use harvestledger.Farms.Controller.Isolation.{handle-Keeps}
use harvestledger.Farms.Controller.Isolation.Writes.{Keeps}
use harvestledger.Farms.Samples.{
  Rows, env, env-AreTables, farm_at, maize, rows, new_maize, yield_dto, new_elm, ash,
}

handle-Refuses_example : Refuses {File = ℕ} env rows (handle env 8 (Request.delete_crop 1) rows)
unfolding target target_owner crop_owner memory
handle-Refuses_example =
    handle-Refuses env 8 rows (Request.delete_crop 1) (Target.crop 1) refl (λ e. ground arith)

handle-Keeps_example : Keeps env 8 rows (handle env 8 (Request.update_farm new_elm 2) rows).1
handle-Keeps_example = handle-Keeps env env-AreTables 8 rows (Request.update_farm new_elm 2)

assertions-Decides_example :
    Decides "Farm not found" 7
      (λ f. some f.user_id)
      (env.farms.find_one 2 rows.farms)
      rows
      (assert_farm_owner env 7 2 rows)
    × Decides "Crop not found" 7
        (crop_owner env rows)
        (env.crops.find_one 2 rows.crops)
        rows
        (assert_crop_owner env 7 2 rows)
    × Decides "Activity not found" 7
        (λ a. child_owner env rows a.crop_id)
        (env.activities.find_one 2 rows.activities)
        rows
        (assert_activity_owner env 7 2 rows)
    × Decides "Harvest not found" 7
        (λ h. child_owner env rows h.crop_id)
        (env.harvests.find_one 2 rows.harvests)
        rows
        (assert_harvest_owner env 7 2 rows)
assertions-Decides_example = assertions-Decides env 7 2 rows

update_farm-taken_example :
    update_farm env 7 new_elm 1 rows ≡ (err (conflict "Farm name already exists"), rows)
unfolding memory present
update_farm-taken_example =
    update_farm-taken env rows (memory-IsTable (λ f. f.id)) 7 1 2 new_elm "Oak" (farm_at 1 "Elm" 7)
      (farm_at 2 "Oak" 8) refl refl refl refl (λ e. ground arith) refl

-- A result of a creation, as the theorems on creations divide it.
abbrev saved_ash : Farm
saved_ash = record {
  id = 3;
  name = "Ash";
  location = "south";
  photo = none;
  state = leased;
  area = pos 3;
  user_id = 7;
}

abbrev with_ash : Rows
with_ash = record rows { farms = saved_ash ∷ rows.farms }

ash_created : create_farm env 7 ash rows ≡ (ok saved_ash, with_ash)
unfolding create_farm memory insert_farm
ash_created = refl

create_farm_once_example :
    ((e : Exception) → ok saved_ash ≡ err e → with_ash ≡ rows)
    × ((saved : Farm)
        → ok saved_ash ≡ ok saved
        → (length (named env "Ash" 7 rows) ≡ 0)
          × (length (named env "Ash" 7 with_ash) ≡ 1)
          × (saved ≡ new_farm 7 ash saved.id))
create_farm_once_example =
    create_farm_once env rows (memory-IsTable (λ f. f.id)) 7 ash (ok saved_ash) with_ash ash_created

abbrev saved_wheat : Crop
saved_wheat = new_crop new_maize 2

abbrev with_wheat : Rows
with_wheat = (create_crop env 7 new_maize rows).1

wheat_created : create_crop env 7 new_maize rows ≡ (ok saved_wheat, with_wheat)
unfolding create_crop memory new_crop assert_farm_owner transaction insert_crop enqueue_event
wheat_created = refl

create_crop_atomic_example :
    ((e : Exception) → ok saved_wheat ≡ err e → with_wheat ≡ rows)
    × ((saved : Crop)
        → ok saved_wheat ≡ ok saved
        → (farm : Farm) × (env.farms.find_one 1 rows.farms ≡ some farm)
          × (farm.user_id ≡ 7)
          × (saved ≡ record {
            id = saved.id;
            name = "wheat";
            product = "grain";
            size = pos 2;
            location = "west field";
            photo = none;
            sowing_date = "2024-03-01";
            plants = pos 500;
            farm_id = some 1;
          })
          × (env.crops.find_one saved.id with_wheat.crops ≡ some saved)
          × (events with_wheat.outbox
              ≡ (
                "crop.initialized",
                ("cropId", number saved.id)
                    ∷ ("farmId", number farm.id)
                    ∷ ("userId", number 7)
                    ∷ ("payload", Value.crop saved)
                    ∷ [],
              )
                ∷ []))
create_crop_atomic_example =
    create_crop_atomic env rows (memory-IsTable (λ c. c.id)) 7 new_maize (ok saved_wheat) with_wheat
      wheat_created

-- A harvest, of request 1; then one of request 2, whose checks ran on `rows` as well.
abbrev saved_yield : ℕ → Harvest
saved_yield id = new_harvest yield_dto id

abbrev with_yield : Rows
with_yield = (commit_new_harvest env yield_dto (maize, some 7) rows).1

abbrev with_two_yields : Rows
with_two_yields = (commit_new_harvest env yield_dto (maize, some 7) with_yield).1

yield_created : create_harvest env 7 yield_dto rows ≡ (ok (saved_yield 1), with_yield)
unfolding create_harvest check_new_harvest commit_new_harvest memory new_harvest assert_crop_owner
    transaction insert_harvest enqueue_event
yield_created = refl

check_yield : check_new_harvest env 7 yield_dto rows ≡ (ok (maize, some 7), rows)
unfolding check_new_harvest memory assert_crop_owner
check_yield = refl

commit_yield :
    commit_new_harvest env yield_dto (maize, some 7) rows ≡ (ok (saved_yield 1), with_yield)
unfolding commit_new_harvest memory new_harvest transaction insert_harvest enqueue_event
commit_yield = refl

commit_second_yield :
    commit_new_harvest env yield_dto (maize, some 7) with_yield
    ≡ (ok (saved_yield 2), with_two_yields)
unfolding commit_new_harvest memory new_harvest transaction insert_harvest enqueue_event
commit_second_yield = refl

create_harvest_once_example :
    ((e : Exception) → ok (saved_yield 1) ≡ err e → with_yield ≡ rows)
    × ((saved : Harvest)
        → ok (saved_yield 1) ≡ ok saved
        → (length (harvests_of env 1 rows) ≡ 0)
          × (length (harvests_of env 1 with_yield) ≡ 1)
          × (saved ≡ new_harvest yield_dto saved.id)
          × ((crop : Crop)
              → env.crops.find_one 1 rows.crops ≡ some crop
              → events with_yield.outbox
                ≡ (
                  "harvest.created",
                  child_event 1 crop (crop_owner env rows crop) (Value.harvest saved),
                )
                  ∷ []))
create_harvest_once_example =
    create_harvest_once env rows (memory-IsTable (λ h. h.id)) 7 yield_dto (ok (saved_yield 1))
      with_yield yield_created

create_harvest_race_example : length (harvests_of env 1 with_two_yields) ≡ 2
create_harvest_race_example =
    create_harvest_race env (memory-IsTable (λ h. h.id)) 7 yield_dto yield_dto (maize, some 7)
      (maize, some 7) (saved_yield 1) (saved_yield 2) rows with_yield with_two_yields refl
      check_yield check_yield commit_yield commit_second_yield
