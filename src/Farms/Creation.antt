-- ===== src/Farms/Creation.antt =====
-- Creations write their row and its event in one transaction (`createCrop` of
-- apps/farms/src/crops/crops.service.ts).
pub mod Writes
pub mod HarvestOnce
use harvestledger.Base.{
  ℕ, suc, ◌+◌, String, Bool, true, false, Option, none, some, ◌≡◌, ◌≢◌, refl, sym, ap, ◌∙◌, arith,
  List, [], ◌∷◌, ◌++◌, length, ◌⊎◌, inl, inr, ◌==◌, ==_iff, Option-cases, Bool-cases,
}
use mathlib.Core.Path.{subst}
use harvestledger.Effect.Binds.{bind_ok, bind_err}
use harvestledger.Base.Assoc.{lookup}
use harvestledger.Http.{Exception}
use harvestledger.Outbox.{Payload, Row, enqueue, trace_carrier_key}
use harvestledger.Outbox.Relay.Laws.{events, events-enqueue}
use harvestledger.Store.{Table, IsTable, bit}
use harvestledger.Farms.{
  Farm, Crop, Activity, Harvest, Value, number, number_or_undefined, carrier, CreateCropDto,
  CreateActivityDto, CreateHarvestDto,
}
use harvestledger.Farms.World.{
  World, Env, Action, Result, ok, err, query_failed, pure, throw_if, ◌>>=◌, ◌>>◌, transaction,
  enqueue_event,
}
use harvestledger.Farms.Schema.{insert_crop, insert_activity, insert_harvest, is_id, is_filled}
use harvestledger.Farms.Ownership.{crop_owner, assert_farm_owner, assert_crop_owner}
use harvestledger.Farms.Ownership.Laws.{Decides, assertions-Decides}
use harvestledger.Farms.Crops.{create_crop, save_new_crop, new_crop}
use harvestledger.Farms.Activities.{create_activity, save_new_activity, new_activity}
use harvestledger.Farms.Harvests.{
  create_harvest, check_new_harvest, commit_new_harvest, save_new_harvest, new_harvest, harvests_of,
  is_crop_have_harvest,
}
use harvestledger.Farms.Creation.Writes.{
  crop_event, crop_event_absent, found_inserted, with_event, transaction_ok, transaction_err,
  insert_crop_ok, asserted, asserted_own, asserted_same,
}

module _ {F C A H O File Data : Type 0} (env : Env F C A H O File Data) (w : World F C A H O) where
  create_crop_err :
      (user : ℕ) (dto : CreateCropDto) (e : Exception) (w' : World F C A H O)
      → create_crop env user dto w ≡ (err e, w')
      → w' ≡ w
  unfolding create_crop
  create_crop_err user dto e w' h =
      let save : Farm → Action (World F C A H O) Crop =
        λ f. transaction env (save_new_crop env f dto) in
      elim (bind_err (assert_farm_owner env user dto.farm_id) save w w' e h) [
        | inl refused ↦
            asserted_same env w "Farm not found" user (λ f. some f.user_id)
              (env.farms.find_one dto.farm_id w.farms) _ e w'
              (assertions-Decides env user dto.farm_id w).0 refused
        | inr (f, v, asserted_ok, failed) ↦
            let (found, same) =
              asserted env w "Farm not found" user (λ f. some f.user_id)
                (env.farms.find_one dto.farm_id w.farms) f v _
                (assertions-Decides env user dto.farm_id w).0 asserted_ok in
            transaction_err env w (save_new_crop env f dto) e w'
              (subst (λ u. save f u ≡ (err e, w')) same failed)
      ]

  create_crop_ok :
      (user : ℕ) (dto : CreateCropDto) (saved : Crop) (w' : World F C A H O)
      → create_crop env user dto w ≡ (ok saved, w')
      → (f : Farm) × (s : C) × (env.farms.find_one dto.farm_id w.farms ≡ some f)
        × (f.user_id ≡ user)
        × (env.crops.insert (new_crop dto) w.crops ≡ some (saved, s))
        × (w' ≡ with_event env w "crop.initialized" (crop_event f saved) (record w { crops = s }))
  unfolding create_crop
  create_crop_ok user dto saved w' h =
      let save : Farm → Action (World F C A H O) Crop =
        λ f. transaction env (save_new_crop env f dto) in
      let (f, v, asserted_ok, done) =
        bind_ok (assert_farm_owner env user dto.farm_id) save w w' saved h in
      let (found, same) =
        asserted env w "Farm not found" user (λ f. some f.user_id)
          (env.farms.find_one dto.farm_id w.farms) f v _
          (assertions-Decides env user dto.farm_id w).0 asserted_ok in
      let (u, inserted, ended) =
        transaction_ok env w (insert_crop env dto.farm_id (new_crop dto)) "crop.initialized"
          (crop_event f) saved w' (subst (λ x. save f x ≡ (ok saved, w')) same done) in
      let (s, row, state) = insert_crop_ok env w dto.farm_id (new_crop dto) saved u inserted in
      (
        f,
        s,
        found,
        cc (
            asserted_own env w "Farm not found" user (λ g. some g.user_id)
              (env.farms.find_one dto.farm_id w.farms) f v _
              (assertions-Decides env user dto.farm_id w).0 asserted_ok),
        row,
        subst (λ x. w' ≡ with_event env w "crop.initialized" (crop_event f saved) x) state ended,
      )

  -- A crop is created together with its event, or not at all: on success the farm of the body exists
  -- and is the user's, the row holds the fields of the body, no photo and that farm's id, it is
  -- found in the table, and the outbox holds exactly one event more, with the ids of crop, farm and
  -- user and the row; on failure nothing has changed.
  pub create_crop_atomic :
      IsTable (λ c. c.id) env.crops
      → (user : ℕ) (dto : CreateCropDto) (r : Result Crop) (w' : World F C A H O)
      → create_crop env user dto w ≡ (r, w')
      → ((e : Exception) → r ≡ err e → w' ≡ w)
        × ((saved : Crop)
            → r ≡ ok saved
            → (farm : Farm) × (env.farms.find_one dto.farm_id w.farms ≡ some farm)
              × (farm.user_id ≡ user)
              × (saved ≡ record {
                id = saved.id;
                name = dto.name;
                product = dto.product;
                size = dto.size;
                location = dto.location;
                photo = none;
                sowing_date = dto.sowing_date;
                plants = dto.plants;
                farm_id = some dto.farm_id;
              })
              × (env.crops.find_one saved.id w'.crops ≡ some saved)
              × (events w'.outbox
                  ≡ events w.outbox
                    ++ (
                      "crop.initialized",
                      ("cropId", number saved.id)
                          ∷ ("farmId", number farm.id)
                          ∷ ("userId", number user)
                          ∷ ("payload", Value.crop saved)
                          ∷ [],
                    )
                      ∷ []))
  unfolding new_crop
  create_crop_atomic laws user dto r w' h = (
    λ e same. create_crop_err user dto e w' (h ∙ ap (λ x. (x, w')) same),
    λ saved same.
        let (f, s, found, mine, row, ended) =
          create_crop_ok user dto saved w' (h ∙ ap (λ x. (x, w')) same) in
        (
          f,
          found,
          mine,
          laws.insert_key (new_crop dto) w.crops s saved row,
          ap (λ u. env.crops.find_one saved.id u.crops) ended
              ∙ found_inserted env.crops (λ c. c.id) laws (new_crop dto) w.crops s saved row,
          ap (λ u. events u.outbox) ended
              ∙ events-enqueue carrier w.outbox_seq env.context "crop.initialized"
                  (crop_event f saved) w.outbox (crop_event_absent f saved)
              ∙ ap
                  (λ owner.
                    events w.outbox
                    ++ (
                      "crop.initialized",
                      ("cropId", number saved.id)
                          ∷ ("farmId", number f.id)
                          ∷ ("userId", number owner)
                          ∷ ("payload", Value.crop saved)
                          ∷ [],
                    )
                      ∷ [])
                  mine,
        ),
  )
