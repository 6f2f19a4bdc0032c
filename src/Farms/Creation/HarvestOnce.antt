-- ===== src/Farms/Creation/HarvestOnce.antt =====
-- One harvest per crop: `createHarvest` of apps/farms/src/harvests/harvests.service.ts, alone and
-- interleaved with another.
use harvestledger.Base.{
  ℕ, ◌+◌, true, Option, some, ◌≡◌, refl, ap, ◌∙◌, arith, [], ◌∷◌, ◌++◌, length, inl, inr, ==_iff,
}
use mathlib.Core.Path.{subst}
use harvestledger.Http.{Exception, conflict}
use harvestledger.Outbox.{Payload}
use harvestledger.Outbox.Relay.Laws.{events, events-enqueue}
use harvestledger.Store.{IsTable, bit}
use harvestledger.Farms.{Crop, Harvest, Value, CreateHarvestDto, carrier}
use harvestledger.Farms.World.{World, Env, Action, Result, ok, err, pure, throw_if, ◌>>◌}
use harvestledger.Effect.Binds.{bind_ok, bind_err}
use harvestledger.Farms.Schema.{insert_harvest, is_id}
use harvestledger.Farms.Ownership.{crop_owner, assert_crop_owner}
use harvestledger.Farms.Ownership.Laws.{assertions-Decides}
use harvestledger.Farms.Harvests.{
  create_harvest, check_new_harvest, commit_new_harvest, save_new_harvest, new_harvest, harvests_of,
  is_crop_have_harvest,
}
use harvestledger.Farms.Creation.Writes.{
  with_event, transaction_ok, transaction_err, insert_harvest_ok, asserted, asserted_same,
  child_event, child_event_absent,
}

is_id_same : (k : ℕ) → is_id k (some k) ≡ true
is_id_same k = (==_iff k k).1 refl

module _ {F C A H O File Data : Type 0} (env : Env F C A H O File Data) (w : World F C A H O) where
  -- The checks let through only a crop of the user's with no harvest, and change nothing.
  check_ok :
      (user : ℕ) (dto : CreateHarvestDto) (c : Crop) (owner : Option ℕ) (v : World F C A H O)
      → check_new_harvest env user dto w ≡ (ok (c, owner), v)
      → (length (harvests_of env dto.crop_id w) ≡ 0)
        × (v ≡ w)
        × (owner ≡ crop_owner env w c)
        × (env.crops.find_one dto.crop_id w.crops ≡ some c)
  unfolding check_new_harvest is_crop_have_harvest
  check_ok user dto c owner v h =
      let test = is_crop_have_harvest env dto.crop_id w in
      let refusal = conflict "The crop already has a harvest, no more can be added" in
      let rest : Crop → Action (World F C A H O) (Crop × Option ℕ) =
        λ x. throw_if test refusal >> pure (x, crop_owner env w x) in
      let (x, u, asserted_ok, done) =
        bind_ok (assert_crop_owner env user dto.crop_id) rest w v (c, owner) h in
      let (found, same) =
        asserted env w "Crop not found" user (crop_owner env w)
          (env.crops.find_one dto.crop_id w.crops) x u _
          (assertions-Decides env user dto.crop_id w).1 asserted_ok in
      (ground arith, ground arith, ground arith, ground arith)

  check_err :
      (user : ℕ) (dto : CreateHarvestDto) (e : Exception) (v : World F C A H O)
      → check_new_harvest env user dto w ≡ (err e, v)
      → v ≡ w
  unfolding check_new_harvest
  check_err user dto e v h =
      let test = is_crop_have_harvest env dto.crop_id w in
      let refusal = conflict "The crop already has a harvest, no more can be added" in
      let rest : Crop → Action (World F C A H O) (Crop × Option ℕ) =
        λ x. throw_if test refusal >> pure (x, crop_owner env w x) in
      elim (bind_err (assert_crop_owner env user dto.crop_id) rest w v e h) [
        | inl refused ↦
            asserted_same env w "Crop not found" user (crop_owner env w)
              (env.crops.find_one dto.crop_id w.crops) _ e v
              (assertions-Decides env user dto.crop_id w).1 refused
        | inr (x, u, asserted_ok, failed) ↦
            let (found, same) =
              asserted env w "Crop not found" user (crop_owner env w)
                (env.crops.find_one dto.crop_id w.crops) x u _
                (assertions-Decides env user dto.crop_id w).1 asserted_ok in
            ground arith
      ]

  commit_ok :
      (dto : CreateHarvestDto) (c : Crop) (owner : Option ℕ) (saved : Harvest)
      (w' : World F C A H O)
      → commit_new_harvest env dto (c, owner) w ≡ (ok saved, w')
      → (s : H) × (env.harvests.insert (new_harvest dto) w.harvests ≡ some (saved, s))
        × (w'
            ≡ with_event env w "harvest.created"
                (child_event dto.crop_id c owner (Value.harvest saved))
                (record w { harvests = s }))
  unfolding commit_new_harvest
  commit_ok dto c owner saved w' h =
      let event : Harvest → Payload Value =
        λ x. child_event dto.crop_id c owner (Value.harvest x) in
      let (u, inserted, ended) =
        transaction_ok env w (insert_harvest env dto.crop_id (new_harvest dto)) "harvest.created"
          event saved w' h in
      let (s, row, state) =
        insert_harvest_ok env w dto.crop_id (new_harvest dto) saved u inserted in
      (s, row, subst (λ x. w' ≡ with_event env w "harvest.created" (event saved) x) state ended)

  -- The commit of a harvest adds one to the harvests of its crop.
  commit_counts :
      IsTable (λ h. h.id) env.harvests
      → (dto : CreateHarvestDto) (c : Crop) (owner : Option ℕ) (saved : Harvest)
        (w' : World F C A H O)
      → commit_new_harvest env dto (c, owner) w ≡ (ok saved, w')
      → length (harvests_of env dto.crop_id w') ≡ length (harvests_of env dto.crop_id w) + 1
  unfolding new_harvest
  commit_counts laws dto c owner saved w' h =
      let (s, row, state) = commit_ok dto c owner saved w' h in
      let counted =
        laws.count-insert (new_harvest dto) w.harvests s saved row
          (λ x. is_id dto.crop_id x.crop_id) in
      let of_crop : saved.crop_id ≡ some dto.crop_id =
        ap (λ x. x.crop_id) (laws.insert_key (new_harvest dto) w.harvests s saved row) in
      let hit : is_id dto.crop_id saved.crop_id ≡ true =
        ap (is_id dto.crop_id) of_crop ∙ is_id_same dto.crop_id in
      ap (λ u. length (harvests_of env dto.crop_id u)) state
      ∙ counted
      ∙ ap (λ b. length (harvests_of env dto.crop_id w) + bit b) hit

  create_harvest_err :
      (user : ℕ) (dto : CreateHarvestDto) (e : Exception) (w' : World F C A H O)
      → create_harvest env user dto w ≡ (err e, w')
      → w' ≡ w
  unfolding create_harvest commit_new_harvest
  create_harvest_err user dto e w' h =
      elim (bind_err (check_new_harvest env user dto) (commit_new_harvest env dto) w w' e h) [
        | inl refused ↦ check_err user dto e w' refused
        | inr ((c, owner), u, checked_ok, failed) ↦
            let (none_yet, same, own, found) = check_ok user dto c owner u checked_ok in
            transaction_err env w (save_new_harvest env c owner dto) e w'
              (subst (λ x. commit_new_harvest env dto (c, owner) x ≡ (err e, w')) same failed)
      ]

  create_harvest_ok :
      (user : ℕ) (dto : CreateHarvestDto) (saved : Harvest) (w' : World F C A H O)
      → create_harvest env user dto w ≡ (ok saved, w')
      → (c : Crop) × (owner : Option ℕ) × (check_new_harvest env user dto w ≡ (ok (c, owner), w))
        × (commit_new_harvest env dto (c, owner) w ≡ (ok saved, w'))
  unfolding create_harvest
  create_harvest_ok user dto saved w' h =
      let ((c, owner), u, checked_ok, done) =
        bind_ok (check_new_harvest env user dto) (commit_new_harvest env dto) w w' saved h in
      let (none_yet, same, own, found) = check_ok user dto c owner u checked_ok in
      (
        c,
        owner,
        subst (λ x. check_new_harvest env user dto w ≡ (ok (c, owner), x)) same checked_ok,
        subst (λ x. commit_new_harvest env dto (c, owner) x ≡ (ok saved, w')) same done,
      )

  -- A call of createHarvest that nothing interrupts gives a crop its only harvest: if it succeeds,
  -- the crop had none before and has one after, the row is the one that the body describes, and one
  -- event is enqueued with the crop's farm and owner. If it throws, nothing has changed.
  pub create_harvest_once :
      IsTable (λ h. h.id) env.harvests
      → (user : ℕ) (dto : CreateHarvestDto) (r : Result Harvest) (w' : World F C A H O)
      → create_harvest env user dto w ≡ (r, w')
      → ((e : Exception) → r ≡ err e → w' ≡ w)
        × ((saved : Harvest)
            → r ≡ ok saved
            → (length (harvests_of env dto.crop_id w) ≡ 0)
              × (length (harvests_of env dto.crop_id w') ≡ 1)
              × (saved ≡ new_harvest dto saved.id)
              × ((crop : Crop)
                  → env.crops.find_one dto.crop_id w.crops ≡ some crop
                  → events w'.outbox
                    ≡ events w.outbox
                      ++ (
                        "harvest.created",
                        child_event dto.crop_id crop (crop_owner env w crop) (Value.harvest saved),
                      )
                        ∷ []))
  create_harvest_once laws user dto r w' h = (
    λ e same. create_harvest_err user dto e w' (h ∙ ap (λ x. (x, w')) same),
    λ saved same.
        let (c, owner, checked_ok, done) =
          create_harvest_ok user dto saved w' (h ∙ ap (λ x. (x, w')) same) in
        let (none_yet, unchanged, own, found) = check_ok user dto c owner w checked_ok in
        let (s, row, state) = commit_ok dto c owner saved w' done in
        (
          none_yet,
          commit_counts laws dto c owner saved w' done ∙ ap (λ n. n + 1) none_yet,
          laws.insert_key (new_harvest dto) w.harvests s saved row,
          λ crop found'.
              let event : Crop → Option ℕ → Payload Value =
                λ x o. child_event dto.crop_id x o (Value.harvest saved) in
              let outbox =
                ap (λ u. events u.outbox) state
                ∙ events-enqueue carrier w.outbox_seq env.context "harvest.created" (event c owner)
                    w.outbox (child_event_absent dto.crop_id c owner (Value.harvest saved)) in
              let same_crop : c ≡ crop = cc (found, found') in
              let same_event : event c owner ≡ event crop (crop_owner env w crop) =
                ap (event c) own ∙ ap (λ x. event x (crop_owner env w x)) same_crop in
              outbox ∙ ap (λ x. events w.outbox ++ ("harvest.created", x) ∷ []) same_event,
        ),
  )

module _ {F C A H O File Data : Type 0} (env : Env F C A H O File Data) where
  -- Two calls whose checks both run before either of them commits give one crop two harvests: no
  -- constraint of the table stops the second.
  pub create_harvest_race :
      IsTable (λ h. h.id) env.harvests
      → (user : ℕ) (dto dto' : CreateHarvestDto) (checked checked' : Crop × Option ℕ)
        (saved saved' : Harvest) (w w' w'' : World F C A H O)
      → dto'.crop_id ≡ dto.crop_id
      → check_new_harvest env user dto w ≡ (ok checked, w)
      → check_new_harvest env user dto' w ≡ (ok checked', w)
      → commit_new_harvest env dto checked w ≡ (ok saved, w')
      → commit_new_harvest env dto' checked' w' ≡ (ok saved', w'')
      → length (harvests_of env dto.crop_id w'') ≡ 2
  create_harvest_race laws user dto dto' (c, owner) (c', owner') saved saved' w w' w'' crop check
        check' first second =
      let (none_yet, same, own, found) = check_ok env w user dto c owner w check in
      let one = commit_counts env w laws dto c owner saved w' first in
      let two = commit_counts env w' laws dto' c' owner' saved' w'' second in
      let two' =
        subst (λ k. length (harvests_of env k w'') ≡ length (harvests_of env k w') + 1) crop two in
      two' ∙ ap (λ n. n + 1) (one ∙ ap (λ n. n + 1) none_yet)
