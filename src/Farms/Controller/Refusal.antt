-- ===== src/Farms/Controller/Refusal.antt =====
-- Which requests address a resource, and what becomes of one for a resource that is not the user's.
use harvestledger.Base.{ℕ, String, Option, none, some, ◌≡◌, ◌≢◌, refl, ◌⊎◌, inl, inr}
use harvestledger.Http.{Exception, not_found, forbidden}
use harvestledger.Farms.World.{World, Env, Result, err}
use harvestledger.Farms.Ownership.{
  crop_owner, child_owner, assert_farm_owner, assert_crop_owner, assert_activity_owner,
  assert_harvest_owner,
}
use harvestledger.Farms.Ownership.Laws.{Decides, assertions-Decides}
use harvestledger.Farms.FarmsService
use harvestledger.Farms.Crops
use harvestledger.Farms.Activities
use harvestledger.Farms.Harvests
use harvestledger.Farms.Controller.{Request, handle}

pub data Target : Type 0 where
  farm crop activity harvest : ℕ → Target

-- The resource that a request names: for a creation its parent.
unfoldable pub target : {File : Type 0} → Request File → Option Target
target (Request.create_farm dto) = none
target Request.farms_by_user = none
target (Request.update_farm a b) = some (Target.farm b)
target (Request.delete_farm a) = some (Target.farm a)
target (Request.upload_farm_image a b) = some (Target.farm b)
target (Request.get_farm_image a) = some (Target.farm a)
target (Request.create_crop a) = some (Target.farm a.farm_id)
target (Request.get_crop a) = some (Target.crop a)
target (Request.crops_by_farm a) = some (Target.farm a)
target (Request.update_crop a b) = some (Target.crop b)
target (Request.delete_crop a) = some (Target.crop a)
target (Request.upload_crop_photo a b) = some (Target.crop b)
target (Request.get_crop_photo a) = some (Target.crop a)
target (Request.create_activity a) = some (Target.crop a.crop_id)
target (Request.activities_by_crop a) = some (Target.crop a)
target (Request.update_activity a b) = some (Target.activity b)
target (Request.delete_activity a) = some (Target.activity a)
target (Request.upload_activity_photo a b) = some (Target.activity b)
target (Request.get_activity_photo a) = some (Target.activity a)
target (Request.create_harvest a) = some (Target.crop a.crop_id)
target (Request.harvest_by_crop a) = some (Target.crop a)
target (Request.update_harvest a b) = some (Target.harvest b)
target (Request.delete_harvest a) = some (Target.harvest a)
target (Request.upload_harvest_image a b) = some (Target.harvest b)
target (Request.get_harvest_image a) = some (Target.harvest a)

-- The user to whom a resource belongs, if it exists and its chain is whole.
abbrev pub owner : {X : Type 0} → (X → Option ℕ) → Option X → Option ℕ
owner of none = none
owner of (some x) = of x

module _ {F C A H O File Data : Type 0} (env : Env F C A H O File Data) where
  unfoldable pub target_owner : World F C A H O → Target → Option ℕ
  target_owner w (Target.farm k) = owner (λ f. some f.user_id) (env.farms.find_one k w.farms)
  target_owner w (Target.crop k) = owner (crop_owner env w) (env.crops.find_one k w.crops)
  target_owner w (Target.activity k) =
      owner (λ a. child_owner env w a.crop_id) (env.activities.find_one k w.activities)
  target_owner w (Target.harvest k) =
      owner (λ h. child_owner env w h.crop_id) (env.harvests.find_one k w.harvests)

  -- An answer with status 404 or 403, with the state unchanged.
  abbrev pub Refuses : {X : Type 0} → World F C A H O → Result X × World F C A H O → Type 0
  Refuses w r =
      (e : Exception) × (r ≡ (err e, w))
      × (((message : String) × (e ≡ not_found message))
          ⊎ (e ≡ forbidden "You do not have access to this resource"))

  Decides-Refuses :
      {X : Type 0} (missing : String) (user : ℕ) (of : X → Option ℕ) (o : Option X)
      (w : World F C A H O) (r : Result X × World F C A H O)
      → Decides missing user of o w r
      → owner of o ≢ some user
      → Refuses w r
  Decides-Refuses missing user of none w r d h = (not_found missing, d, inl (missing, refl))
  Decides-Refuses missing user of (some x) w r d h =
      (forbidden "You do not have access to this resource", d.1 h, inr refl)

  module _ (user id : ℕ) (w : World F C A H O) where
    farm_refused :
        target_owner w (Target.farm id) ≢ some user → Refuses w (assert_farm_owner env user id w)
    unfolding target_owner
    farm_refused h = Decides-Refuses _ user _ _ w _ (assertions-Decides env user id w).0 h

    crop_refused :
        target_owner w (Target.crop id) ≢ some user → Refuses w (assert_crop_owner env user id w)
    unfolding target_owner
    crop_refused h = Decides-Refuses _ user _ _ w _ (assertions-Decides env user id w).1 h

    activity_refused :
        target_owner w (Target.activity id) ≢ some user
        → Refuses w (assert_activity_owner env user id w)
    unfolding target_owner
    activity_refused h = Decides-Refuses _ user _ _ w _ (assertions-Decides env user id w).2 h

    harvest_refused :
        target_owner w (Target.harvest id) ≢ some user
        → Refuses w (assert_harvest_owner env user id w)
    unfolding target_owner
    harvest_refused h = Decides-Refuses _ user _ _ w _ (assertions-Decides env user id w).3 h

  module _ (user : ℕ) (w : World F C A H O) where
    -- What is claimed of a request with a given target.
    abbrev Refused : Request File → Option Target → Type 0
    Refused r none = Unit
    Refused r (some t) = target_owner w t ≢ some user → Refuses w (handle env user r w)

    requests-Refused : (r : Request File) → Refused r (target r)
    unfolding target handle FarmsService.update_farm FarmsService.delete_farm
        FarmsService.upload_farm_image FarmsService.get_farm_image Crops.create_crop
        Crops.find_crop_by_id Crops.find_crops_by_farm_id Crops.update_crop Crops.delete_crop
        Crops.upload_crop_photo Crops.get_crop_photo Activities.create_activity
        Activities.find_activities_by_crop_id Activities.update_activity Activities.delete_activity
        Activities.upload_activity_photo Activities.get_activity_photo Harvests.create_harvest
        Harvests.find_harvest_by_crop_id Harvests.update_harvest Harvests.delete_harvest
        Harvests.upload_harvest_image Harvests.get_harvest_image Harvests.check_new_harvest
    requests-Refused (Request.create_farm a) = tt
    requests-Refused Request.farms_by_user = tt
    requests-Refused (Request.update_farm a b) =
        λ h. let (e, same, why) = farm_refused user b w h in (e, cc, why)
    requests-Refused (Request.delete_farm a) =
        λ h. let (e, same, why) = farm_refused user a w h in (e, cc, why)
    requests-Refused (Request.upload_farm_image a b) =
        λ h. let (e, same, why) = farm_refused user b w h in (e, cc, why)
    requests-Refused (Request.get_farm_image a) =
        λ h. let (e, same, why) = farm_refused user a w h in (e, cc, why)
    requests-Refused (Request.create_crop a) =
        λ h. let (e, same, why) = farm_refused user a.farm_id w h in (e, cc, why)
    requests-Refused (Request.get_crop a) =
        λ h. let (e, same, why) = crop_refused user a w h in (e, cc, why)
    requests-Refused (Request.crops_by_farm a) =
        λ h. let (e, same, why) = farm_refused user a w h in (e, cc, why)
    requests-Refused (Request.update_crop a b) =
        λ h. let (e, same, why) = crop_refused user b w h in (e, cc, why)
    requests-Refused (Request.delete_crop a) =
        λ h. let (e, same, why) = crop_refused user a w h in (e, cc, why)
    requests-Refused (Request.upload_crop_photo a b) =
        λ h. let (e, same, why) = crop_refused user b w h in (e, cc, why)
    requests-Refused (Request.get_crop_photo a) =
        λ h. let (e, same, why) = crop_refused user a w h in (e, cc, why)
    requests-Refused (Request.create_activity a) =
        λ h. let (e, same, why) = crop_refused user a.crop_id w h in (e, cc, why)
    requests-Refused (Request.activities_by_crop a) =
        λ h. let (e, same, why) = crop_refused user a w h in (e, cc, why)
    requests-Refused (Request.update_activity a b) =
        λ h. let (e, same, why) = activity_refused user b w h in (e, cc, why)
    requests-Refused (Request.delete_activity a) =
        λ h. let (e, same, why) = activity_refused user a w h in (e, cc, why)
    requests-Refused (Request.upload_activity_photo a b) =
        λ h. let (e, same, why) = activity_refused user b w h in (e, cc, why)
    requests-Refused (Request.get_activity_photo a) =
        λ h. let (e, same, why) = activity_refused user a w h in (e, cc, why)
    requests-Refused (Request.create_harvest a) =
        λ h. let (e, same, why) = crop_refused user a.crop_id w h in (e, cc, why)
    requests-Refused (Request.harvest_by_crop a) =
        λ h. let (e, same, why) = crop_refused user a w h in (e, cc, why)
    requests-Refused (Request.update_harvest a b) =
        λ h. let (e, same, why) = harvest_refused user b w h in (e, cc, why)
    requests-Refused (Request.delete_harvest a) =
        λ h. let (e, same, why) = harvest_refused user a w h in (e, cc, why)
    requests-Refused (Request.upload_harvest_image a b) =
        λ h. let (e, same, why) = harvest_refused user b w h in (e, cc, why)
    requests-Refused (Request.get_harvest_image a) =
        λ h. let (e, same, why) = harvest_refused user a w h in (e, cc, why)

    -- A request of the farms service for a farm, crop, activity or harvest that does not exist, or
    -- does not belong to the user through the chain of its crop and its farm, is answered with 404
    -- or 403, whatever the request: no table, no outbox and no stored photo is changed, and nothing
    -- of the resource is in the answer. A creation counts as a request for its parent.
    pub handle-Refuses :
        (r : Request File) (t : Target)
        → target r ≡ some t
        → target_owner w t ≢ some user
        → Refuses w (handle env user r w)
    handle-Refuses r t e h = (rw e at (requests-Refused r)) h
