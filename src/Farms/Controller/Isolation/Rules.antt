-- ===== src/Farms/Controller/Isolation/Rules.antt =====
-- The steps of a handler that leave the rows of others alone.
use harvestledger.Base.{
  ℕ, String, Option, none, some, ◌≡◌, sym, arith, inl, inr, Option-cases, Bool-cases, if◌then◌else◌,
}
use mathlib.Core.Path.{subst}
use harvestledger.Http.{error}
use harvestledger.Outbox.{Payload}
use harvestledger.Store.{Fetched, body, no_such_key, failure}
use harvestledger.Farms.{Farm, Crop, Activity, Harvest, Value}
use harvestledger.Farms.World.{
  World, Env, Action, Result, ok, err, pure, query_failed, ◌>>=◌, ◌>>◌, transaction, enqueue_event,
  upload_file, fetch, present,
}
use harvestledger.Farms.Ownership.{
  crop_owner, child_owner, assert_farm_owner, assert_crop_owner, assert_activity_owner,
  assert_harvest_owner,
}
use harvestledger.Farms.Ownership.Laws.{assertions-Decides}
use harvestledger.Effect.Binds.{after}
use harvestledger.Farms.Controller.Isolation.Steps.{bind_ends, pure_ends, assertion_ends}
use harvestledger.Farms.Controller.Isolation.Writes.{AreTables, Keeps, Keeps-refl, stored-Keeps}

module _ {F C A H O File Data : Type 0} (env : Env F C A H O File Data) (tables : AreTables env)
    (user : ℕ) (w : World F C A H O) where
  abbrev pub P : World F C A H O → Type 0
  P = Keeps env user w

  pub unchanged : P w
  unchanged = Keeps-refl env user w

  -- The outbox and the bucket are no part of `Keeps`.
  pub enqueue-Keeps :
      (pattern : String) (payload : Payload Value) (v : World F C A H O)
      → P v
      → P (enqueue_event env pattern payload v).1
  unfolding enqueue_event
  enqueue-Keeps pattern payload v h = elim (Bool-cases (env.outbox_accepts v)) [
    | inl accepted ↦ rw accepted (record {
      farms = h.farms;
      crops = h.crops;
      activities = h.activities;
      harvests = h.harvests;
    })
    | inr refused ↦ rw refused h
  ]

  abbrev pub finish : {X : Type 0} → Result X × World F C A H O → Result X × World F C A H O
  finish (ok a, v) = if env.commits v then (ok a, v) else (err query_failed, w)
  finish (err e, v) = (err e, w)

  pub finish-Keeps : {X : Type 0} (r : Result X × World F C A H O) → P r.1 → P (finish r).1
  finish-Keeps (ok a, v) h = elim (Bool-cases (env.commits v)) [
    | inl committed ↦ rw committed h
    | inr aborted ↦ rw aborted unchanged
  ]
  finish-Keeps (err e, v) h = unchanged

  pub transaction-eq-finish :
      {X : Type 0} (m : Action (World F C A H O) X) → transaction env m w ≡ finish (m w)
  unfolding transaction
  transaction-eq-finish m = ground arith

  pub transaction-Keeps :
      {X : Type 0} (m : Action (World F C A H O) X) → P (m w).1 → P (transaction env m w).1
  transaction-Keeps m h = rw (transaction-eq-finish m) (finish-Keeps (m w) h)

  -- A new row and its event.
  pub saved-Keeps :
      {X : Type 0} (insert : Action (World F C A H O) X) (pattern : String)
      (payload : X → Payload Value)
      → P (insert w).1
      → P
          (transaction env
            (do saved ← insert; enqueue_event env pattern (payload saved); pure saved)
            w).1
  saved-Keeps {X = X} insert pattern payload h =
      let rest : X → Action (World F C A H O) X =
        λ x. enqueue_event env pattern (payload x) >> pure x in
      transaction-Keeps (insert >>= rest) (
        bind_ends P insert rest w (λ e v same. rw same at h)
          (λ x v same.
            pure_ends P (enqueue_event env pattern (payload x)) (λ _. x) v
              (enqueue-Keeps pattern (payload x) v (rw same at h))))

  abbrev pub upload_result : String → Option String × O → Result String × World F C A H O
  upload_result key (none, o) = (ok key, record w { objects = o })
  upload_result key (some m, o) = (err (error m), record w { objects = o })

  pub upload_result-Keeps :
      {Y : Type 0} (key : String) (k : String → Action (World F C A H O) Y) (r : Option String × O)
      → ((o : O) → P (k key (record w { objects = o })).1)
      → P (after k (upload_result key r)).1
  upload_result-Keeps key k (none, o) next = next o
  upload_result-Keeps key k (some m, o) next = stored-Keeps env user w tables o

  pub upload-eq :
      (file : File) (key : String)
      → upload_file env file key w ≡ upload_result key (env.bucket.upload key file w.objects)
  unfolding upload_file
  upload-eq file key = ground arith

  pub upload-Keeps :
      {Y : Type 0} (file : File) (key : String) (k : String → Action (World F C A H O) Y)
      → ((o : O) → P (k key (record w { objects = o })).1)
      → P ((upload_file env file key >>= k) w).1
  upload-Keeps {Y = Y} file key k next =
      subst (λ (r : Result String × World F C A H O). P (after k r).1) (sym (upload-eq file key))
        (upload_result-Keeps key k (env.bucket.upload key file w.objects) next)

  abbrev pub fetch_result : Fetched Data → Result (Option Data) × World F C A H O
  fetch_result (body d) = (ok (some d), w)
  fetch_result no_such_key = (ok none, w)
  fetch_result (failure m) = (err (error m), w)

  pub fetch_result-Keeps : (r : Fetched Data) → P (fetch_result r).1
  fetch_result-Keeps (body d) = unchanged
  fetch_result-Keeps no_such_key = unchanged
  fetch_result-Keeps (failure m) = unchanged

  pub fetch-eq :
      (photo : Option String) (missing key : String)
      → present photo ≡ some key
      → fetch env photo missing w ≡ fetch_result (env.bucket.get_object key w.objects)
  unfolding fetch
  fetch-eq photo missing key there = ground arith

  pub fetch-Keeps : (photo : Option String) (missing : String) → P (fetch env photo missing w).1
  unfolding fetch
  fetch-Keeps photo missing = elim (Option-cases (present photo)) [
    | inl absent ↦ rw (absent, fetch) unchanged
    | inr (key, there) ↦
        rw (fetch-eq photo missing key there)
          (fetch_result-Keeps (env.bucket.get_object key w.objects))
  ]

  pub farm_ends :
      {Y : Type 0} (id : ℕ) (k : Farm → Action (World F C A H O) Y)
      → ((x : Farm)
          → env.farms.find_one id w.farms ≡ some x
          → some x.user_id ≡ some user
          → P (k x w).1)
      → P ((assert_farm_owner env user id >>= k) w).1
  farm_ends id k next =
      assertion_ends P "Farm not found" user (λ f. some f.user_id) (env.farms.find_one id w.farms)
        (assert_farm_owner env user id) k w (assertions-Decides env user id w).0 unchanged next

  pub crop_ends :
      {Y : Type 0} (id : ℕ) (k : Crop → Action (World F C A H O) Y)
      → ((x : Crop)
          → env.crops.find_one id w.crops ≡ some x
          → crop_owner env w x ≡ some user
          → P (k x w).1)
      → P ((assert_crop_owner env user id >>= k) w).1
  crop_ends id k next =
      assertion_ends P "Crop not found" user (crop_owner env w) (env.crops.find_one id w.crops)
        (assert_crop_owner env user id) k w (assertions-Decides env user id w).1 unchanged next

  pub activity_ends :
      {Y : Type 0} (id : ℕ) (k : Activity → Action (World F C A H O) Y)
      → ((x : Activity)
          → env.activities.find_one id w.activities ≡ some x
          → child_owner env w x.crop_id ≡ some user
          → P (k x w).1)
      → P ((assert_activity_owner env user id >>= k) w).1
  activity_ends id k next =
      assertion_ends P "Activity not found" user (λ a. child_owner env w a.crop_id)
        (env.activities.find_one id w.activities) (assert_activity_owner env user id) k w
        (assertions-Decides env user id w).2 unchanged next

  pub harvest_ends :
      {Y : Type 0} (id : ℕ) (k : Harvest → Action (World F C A H O) Y)
      → ((x : Harvest)
          → env.harvests.find_one id w.harvests ≡ some x
          → child_owner env w x.crop_id ≡ some user
          → P (k x w).1)
      → P ((assert_harvest_owner env user id >>= k) w).1
  harvest_ends id k next =
      assertion_ends P "Harvest not found" user (λ h. child_owner env w h.crop_id)
        (env.harvests.find_one id w.harvests) (assert_harvest_owner env user id) k w
        (assertions-Decides env user id w).3 unchanged next

  -- A last step that only reads.
  pub last_ends :
      {X Y : Type 0} (m : Action (World F C A H O) X) (k : X → Action (World F C A H O) Y)
      (v : World F C A H O)
      → ((x : X) (v' : World F C A H O) → (k x v').1 ≡ v')
      → P (m v).1
      → P ((m >>= k) v).1
  last_ends m k v reads h =
      bind_ends P m k v (λ e v' same. rw same at h) (λ x v' same. rw (reads x v') (rw same at h))

  abbrev pub with_objects : O → World F C A H O
  with_objects o = record w { objects = o }
