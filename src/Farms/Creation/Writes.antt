-- ===== src/Farms/Creation/Writes.antt =====
-- What an assertion, an insertion and a transaction of a creation leave: apps/farms/src/crops
-- and apps/farms/src/harvests.
use harvestledger.Base.{
  ℕ, suc, String, Option, none, some, ◌≡◌, ◌≢◌, refl, ap, arith, [], ◌∷◌, ◌⊎◌, inl, inr, ◌==◌,
  ==_iff, Bool-cases,
}
use harvestledger.Base.Assoc.{lookup}
use harvestledger.Http.{Exception}
use harvestledger.Outbox.{Payload, enqueue, trace_carrier_key}
use harvestledger.Store.{Table, IsTable}
use harvestledger.Farms.{Farm, Crop, Harvest, Value, number, number_or_undefined, carrier}
use harvestledger.Farms.World.{
  World, Env, Action, Result, ok, err, pure, ◌>>=◌, ◌>>◌, transaction, enqueue_event,
}
use harvestledger.Farms.Schema.{insert_crop, insert_harvest}
use harvestledger.Farms.Ownership.Laws.{Decides}

owned_cases : (user : ℕ) (a : Option ℕ) → (a ≡ some user) ⊎ (a ≢ some user)
owned_cases user none = inr (λ e. cc)
owned_cases user (some k) = elim (Bool-cases (k == user)) [
  | inl same ↦ inl (ap some ((==_iff k user).0 same))
  | inr differ ↦ inr (λ e. ground arith)
]

-- What `createCrop`, `createActivity` and `createHarvest` enqueue.
abbrev pub crop_event : Farm → Crop → Payload Value
crop_event farm saved =
    ("cropId", number saved.id)
    ∷ ("farmId", number farm.id)
    ∷ ("userId", number farm.user_id)
    ∷ ("payload", Value.crop saved)
    ∷ []

abbrev pub child_event : ℕ → Crop → Option ℕ → Value → Payload Value
child_event crop_id crop owner saved =
    ("cropId", number crop_id)
    ∷ ("farmId", number_or_undefined crop.farm_id)
    ∷ ("userId", number_or_undefined owner)
    ∷ ("payload", saved)
    ∷ []

pub crop_event_absent :
    (farm : Farm) (saved : Crop) → lookup trace_carrier_key (crop_event farm saved) ≡ none
unfolding lookup
crop_event_absent farm saved = refl

pub child_event_absent :
    (crop_id : ℕ) (crop : Crop) (owner : Option ℕ) (saved : Value)
    → lookup trace_carrier_key (child_event crop_id crop owner saved) ≡ none
unfolding lookup
child_event_absent crop_id crop owner saved = refl

pub found_inserted :
    {S E : Type 0} (t : Table S E) (key : E → ℕ)
    → IsTable key t
    → (mk : ℕ → E) (s s' : S) (x : E) → t.insert mk s ≡ some (x, s')
    → t.find_one (key x) s' ≡ some x
found_inserted t key laws mk s s' x h =
    rw (laws.find_one-insert mk s s' x h (key x), (==_iff (key x) (key x)).1 refl)

module _ {F C A H O File Data : Type 0} (env : Env F C A H O File Data) (w : World F C A H O) where
  -- The state with one event more.
  abbrev pub with_event : String → Payload Value → World F C A H O → World F C A H O
  with_event pattern payload v = record v {
    outbox = enqueue carrier v.outbox_seq env.context pattern payload v.outbox;
    outbox_seq = suc v.outbox_seq;
  }

  abbrev save_with_event :
      {X : Type 0}
      → Action (World F C A H O) X
      → String
      → (X → Payload Value)
      → Action (World F C A H O) X
  save_with_event insert pattern payload = do
    saved ← insert
    enqueue_event env pattern (payload saved)
    pure saved

  -- Both or nothing.
  pub transaction_ok :
      {X : Type 0} (insert : Action (World F C A H O) X) (pattern : String)
      (payload : X → Payload Value) (x : X) (w' : World F C A H O)
      → transaction env (save_with_event insert pattern payload) w ≡ (ok x, w')
      → (v : World F C A H O) × (insert w ≡ (ok x, v)) × (w' ≡ with_event pattern (payload x) v)
  unfolding transaction enqueue_event
  transaction_ok insert pattern payload x w' e = ((insert w).1, ground arith, ground arith)

  pub transaction_err :
      {X : Type 0} (m : Action (World F C A H O) X) (e : Exception) (w' : World F C A H O)
      → transaction env m w ≡ (err e, w')
      → w' ≡ w
  unfolding transaction
  transaction_err m e w' h = ground arith

  pub insert_crop_ok :
      (farm_id : ℕ) (mk : ℕ → Crop) (x : Crop) (v : World F C A H O)
      → insert_crop env farm_id mk w ≡ (ok x, v)
      → (s : C) × (env.crops.insert mk w.crops ≡ some (x, s)) × (v ≡ record w { crops = s })
  unfolding insert_crop
  insert_crop_ok farm_id mk x v e = (v.crops, ground arith, ground arith)

  pub insert_harvest_ok :
      (crop_id : ℕ) (mk : ℕ → Harvest) (x : Harvest) (v : World F C A H O)
      → insert_harvest env crop_id mk w ≡ (ok x, v)
      → (s : H) × (env.harvests.insert mk w.harvests ≡ some (x, s))
        × (v ≡ record w { harvests = s })
  unfolding insert_harvest
  insert_harvest_ok crop_id mk x v e = (v.harvests, ground arith, ground arith)

  -- An assertion that lets through has found the user's row and changed nothing.
  pub asserted :
      {X : Type 0} (missing : String) (user : ℕ) (own : X → Option ℕ) (o : Option X) (x : X)
      (v : World F C A H O) (r : Result X × World F C A H O)
      → Decides missing user own o w r
      → r ≡ (ok x, v)
      → (o ≡ some x) × (v ≡ w)
  asserted missing user own none x v r d e = absurd (cc (d, e))
  asserted missing user own (some y) x v r d e = elim (owned_cases user (own y)) [
    | inl mine ↦ (cc (d.0 mine, e), cc (d.0 mine, e))
    | inr other ↦ absurd (cc (d.1 other, e))
  ]

  pub asserted_own :
      {X : Type 0} (missing : String) (user : ℕ) (own : X → Option ℕ) (o : Option X) (x : X)
      (v : World F C A H O) (r : Result X × World F C A H O)
      → Decides missing user own o w r
      → r ≡ (ok x, v)
      → own x ≡ some user
  asserted_own missing user own none x v r d e = absurd (cc (d, e))
  asserted_own missing user own (some y) x v r d e = elim (owned_cases user (own y)) [
    | inl mine ↦ cc (d.0 mine, e, mine)
    | inr other ↦ absurd (cc (d.1 other, e))
  ]

  pub asserted_same :
      {X : Type 0} (missing : String) (user : ℕ) (own : X → Option ℕ) (o : Option X)
      (r : Result X × World F C A H O) (e : Exception) (w' : World F C A H O)
      → Decides missing user own o w r
      → r ≡ (err e, w')
      → w' ≡ w
  asserted_same missing user own none r e w' d h = cc (d, h)
  asserted_same missing user own (some y) r e w' d h = elim (owned_cases user (own y)) [
    | inl mine ↦ absurd (cc (d.0 mine, h))
    | inr other ↦ cc (d.1 other, h)
  ]
