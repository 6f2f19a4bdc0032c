-- ===== src/Farms/World.antt =====
-- The state of the farms service and its handlers' effects: a handler reads and changes the state,
-- and returns a reply or throws. What was written before it throws stays written.
use harvestledger.Base.{ℕ, suc, String, Bool, Option, none, some, List, if◌then◌else◌}
use harvestledger.Http.{error, not_found}
use harvestledger.Outbox.{Row, Payload, Carrier, enqueue}
use harvestledger.Store.{Table, Bucket, body, no_such_key, failure}
pub use harvestledger.Effect.{
  Result, ok, err, query_failed, Action, pure, throw, ◌>>=◌, ◌>>◌, or_throw, throw_if,
}
unfoldable pub use harvestledger.Effect.{present}
use harvestledger.Farms.{Farm, Crop, Activity, Harvest, Value, carrier}

-- The states of the tables, the outbox with its sequence, and the bucket.
pub record World (F C A H O : Type 0) : Type 0 where
  pub farms : F
  pub crops : C
  pub activities : A
  pub harvests : H
  pub outbox : List (Row Value)
  pub outbox_seq : ℕ
  pub objects : O

-- The libraries and servers that the service uses. `outbox_accepts` and `commits` say whether the
-- INSERT into the outbox and the COMMIT of a transaction succeed; `to_string` prints a number in a
-- template literal; `context` is the trace context of the request.
pub record Env (F C A H O File Data : Type 0) : Type 0 where
  pub farms : Table F Farm
  pub crops : Table C Crop
  pub activities : Table A Activity
  pub harvests : Table H Harvest
  pub bucket : Bucket O File Data
  pub to_string : ℕ → String
  pub outbox_accepts : World F C A H O → Bool
  pub commits : World F C A H O → Bool
  pub context : Carrier

module _ {F C A H O File Data : Type 0} (env : Env F C A H O File Data) where
  -- `dataSource.transaction(…)`: what the callback wrote is undone if it throws or the COMMIT fails.
  unfoldable pub transaction :
      {X : Type 0} → Action (World F C A H O) X → Action (World F C A H O) X
  transaction m w =
      let (r, w') = m w in
      elim r [
        | ok x ↦ if env.commits w' then (ok x, w') else (err query_failed, w)
        | err e ↦ (err e, w)
      ]

  -- `OutboxService.enqueue` with the transaction's manager.
  unfoldable pub enqueue_event : String → Payload Value → Action (World F C A H O) (Unit {0})
  enqueue_event pattern payload w =
      if env.outbox_accepts w
      then (
        ok tt,
        record w {
          outbox = enqueue carrier w.outbox_seq env.context pattern payload w.outbox;
          outbox_seq = suc w.outbox_seq;
        },
      )
      else (err query_failed, w)

  -- `S3Service.uploadFile`: a failed upload is logged and thrown again.
  unfoldable pub upload_file : File → String → Action (World F C A H O) String
  upload_file file key w =
      let (failed, objects) = env.bucket.upload key file w.objects in
      elim failed [
        | none ↦ (ok key, record w { objects = objects })
        | some m ↦ (err (error m), record w { objects = objects })
      ]

  -- `S3Service.getFile` of a key that is not empty: null where the object is missing.
  unfoldable pub get_file : String → Action (World F C A H O) (Option Data)
  get_file key w = elim (env.bucket.get_object key w.objects) [
    | body d ↦ (ok (some d), w)
    | no_such_key ↦ (ok none, w)
    | failure m ↦ (err (error m), w)
  ]

  -- The check of a photo's column and `getFile`, as each service has them.
  unfoldable pub fetch : Option String → String → Action (World F C A H O) (Option Data)
  unfolding present get_file
  fetch photo missing w = elim (present photo) [
    | none ↦ (err (not_found missing), w)
    | some key ↦ get_file key w
  ]
