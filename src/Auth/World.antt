-- ===== src/Auth/World.antt =====
-- The state of the auth service, with the libraries and servers that it uses, and the steps that its
-- methods share. Of libs/common/src/services/redis.service.ts: `setWithTtl`, `exists` and `del`; of
-- libs/common/src/repositories/base/base.abstract.repository.ts: `findOneById`, `findByCondition` and
-- `update`.
pub mod Success
use Prim.Native.String
use harvestledger.Base.{
  ◌*◌, ℕ, suc, ◌+◌, String, Bool, true, not, ◌&&◌, Option, none, some, List, [], ◌∷◌, any, keep,
  ltb, ◌==◌, is_filled, if◌then◌else◌,
}
use text.Mathlib.Text.{◌==◌ as str_eq}
use harvestledger.Http.{error}
use harvestledger.Effect.{Result, ok, err, Action, query_failed, pure, or_throw, ◌>>=◌}
use harvestledger.Outbox.{Row, Payload, Carrier, enqueue}
use harvestledger.Store.{Table, Bucket}
use harvestledger.Auth.{User, Claims, Secret, Value, carrier}

-- The states of the table, of the bucket and of the outbox; the keys of Redis with the times in ms
-- when they expire; and how many random values have been drawn.
pub record World (U O : Type 0) : Type 0 where
  pub users : U
  pub keys : List (String × ℕ)
  pub draws : ℕ
  pub outbox : List (Row Value)
  pub outbox_seq : ℕ
  pub objects : O

-- `uuid n` is the value of the n-th draw, if it is for `randomUUID`; `hash n p` is bcrypt's hash of
-- `p` with the salt of the n-th draw; `compare` is bcrypt's. `sign` makes a token from a secret, the
-- time in ms, the time to live in ms and the claims, and `verify` gives back its claims with `exp` in
-- seconds, if it is valid for the secret at that time. `clock` is the time in ms at a state.
pub record Env (U O File Data : Type 0) : Type 0 where
  pub users : Table U User
  pub bucket : Bucket O File Data
  pub to_string : ℕ → String
  pub uuid : ℕ → String
  pub hash : ℕ → String → String
  pub compare : String → String → Bool
  pub sign : Secret → ℕ → ℕ → Claims → String
  pub verify : Secret → ℕ → String → Option (Claims × ℕ)
  pub outbox_accepts : World U O → Bool
  pub commits : World U O → Bool
  pub context : Carrier

-- A key is set and has not expired.
unfoldable pub is_live : ℕ → String → List (String × ℕ) → Bool
is_live now key keys = any (λ e. str_eq e.0 key && ltb now e.1) keys

-- `del`
unfoldable pub del_key : String → List (String × ℕ) → List (String × ℕ)
del_key key keys = keep (λ e. not (str_eq e.0 key)) keys

-- `setWithTtl`: SET key value EX ttl, with the time to live in seconds
unfoldable pub set_with_ttl : ℕ → String → ℕ → List (String × ℕ) → List (String × ℕ)
unfolding del_key
set_with_ttl now key ttl_seconds keys = (key, now + ttl_seconds * 1000) ∷ del_key key keys

-- `where: { email }`: a field that is undefined is no condition.
unfoldable pub has_email : Option String → User → Bool
has_email none u = true
has_email (some email) u = str_eq u.profile.email email

-- `findOne` gives one of the rows.
abbrev pub first_of : {X : Type 0} → List X → Option X
first_of [] = none
first_of (x ∷ _) = some x

module _ {U O File Data : Type 0} (env : Env U O File Data) where
  unfoldable pub find_by_email : Option String → World U O → Option User
  unfolding has_email
  find_by_email email w = first_of (env.users.find (has_email email) w.users)

  -- The next random value.
  abbrev pub draw : Action (World U O) ℕ
  draw w = (ok w.draws, record w { draws = suc w.draws })

  -- `hashPassword`
  abbrev pub hash_password : String → Action (World U O) String
  hash_password password = do n ← draw; pure (env.hash n password)

  -- `dataSource.transaction(…)`: a draw is not undone.
  unfoldable pub transaction : {X : Type 0} → Action (World U O) X → Action (World U O) X
  transaction m w =
      let (r, w') = m w in
      elim r [
        | ok x ↦ if env.commits w' then (ok x, w') else (err query_failed, w)
        | err e ↦ (err e, w)
      ]

  -- `OutboxService.enqueue` with the transaction's manager.
  unfoldable pub enqueue_event : String → Payload Value → Action (World U O) (Unit {0})
  enqueue_event pattern payload w =
      if env.outbox_accepts w
      then (
        ok tt,
        record w {
          outbox = enqueue carrier w.outbox_seq env.context pattern payload w.outbox;
          outbox_seq = suc w.outbox_seq;
        },
      )
      else (err query_failed, w)

  -- Another row with the same email: UNIQUE ("email").
  abbrev pub clashes : User → User → Bool
  clashes u x = str_eq x.profile.email u.profile.email && not (x.profile.id == u.profile.id)

  abbrev pub inserted : Option (User × U) → World U O → Result User × World U O
  inserted none w = (err query_failed, w)
  inserted (some (u, s)) w = (ok u, record w { users = s })

  abbrev pub written : Option U → World U O → Result (Unit {0}) × World U O
  written none w = (err query_failed, w)
  written (some s) w = (ok tt, record w { users = s })

  -- `manager.save` of a new entity
  unfoldable pub insert_user : (ℕ → User) → Action (World U O) User
  unfolding has_email
  insert_user mk w =
      if is_filled (env.users.find (has_email (some (mk 0).profile.email)) w.users)
      then (err query_failed, w)
      else inserted (env.users.insert mk w.users) w

  -- `save` of an entity that was loaded
  unfoldable pub save_user : User → Action (World U O) (Unit {0})
  save_user u w =
      if is_filled (env.users.find (clashes u) w.users)
      then (err query_failed, w)
      else written (env.users.save u w.users) w

  -- `manager.update(UserEntity, id, …)`, where neither id nor email is set
  unfoldable pub update_user_row : ℕ → (User → User) → Action (World U O) (Unit {0})
  update_user_row id change w = written (env.users.update id change w.users) w

  abbrev pub missing_entity : ℕ → String
  missing_entity id = String.◌++◌ "Entity with ID " (String.◌++◌ (env.to_string id) " not found")

  -- `BaseAbstractRepository.update`
  unfoldable pub update_entity : ℕ → (User → User) → Action (World U O) (Unit {0})
  unfolding save_user
  update_entity id change w =
      (do
        u ← or_throw (env.users.find_one id w.users) (error (missing_entity id))
        save_user (change u))
        w
