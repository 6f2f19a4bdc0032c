-- ===== src/Auth/Controller/Steps.antt =====
-- What every message handler of auth keeps: a property of the state that a few elementary steps keep.
use harvestledger.Base.{
  ℕ, suc, String, Bool, true, false, Option, none, some, is_filled, if◌then◌else◌,
}
use harvestledger.Http.{Exception, error}
use harvestledger.Outbox.{Payload, enqueue}
use harvestledger.Effect.{Action, Result, ok, err, pure, throw, or_throw, throw_if, ◌>>=◌}
use harvestledger.Auth.{User, Value, carrier}
use harvestledger.Auth.World.{
  World, Env, has_email, clashes, hash_password, transaction, enqueue_event, inserted, written,
  insert_user, save_user, update_user_row, update_entity, missing_entity, del_key, set_with_ttl,
}
use harvestledger.Auth.Sessions.{refresh_key, refresh_ttl_seconds}

unfoldable pub Preserves : {W X : Type 0} → (W → Type 0) → Action W X → Type 0
Preserves Q m = (w : _) → Q w → Q (m w).1

module _ {W Y : Type 0} (Q : W → Type 0) where
  pub bind-Preserves :
      {X : Type 0} (m : Action W X) (k : X → Action W Y)
      → Preserves Q m
      → ((x : X) → Preserves Q (k x))
      → Preserves Q (m >>= k)
  unfolding Preserves
  bind-Preserves {X = X} m k hm hk w q = ends (m w) (hm w q)
    where
      ends : (r : Result X × W) → Q r.1 → Q (((λ _. r) >>= k) w).1
      ends (ok x, v) h = hk x v h
      ends (err e, v) h = h

  -- An action that looks at the state first.
  pub look-Preserves :
      (f : W → Action W Y) → ((w : W) → Preserves Q (f w)) → Preserves Q (λ w. f w w)
  unfolding Preserves
  look-Preserves f h w q = h w w q

-- The patterns of the events of auth.
pub data IsAuthPattern : String → Type 0 where
  created : IsAuthPattern "user.created"
  updated : IsAuthPattern "user.updated"
  reset_requested : IsAuthPattern "user.password_reset_requested"

-- The elementary steps of the handlers.
pub record IsKept {U O File Data : Type 0} (env : Env U O File Data) (Q : World U O → Type 0)
    : Type 0 where
  pub drawn : (w : World U O) → Q w → Q (record w { draws = suc w.draws })
  pub changed : (w : World U O) (s : U) → Q w → Q (record w { users = s })
  pub stored : (w : World U O) (o : O) → Q w → Q (record w { objects = o })
  pub enqueued :
      (w : World U O) (pattern : String) (payload : Payload Value)
      → IsAuthPattern pattern
      → Q w
      → Q (record w {
        outbox = enqueue carrier w.outbox_seq env.context pattern payload w.outbox;
        outbox_seq = suc w.outbox_seq;
      })
  pub removed : (w : World U O) (key : String) → Q w → Q (record w { keys = del_key key w.keys })
  pub issued :
      (w : World U O) (now user : ℕ)
      → Q w
      → Q (record w {
        draws = suc w.draws;
        keys =
            set_with_ttl now (refresh_key env user (env.uuid w.draws)) refresh_ttl_seconds w.keys;
      })

pub if-Preserves :
    {X W : Type 0} (Q : W → Type 0) (b : Bool) (x y : Result X × W)
    → Q x.1
    → Q y.1
    → Q (if b then x else y).1
if-Preserves Q true x y hx hy = hx
if-Preserves Q false x y hx hy = hy

module _ {U O File Data : Type 0} (env : Env U O File Data) (Q : World U O → Type 0)
    (kept : IsKept env Q) where
  pub or_throw-Preserves : {X : Type 0} (o : Option X) (e : Exception) → Preserves Q (or_throw o e)
  unfolding Preserves
  or_throw-Preserves none e w q = q
  or_throw-Preserves (some x) e w q = q

  pub throw_if-Preserves : (b : Bool) (e : Exception) → Preserves Q (throw_if b e)
  unfolding Preserves
  throw_if-Preserves b e w q = q

  pub transaction-Preserves :
      {X : Type 0} (m : Action (World U O) X) → Preserves Q m → Preserves Q (transaction env m)
  unfolding transaction Preserves
  transaction-Preserves {X = X} m hm w q = ends (m w) (hm w q)
    where
      ends : (r : Result X × World U O) → Q r.1 → Q (transaction env (λ _. r) w).1
      ends (ok x, v) h = if-Preserves Q (env.commits v) _ _ h q
      ends (err e, v) h = q

  pub enqueue_event-Preserves :
      (pattern : String) (payload : Payload Value)
      → IsAuthPattern pattern
      → Preserves Q (enqueue_event env pattern payload)
  unfolding enqueue_event Preserves
  enqueue_event-Preserves pattern payload own w q =
      if-Preserves Q (env.outbox_accepts w) _ _ (kept.enqueued w pattern payload own q) q

  inserted-Preserves : (o : Option (User × U)) → Preserves Q (inserted env o)
  unfolding Preserves
  inserted-Preserves none w q = q
  inserted-Preserves (some (u, s)) w q = kept.changed w s q

  written-Preserves : (o : Option U) → Preserves Q (written env o)
  unfolding Preserves
  written-Preserves none w q = q
  written-Preserves (some s) w q = kept.changed w s q

  pub insert_user-Preserves : (mk : ℕ → User) → Preserves Q (insert_user env mk)
  unfolding insert_user Preserves
  insert_user-Preserves mk w q =
      if-Preserves Q (is_filled (env.users.find (has_email (some (mk 0).profile.email)) w.users)) _
        _ q (inserted-Preserves (env.users.insert mk w.users) w q)

  pub save_user-Preserves : (u : User) → Preserves Q (save_user env u)
  unfolding save_user Preserves
  save_user-Preserves u w q =
      if-Preserves Q (is_filled (env.users.find (clashes env u) w.users)) _ _ q
        (written-Preserves (env.users.save u w.users) w q)

  pub update_entity-Preserves :
      (id : ℕ) (change : User → User) → Preserves Q (update_entity env id change)
  unfolding update_entity Preserves
  update_entity-Preserves id change w q =
      bind-Preserves Q (or_throw (env.users.find_one id w.users) (error (missing_entity env id)))
        (λ u. save_user env (change u)) (or_throw-Preserves _ _)
        (λ u. save_user-Preserves (change u)) w q

  pub hash_password-Preserves : (p : String) → Preserves Q (hash_password env p)
  unfolding Preserves
  hash_password-Preserves p w q = kept.drawn w q

  pub pure-Preserves : {X : Type 0} (x : X) → Preserves Q (pure x)
  unfolding Preserves
  pure-Preserves x w q = q

  pub throw-Preserves : (X : Type 0) (e : Exception) → Preserves Q (throw {X = X} e)
  unfolding Preserves
  throw-Preserves X e w q = q

  pub update_user_row-Preserves :
      (id : ℕ) (change : User → User) → Preserves Q (update_user_row env id change)
  unfolding update_user_row Preserves
  update_user_row-Preserves id change w q =
      written-Preserves (env.users.update id change w.users) w q

  pub replied-Preserves :
      {X R : Type 0} (m : Action (World U O) X) (f : X → R)
      → Preserves Q m
      → Preserves Q (m >>= λ x. pure (f x))
  replied-Preserves m f h = bind-Preserves Q m (λ x. pure (f x)) h (λ x. pure-Preserves (f x))
