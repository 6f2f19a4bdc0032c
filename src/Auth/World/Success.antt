-- ===== src/Auth/World/Success.antt =====
-- The shared steps where the queries and the COMMIT succeed.
use harvestledger.Base.{ℕ, suc, String, true, false, some, is_filled, ◌≡◌, ap, ◌∙◌}
use harvestledger.Effect.{Action, ok, ◌>>=◌}
use harvestledger.Effect.Binds.{after}
use harvestledger.Outbox.{Payload, enqueue}
use harvestledger.Auth.{User, Value, carrier}
use harvestledger.Auth.World.{
  World, Env, clashes, written, transaction, enqueue_event, save_user, update_user_row,
  update_entity,
}

-- The rest of a bind, after a first part that succeeds.
pub then_ok :
    {W X Y : Type 0} (m : Action W X) (k : X → Action W Y) (w v : W) (x : X)
    → m w ≡ (ok x, v)
    → (m >>= k) w ≡ k x v
then_ok m k w v x h = ap (after k) h

module _ {U O File Data : Type 0} (env : Env U O File Data) where
  abbrev pub sent : String → Payload Value → World U O → World U O
  sent pattern payload w = record w {
    outbox = enqueue carrier w.outbox_seq env.context pattern payload w.outbox;
    outbox_seq = suc w.outbox_seq;
  }

  pub enqueue_event_ok :
      (pattern : String) (payload : Payload Value) (w : World U O)
      → env.outbox_accepts w ≡ true
      → enqueue_event env pattern payload w ≡ (ok tt, sent pattern payload w)
  unfolding enqueue_event
  enqueue_event_ok pattern payload w h = rw h

  pub transaction_ok :
      {X : Type 0} (m : Action (World U O) X) (w v : World U O) (x : X)
      → m w ≡ (ok x, v)
      → env.commits v ≡ true
      → transaction env m w ≡ (ok x, v)
  unfolding transaction
  transaction_ok m w v x done commits = ap (λ r. transaction env (λ _. r) w) done ∙ rw commits

  pub update_user_row_ok :
      (id : ℕ) (change : User → User) (w : World U O) (s : U)
      → env.users.update id change w.users ≡ some s
      → update_user_row env id change w ≡ (ok tt, record w { users = s })
  unfolding update_user_row
  update_user_row_ok id change w s h = ap (λ o. written env o w) h

  pub save_user_ok :
      (u : User) (w : World U O) (s : U)
      → is_filled (env.users.find (clashes env u) w.users) ≡ false
      → env.users.save u w.users ≡ some s
      → save_user env u w ≡ (ok tt, record w { users = s })
  unfolding save_user
  save_user_ok u w s free done = rw free (ap (λ o. written env o w) done)

  pub update_entity_ok :
      (id : ℕ) (change : User → User) (u : User) (w : World U O) (s : U)
      → env.users.find_one id w.users ≡ some u
      → is_filled (env.users.find (clashes env (change u)) w.users) ≡ false
      → env.users.save (change u) w.users ≡ some s
      → update_entity env id change w ≡ (ok tt, record w { users = s })
  unfolding update_entity
  update_entity_ok id change u w s there free done =
      rw there (save_user_ok (change u) w s free done)
