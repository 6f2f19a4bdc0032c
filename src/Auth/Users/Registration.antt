-- ===== src/Auth/Users/Registration.antt =====
-- Registering: the user, the event, and the login that follows.
use harvestledger.Base.{
  ℕ, suc, String, Bool, true, false, Option, none, some, is_some, List, [], ◌∷◌, length, is_filled,
  ◌≡◌, refl, sym, ap, ◌∙◌, if◌then◌else◌,
}
use mathlib.Core.Path.{subst}
use text.Mathlib.TextEquality.{eq_iff}
use harvestledger.Http.{Exception, conflict}
use harvestledger.Effect.{Action, Result, ok, err, throw_if, pure, query_failed, ◌>>=◌, ◌>>◌}
use harvestledger.Effect.Binds.{after}
use harvestledger.Outbox.{enqueue}
use harvestledger.Store.{IsTable}
use harvestledger.Store.Unique.{find-insert}
use harvestledger.Auth.{User, Profile, CreateUserDto, carrier}
use harvestledger.Auth.World.{
  World, Env, find_by_email, has_email, hash_password, transaction, enqueue_event, inserted,
  insert_user,
}
use harvestledger.Auth.Users.{new_user, user_event, save_new_user, register}

abbrev pub user_key : User → ℕ
user_key u = u.profile.id

module _ {U O File Data : Type 0} (env : Env U O File Data) where
  -- What an insertion leaves: the row, found alone under its email.
  unfoldable pub Added : (ℕ → User) → World U O → Result User × World U O → Type 0
  Added mk w (err e, w') = w' ≡ w
  Added mk w (ok u, w') =
      (env.users.find (has_email (some (mk 0).profile.email)) w.users ≡ [])
      × (s : U) × (env.users.insert mk w.users ≡ some (u, s))
      × (w' ≡ record w { users = s })

  nothing_filled : {X : Type 0} (xs : List X) → is_filled xs ≡ false → xs ≡ []
  nothing_filled [] h = refl
  nothing_filled (x ∷ xs) h = absurd (cc h)

  pub insert_user-Added : (mk : ℕ → User) (w : World U O) → Added mk w (insert_user env mk w)
  unfolding insert_user Added
  insert_user-Added mk w =
      ends (is_filled (env.users.find (has_email (some (mk 0).profile.email)) w.users)) refl
    where
      put :
          (o : Option (User × U))
          → env.users.insert mk w.users ≡ o
          → env.users.find (has_email (some (mk 0).profile.email)) w.users ≡ []
          → Added mk w (inserted env o w)
      put none e free = refl
      put (some (u, s)) e free = (free, s, e, refl)

      ends :
          (b : Bool)
          → is_filled (env.users.find (has_email (some (mk 0).profile.email)) w.users) ≡ b
          → Added mk w
              (if b then (err query_failed, w) else inserted env (env.users.insert mk w.users) w)
      ends true e = refl
      ends false e = put (env.users.insert mk w.users) refl (nothing_filled _ e)

  -- The state after the event of a saved user.
  abbrev announced : User → World U O → World U O
  announced u v = record v {
    outbox =
        enqueue carrier v.outbox_seq env.context "user.created" (user_event u.profile) v.outbox;
    outbox_seq = suc v.outbox_seq;
  }

  Saved : CreateUserDto → String → World U O → Result User × World U O → Type 0
  Saved dto hashed w (err e, w') = Unit
  Saved dto hashed w (ok u, w') =
      (env.users.find (has_email (some dto.email)) w.users ≡ [])
      × (s : U) × (env.users.insert (new_user dto hashed) w.users ≡ some (u, s))
      × (w' ≡ announced u (record w { users = s }))

  abbrev finish : User → Action (World U O) User
  finish saved = enqueue_event env "user.created" (user_event saved.profile) >> pure saved

  save_new_user-Saved :
      (dto : CreateUserDto) (hashed : String) (w : World U O)
      → Saved dto hashed w (save_new_user env dto hashed w)
  unfolding save_new_user new_user Saved Added enqueue_event
  save_new_user-Saved dto hashed w =
      go (insert_user env (new_user dto hashed) w) (insert_user-Added (new_user dto hashed) w)
    where
      sent :
          (u : User) (s : U) (b : Bool)
          → env.users.find (has_email (some dto.email)) w.users ≡ []
          → env.users.insert (new_user dto hashed) w.users ≡ some (u, s)
          → Saved dto hashed w (
              after
                (λ _. pure u)
                (if b
                  then (ok tt, announced u (record w { users = s }))
                  else (err query_failed, record w { users = s })))
      sent u s true free put = (free, s, put, refl)
      sent u s false free put = tt

      go :
          (r : Result User × World U O)
          → Added (new_user dto hashed) w r
          → Saved dto hashed w (after finish r)
      go (err e, v) h = tt
      go (ok u, v) (free, s, put, same) =
          subst (λ x. Saved dto hashed w (finish u x)) (sym same)
            (sent u s (env.outbox_accepts (record w { users = s })) free put)

  -- What a transaction that saves a user leaves: all of it or nothing.
  Committed : CreateUserDto → String → World U O → Result User × World U O → Type 0
  Committed dto hashed w (err e, w') = w' ≡ w
  Committed dto hashed w (ok u, w') =
      (env.users.find (has_email (some dto.email)) w.users ≡ [])
      × (s : U) × (env.users.insert (new_user dto hashed) w.users ≡ some (u, s))
      × (w' ≡ announced u (record w { users = s }))

  transaction-Committed :
      (dto : CreateUserDto) (hashed : String) (w : World U O)
      → Committed dto hashed w (transaction env (save_new_user env dto hashed) w)
  unfolding transaction Committed Saved
  transaction-Committed dto hashed w =
      go (save_new_user env dto hashed w) (save_new_user-Saved dto hashed w)
    where
      chosen :
          (u : User) (v : World U O) (b : Bool)
          → Saved dto hashed w (ok u, v)
          → Committed dto hashed w (if b then (ok u, v) else (err query_failed, w))
      chosen u v true h = h
      chosen u v false h = refl

      go :
          (r : Result User × World U O)
          → Saved dto hashed w r
          → Committed dto hashed w (transaction env (λ _. r) w)
      go (err e, v) h = refl
      go (ok u, v) h = chosen u v (env.commits v) h

  -- The outcome of `register`.
  abbrev Outcome : CreateUserDto → World U O → Result Profile × World U O → Type 0
  Outcome dto w (err e, w') = (w'.users ≡ w.users) × (w'.outbox ≡ w.outbox) × (w'.keys ≡ w.keys)
  Outcome dto w (ok p, w') =
      (u : User) × (u.profile ≡ p)
      × Committed dto (env.hash w.draws dto.password) (record w { draws = suc w.draws }) (ok u, w')

  register-Outcome : (dto : CreateUserDto) (w : World U O) → Outcome dto w (register env dto w)
  unfolding register Committed
  register-Outcome dto w = checked (is_some (find_by_email env (some dto.email) w))
    where
      hashed : String
      hashed = env.hash w.draws dto.password

      drawn : World U O
      drawn = record w { draws = suc w.draws }

      go :
          (r : Result User × World U O)
          → Committed dto hashed drawn r
          → Outcome dto w (after (λ (saved : User). pure saved.profile) r)
      go (err e, v) h = (ap (λ x. x.users) h, ap (λ x. x.outbox) h, ap (λ x. x.keys) h)
      go (ok u, v) h = (u, refl, h)

      checked :
          (b : Bool)
          → Outcome dto w (
              (throw_if b (conflict "User already exists")
                  >> (hash_password env dto.password >>= λ hashed'.
                      transaction env (save_new_user env dto hashed') >>= λ saved.
                      pure saved.profile))
                w)
      checked true = (refl, refl, refl)
      checked false =
          go (transaction env (save_new_user env dto hashed) drawn)
            (transaction-Committed dto hashed drawn)

  -- A `register` that succeeds takes its email from no user to exactly one, the one that the body
  -- describes with the hash of its password and no role, appends the event `user.created` of this user
  -- to the outbox, and replies with the user but the password. One that throws leaves users, outbox and
  -- keys as they were. The table behaves as documented.
  pub register_once :
      IsTable user_key env.users
      → (dto : CreateUserDto) (w : World U O)
      → ((p : Profile) (w' : World U O)
          → register env dto w ≡ (ok p, w')
          → (u : User) × (u ≡ new_user dto (env.hash w.draws dto.password) p.id)
            × (p ≡ u.profile)
            × (env.users.find (has_email (some dto.email)) w.users ≡ [])
            × (env.users.find (has_email (some dto.email)) w'.users ≡ u ∷ [])
            × (w'.outbox
                ≡ enqueue carrier w.outbox_seq env.context "user.created" (user_event p) w.outbox)
            × (w'.keys ≡ w.keys))
        × ((e : Exception) (w' : World U O)
            → register env dto w ≡ (err e, w')
            → (w'.users ≡ w.users) × (w'.outbox ≡ w.outbox) × (w'.keys ≡ w.keys))
  unfolding Committed has_email new_user
  register_once table dto w = (
    λ p w' h.
        let (u, same, (free, s, put, state)) = subst (Outcome dto w) h (register-Outcome dto w) in
        let hashed = env.hash w.draws dto.password in
        let row : u ≡ new_user dto hashed u.profile.id =
          table.insert_key (new_user dto hashed) w.users s u put in
        (
          u,
          row ∙ ap (λ (q : Profile). new_user dto hashed q.id) same,
          sym same,
          free,
          ap (λ v. env.users.find (has_email (some dto.email)) v.users) state
              ∙ find-insert user_key env.users table (has_email (some dto.email))
                  (new_user dto hashed) w.users s u put (ap length free)
                  (ap (has_email (some dto.email)) row ∙ (eq_iff dto.email dto.email).1 refl),
          ap (λ v. v.outbox) state
              ∙ ap
                  (λ q.
                    enqueue carrier w.outbox_seq env.context "user.created" (user_event q) w.outbox)
                  same,
          ap (λ v. v.keys) state,
        ),
    λ e w' h. subst (Outcome dto w) h (register-Outcome dto w),
  )
