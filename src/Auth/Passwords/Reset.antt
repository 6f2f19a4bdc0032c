-- ===== src/Auth/Passwords/Reset.antt =====
-- A forgotten password: from the request to the login with the new one.
use harvestledger.Base.{
  ℕ, suc, String, true, false, some, List, [], ◌∷◌, length, is_filled, All, ◌≡◌, ◌≢◌, refl, sym, ap,
  ◌∙◌, arith, inl, inr, Bool-cases, ◌==◌, ==_iff, if◌then◌else◌,
}
use mathlib.Core.Option
use text.Mathlib.TextEquality.{eq_iff}
use harvestledger.Effect.{ok, pure}
use harvestledger.Outbox.{Payload, enqueue}
use harvestledger.Store.{Table, IsTable}
use harvestledger.Auth.{User, ResetPasswordDto, forgot, jwt_secret, Value, string, carrier}
use harvestledger.Auth.World.{
  World, Env, find_by_email, first_of, has_email, clashes, transaction, enqueue_event,
  update_user_row, update_entity,
}
use harvestledger.Auth.World.Success.{
  then_ok, enqueue_event_ok, transaction_ok, update_user_row_ok, update_entity_ok,
}
use harvestledger.Auth.Users.Registration.{user_key}
use harvestledger.Auth.Passwords.{
  sent_if_registered, password_changed, set_token, set_password, reset_token_of, request_reset,
  store_token, forgot_password, compare_token, reset_for, reset_password, is_late,
}

-- No row of the table but this one has its email.
abbrev pub IsOnly : {S : Type 0} → Table S User → User → S → Type 0
IsOnly t u s =
    (t.find_one u.profile.id s ≡ some u)
    × ((k : ℕ) (x : User)
        → t.find_one k s ≡ some x
        → x.profile.email ≡ u.profile.email
        → k ≡ u.profile.id)

no_member :
    {X : Type 0} (P : X → Type 0) (xs : List X)
    → All P xs
    → ((x : X) → P x → ⊥)
    → is_filled xs ≡ false
no_member P [] all h = refl
no_member P (x ∷ xs) all h = absurd (omega (arith, h x all.0))

first_member :
    {X : Type 0} (P : X → Type 0) (y : X) (xs : List X)
    → All P xs
    → 0 ≢ length xs
    → ((x : X) → P x → x ≡ y)
    → first_of xs ≡ some y
first_member P y [] all h same = absurd (h refl)
first_member P y (x ∷ xs) all h same = ap some (same x all.0)

module _ {U O File Data : Type 0} (env : Env U O File Data)
    (table : IsTable user_key env.users) where
  pub find_by_email_only :
      (u : User) (w : World U O)
      → IsOnly env.users u w.users
      → find_by_email env (some u.profile.email) w ≡ some u
  unfolding find_by_email has_email
  find_by_email_only u w (there, only) =
      let p = has_email (some u.profile.email) in
      first_member (λ x. (p x ≡ true) × (env.users.find_one (user_key x) w.users ≡ some x)) u
        (env.users.find p w.users) (table.find_sound p w.users)
        (table.find_complete p w.users u.profile.id u there
          ((eq_iff u.profile.email u.profile.email).1 refl))
        (λ x (hit, found).
          let at = only (user_key x) x found ((eq_iff x.profile.email u.profile.email).0 hit) in
          cc (at, found, there))

  pub no_clash :
      (u : User) (w : World U O)
      → IsOnly env.users u w.users
      → is_filled (env.users.find (clashes env u) w.users) ≡ false
  no_clash u w (there, only) =
      no_member (λ x. (clashes env u x ≡ true) × (env.users.find_one (user_key x) w.users ≡ some x))
        (env.users.find (clashes env u) w.users) (table.find_sound (clashes env u) w.users)
        (λ x (hit, found).
          let same : x.profile.email ≡ u.profile.email =
            (eq_iff x.profile.email u.profile.email).0 (ground (arith, hit)) in
          let at = only (user_key x) x found same in ground (arith, hit, at))

  -- A changed row that keeps its id and its email.
  abbrev pub Stays : (User → User) → Type 0
  Stays f = (x : User) → ((f x).profile.id ≡ x.profile.id) × ((f x).profile.email ≡ x.profile.email)

  pub update-IsOnly :
      (f : User → User) (u : User) (s s' : U)
      → Stays f
      → IsOnly env.users u s
      → env.users.update u.profile.id f s ≡ some s'
      → IsOnly env.users (f u) s'
  update-IsOnly f u s s' stays (there, only) done =
      let at : (k : ℕ)
          → env.users.find_one k s' ≡ (
              if k == u.profile.id
              then Option.map f (env.users.find_one k s)
              else env.users.find_one k s) =
        table.find_one-update u.profile.id f s s' done in
      (
        ap (λ k. env.users.find_one k s') (stays u).0
            ∙ ground (arith, at u.profile.id, there, ==_iff u.profile.id u.profile.id),
        λ k x found same. elim (Bool-cases (k == u.profile.id)) [
          | inl own ↦ (==_iff k u.profile.id).0 own ∙ sym (stays u).0
          | inr other ↦
              only k x (ground (arith, at k, other, found)) (same ∙ (stays u).1) ∙ sym (stays u).0
        ],
      )

  pub save-IsOnly :
      (f : User → User) (u : User) (s s' : U)
      → Stays f
      → IsOnly env.users u s
      → env.users.save (f u) s ≡ some s'
      → IsOnly env.users (f u) s'
  save-IsOnly f u s s' stays (there, only) done =
      let at = table.find_one-save (f u) s s' done in
      (
        ground (arith, at (f u).profile.id, ==_iff (f u).profile.id (f u).profile.id),
        λ k x found same. elim (Bool-cases (k == (f u).profile.id)) [
          | inl own ↦ (==_iff k (f u).profile.id).0 own
          | inr other ↦
              only k x (ground (arith, at k, other, found)) (same ∙ (stays u).1) ∙ sym (stays u).0
        ],
      )

  -- The queries and the COMMIT succeed.
  abbrev pub IsUp : Type 0
  IsUp =
      ((u : User) (s : U) → (s' : U) × (env.users.save u s ≡ some s'))
      × ((f : User → User) (id : ℕ) (s : U)
          → Stays f
          → (s' : U) × (env.users.update id f s ≡ some s'))
      × ((w : World U O) → env.outbox_accepts w ≡ true)
      × ((w : World U O) → env.commits w ≡ true)

  -- The event that carries the token.
  abbrev pub reset_event : ℕ → User → Payload Value
  reset_event now u =
      ("email", string u.profile.email) ∷ ("token", string (reset_token_of env now u)) ∷ []

  abbrev pub requested : ℕ → User → U → World U O → World U O
  requested now u s w = record w {
    users = s;
    draws = suc w.draws;
    outbox =
        enqueue carrier w.outbox_seq env.context "user.password_reset_requested" (reset_event now u)
          w.outbox;
    outbox_seq = suc w.outbox_seq;
  }

  pub forgot_password_sent :
      (now : ℕ) (u : User) (w : World U O) (s : U)
      → ((v : World U O) → env.outbox_accepts v ≡ true)
      → ((v : World U O) → env.commits v ≡ true)
      → find_by_email env (some u.profile.email) w ≡ some u
      → env.users.update u.profile.id
          (set_token (some (env.hash w.draws (reset_token_of env now u))))
          w.users
        ≡ some s
      → forgot_password env now (some u.profile.email) w
        ≡ (ok sent_if_registered, requested now u s w)
  unfolding forgot_password store_token transaction enqueue_event update_user_row
  forgot_password_sent now u w s accepts commits found done =
      let drawn = record w { draws = suc w.draws } in
      let token = reset_token_of env now u in
      let hashed = env.hash w.draws token in
      let pattern : String = "user.password_reset_requested" in
      let stored : store_token env u token hashed drawn ≡ (ok tt, requested now u s w) =
        then_ok (update_user_row env u.profile.id (set_token (some hashed)))
          (λ _. enqueue_event env pattern (reset_event now u)) drawn (record drawn { users = s }) tt
          (update_user_row_ok env u.profile.id (set_token (some hashed)) drawn s done)
        ∙ enqueue_event_ok env pattern (reset_event now u) (record drawn { users = s })
            (accepts (record drawn { users = s })) in
      ap (λ o. request_reset env now o w) found
      ∙ then_ok (transaction env (store_token env u token hashed)) (λ _. pure sent_if_registered)
          drawn (requested now u s w) tt
          (transaction_ok env (store_token env u token hashed) drawn (requested now u s w) tt stored
            (commits (requested now u s w)))

  pub reset_password_done :
      (now exp sent : ℕ) (dto : ResetPasswordDto) (u : User) (id : ℕ) (hashed : String)
      (w : World U O) (s : U)
      → env.verify jwt_secret now dto.token ≡ some (forgot id u.profile.email sent, exp)
      → find_by_email env (some u.profile.email) w ≡ some u
      → u.profile.forgot_password_token ≡ some hashed
      → env.compare dto.token hashed ≡ true
      → is_late now (some sent) ≡ false
      → env.users.find_one u.profile.id w.users ≡ some u
      → is_filled (
          env.users.find (clashes env (set_password (env.hash w.draws dto.new_password) u)) w.users)
        ≡ false
      → env.users.save (set_password (env.hash w.draws dto.new_password) u) w.users ≡ some s
      → reset_password env now dto w
        ≡ (ok password_changed, record w { users = s; draws = suc w.draws })
  unfolding reset_password reset_for compare_token
  reset_password_done now exp sent dto u id hashed w s valid found token same late there free done =
      let drawn = record w { draws = suc w.draws } in
      let change = set_password (env.hash w.draws dto.new_password) in
      rw (valid, found, token, same, late)
        (then_ok (update_entity env u.profile.id change) (λ _. pure password_changed) drawn
          (record drawn { users = s }) tt
          (update_entity_ok env u.profile.id change u drawn s there free done))
