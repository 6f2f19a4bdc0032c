-- ===== src/Auth/Users/Update.antt =====
-- A change of the password by `updateUserInfo`.
use harvestledger.Base.{ℕ, suc, String, false, none, some, ◌≡◌, refl, ap, ◌∙◌, if◌then◌else◌}
use harvestledger.Http.{unauthorized}
use harvestledger.Effect.{ok, err, pure}
use harvestledger.Outbox.{enqueue}
use harvestledger.Store.{IsTable}
use harvestledger.Auth.{User, Profile, UpdateUserDto, carrier}
use harvestledger.Auth.World.{World, Env, transaction, enqueue_event, save_user}
use harvestledger.Auth.World.Success.{then_ok, enqueue_event_ok, transaction_ok, save_user_ok}
use harvestledger.Auth.Users.{
  assign_user, user_event, save_changed_user, update_user_info, validate_user, matching,
}
use harvestledger.Auth.Users.Registration.{user_key}
use harvestledger.Auth.Sessions.{login}
use harvestledger.Auth.Sessions.Login.{login_invalid}
use harvestledger.Auth.Passwords.Reset.{IsOnly, IsUp, find_by_email_only, no_clash, save-IsOnly}

module _ {U O File Data : Type 0} (env : Env U O File Data)
    (table : IsTable user_key env.users) where
  -- The state after the event of a changed user.
  abbrev announced_change : User → U → World U O → World U O
  announced_change u s w = record w {
    users = s;
    outbox =
        enqueue carrier w.outbox_seq env.context "user.updated" (user_event u.profile) w.outbox;
    outbox_seq = suc w.outbox_seq;
  }

  -- The body with a password and no email.
  abbrev pub password_body : UpdateUserDto → String → UpdateUserDto
  password_body dto p = record dto { email = none; password = some p }

  update_user_info_done :
      (u : User) (dto : UpdateUserDto) (p : String) (w : World U O) (s : U)
      → IsUp env table
      → IsOnly env.users u w.users
      → env.users.save (assign_user (password_body dto p) u) w.users ≡ some s
      → update_user_info env u.profile.id (password_body dto p) w ≡ (
        ok ((assign_user (password_body dto p) u).profile, some p),
        announced_change (assign_user (password_body dto p) u) s w,
      )
  unfolding update_user_info save_changed_user assign_user
  update_user_info_done u dto p w s (saves, updates, accepts, commits) only saved =
      let u' = assign_user (password_body dto p) u in
      let end = announced_change u' s w in
      let stored : save_changed_user env u' w ≡ (ok tt, end) =
        then_ok (save_user env u') (λ _. enqueue_event env "user.updated" (user_event u'.profile)) w
          (record w { users = s }) tt (save_user_ok env u' w s (no_clash env table u w only) saved)
        ∙ enqueue_event_ok env "user.updated" (user_event u'.profile) (record w { users = s })
            (accepts (record w { users = s })) in
      rw only.0 (
        then_ok (transaction env (save_changed_user env u')) (λ _. pure (u'.profile, some p)) w end
          tt (transaction_ok env (save_changed_user env u') w end tt stored (commits end)))

  -- Where no other user has the email and the servers are up: a body with a password and no email is
  -- accepted and stores this very text in the place of the hash, so that the user can log in with no
  -- password at all if the text is none of bcrypt's hashes, for which bcrypt takes no password.
  pub update_user_info-login :
      (u : User) (dto : UpdateUserDto) (p : String) (w : World U O)
      → IsUp env table
      → IsOnly env.users u w.users
      → ((q : String) → env.compare q p ≡ false)
      → (reply : Profile) × (v : World U O) × (update_user_info env u.profile.id
            (password_body dto p)
            w
          ≡ (ok (reply, some p), v))
        × (changed : User) × (env.users.find_one u.profile.id v.users ≡ some changed)
        × (changed.password ≡ p)
        × ((now : ℕ) (q : String)
            → login env now (record { email = u.profile.email; password = q }) v
              ≡ (err (unauthorized "Unauthorized"), v))
  unfolding assign_user validate_user
  update_user_info-login u dto p w up only no_hash =
      let u' = assign_user (password_body dto p) u in
      let (s, saved) = up.0 u' w.users in
      let only' =
        save-IsOnly env table (assign_user (password_body dto p)) u w.users s (λ x. (refl, refl))
          only saved in
      let v = announced_change u' s w in
      (
        u'.profile,
        v,
        update_user_info_done u dto p w s up only saved,
        u',
        only'.0,
        refl,
        λ now q.
            login_invalid env now (record { email = u.profile.email; password = q }) v
              (ap (matching env q) (find_by_email_only env table u' v only')
                ∙ ap (λ b. if b then some u' else none) (no_hash q)),
      )
