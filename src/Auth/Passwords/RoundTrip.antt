-- ===== src/Auth/Passwords/RoundTrip.antt =====
-- The whole way of a forgotten password, and the second use of its token.
use harvestledger.Base.{
  ℕ, suc, ◌+◌, ◌≤◌, ◌<◌, String, true, none, some, is_some, [], ◌∷◌, ◌≡◌, refl, sym, ap, ◌∙◌, arith,
}
use mathlib.Core.Path.{subst}
use harvestledger.Http.{error}
use harvestledger.Effect.{ok, err}
use harvestledger.Outbox.{enqueue}
use harvestledger.Store.{IsTable}
use harvestledger.Auth.{User, ResetPasswordDto, forgot, jwt_secret, carrier, string}
use harvestledger.Auth.World.{World, Env}
use harvestledger.Auth.Users.{validate_user, matching}
use harvestledger.Auth.Users.Registration.{user_key}
use harvestledger.Auth.Sessions.Login.{IsValid}
use harvestledger.Auth.Passwords.{
  sent_if_registered, password_changed, set_token, set_password, reset_ttl_ms, reset_token_of,
  forgot_password, reset_password, reset_for, compare_token,
}
use harvestledger.Auth.Passwords.Reset.{
  IsOnly, IsUp, find_by_email_only, no_clash, update-IsOnly, save-IsOnly, requested,
  forgot_password_sent, reset_password_done,
}

module _ {U O File Data : Type 0} (env : Env U O File Data) (table : IsTable user_key env.users)
    (up : IsUp env table)
    (bcrypt : (n : ℕ) (p : String) → env.compare p (env.hash n p) ≡ true) where
  -- The token that a user requests.
  abbrev with_token : ℕ → User → World U O → User
  with_token now u w = set_token (some (env.hash w.draws (reset_token_of env now u))) u

  abbrev with_password : ℕ → User → String → World U O → User
  with_password now u password w =
      set_password (env.hash (suc w.draws) password) (with_token now u w)

  -- What is known after a reset.
  reset_steps :
      (now later : ℕ) (u : User) (w : World U O) (password : String)
      → IsOnly env.users u w.users
      → IsValid env jwt_secret now reset_ttl_ms (forgot u.profile.id u.profile.email now)
      → now ≤ later
      → later < now + reset_ttl_ms
      → (s v : U) × (forgot_password env now (some u.profile.email) w
          ≡ (ok sent_if_registered, requested env table now u s w))
        × (reset_password env later
              (record { token = reset_token_of env now u; new_password = password })
              (requested env table now u s w)
            ≡ (
              ok password_changed,
              record (requested env table now u s w) { users = v; draws = suc (suc w.draws) },
            ))
        × IsOnly env.users (with_password now u password w) v
  reset_steps now later u w password only jwt past soon =
      let (saves, updates, accepts, commits) = up in
      let token = reset_token_of env now u in
      let hashed = env.hash w.draws token in
      let (s, done) = updates (set_token (some hashed)) u.profile.id w.users (λ x. (refl, refl)) in
      let only' =
        update-IsOnly env table (set_token (some hashed)) u w.users s (λ x. (refl, refl)) only
          done in
      let (v, saved) = saves (with_password now u password w) s in
      let (exp, valid) = jwt.1 later past soon in
      (
        s,
        v,
        forgot_password_sent env table now u w s accepts commits
            (find_by_email_only env table u w only) done,
        reset_password_done env table later exp now
            (record { token = token; new_password = password }) (with_token now u w) u.profile.id
            hashed (requested env table now u s w) v valid
            (find_by_email_only env table (with_token now u w) (requested env table now u s w)
              only')
            refl (bcrypt w.draws token) (ground arith) only'.0
            (no_clash env table (with_token now u w) (requested env table now u s w) only') saved,
        save-IsOnly env table (set_password (env.hash (suc w.draws) password)) (with_token now u w)
            s v (λ x. (refl, refl)) only' saved,
      )

  validated :
      (u : User) (v : World U O) (q : String)
      → IsOnly env.users u v.users
      → is_some (validate_user env u.profile.email q v) ≡ env.compare q u.password
  unfolding validate_user
  validated u v q only =
      ap (λ o. is_some (matching env q o)) (find_by_email_only env table u v only) ∙ ground arith

  -- Where no other user has the email, the servers are up, the token is valid until it expires, and
  -- bcrypt and the table behave as documented: a request for a reset stores the token's hash and enqueues the token for the user's
  -- email; within 24 hours the token changes the password; and from then on a password logs the user
  -- in exactly if bcrypt takes it for the hash of the new one.
  pub forgot_password-reset_password :
      (now later : ℕ) (u : User) (w : World U O) (password : String)
      → IsOnly env.users u w.users
      → IsValid env jwt_secret now reset_ttl_ms (forgot u.profile.id u.profile.email now)
      → now ≤ later
      → later < now + reset_ttl_ms
      → (w' v : World U O) × (forgot_password env now (some u.profile.email) w
          ≡ (ok sent_if_registered, w'))
        × (w'.outbox
            ≡ enqueue carrier w.outbox_seq env.context "user.password_reset_requested"
                (("email", string u.profile.email)
                  ∷ ("token", string (reset_token_of env now u))
                  ∷ [])
                w.outbox)
        × (reset_password env later
              (record { token = reset_token_of env now u; new_password = password })
              w'
            ≡ (ok password_changed, v))
        × ((q : String)
            → is_some (validate_user env u.profile.email q v)
              ≡ env.compare q (env.hash (suc w.draws) password))
  forgot_password-reset_password now later u w password only jwt past soon =
      let (s, t, sent, done, only') = reset_steps now later u w password only jwt past soon in
      (
        requested env table now u s w,
        record (requested env table now u s w) { users = t; draws = suc (suc w.draws) },
        sent,
        refl,
        done,
        λ q.
            validated (with_password now u password w)
              (record (requested env table now u s w) { users = t; draws = suc (suc w.draws) }) q
              only',
      )

  used_up :
      (at id exp sent : ℕ) (dto : ResetPasswordDto) (u : User) (v : World U O)
      → env.verify jwt_secret at dto.token ≡ some (forgot id u.profile.email sent, exp)
      → u.profile.forgot_password_token ≡ none
      → IsOnly env.users u v.users
      → reset_password env at dto v ≡ (err (error "Illegal arguments: string, object"), v)
  unfolding reset_password reset_for compare_token
  used_up at id exp sent dto u v valid cleared only =
      rw (valid, find_by_email_only env table u v only, cleared)

  -- Under the same conditions, a token that has changed the password breaks the handler when it is
  -- presented again before it expires: the error of bcrypt is no answer 400.
  pub reset_password_twice :
      (now later at : ℕ) (u : User) (w : World U O) (password again : String)
      → IsOnly env.users u w.users
      → IsValid env jwt_secret now reset_ttl_ms (forgot u.profile.id u.profile.email now)
      → now ≤ later
      → later < now + reset_ttl_ms
      → now ≤ at
      → at < now + reset_ttl_ms
      → let token = reset_token_of env now u in
        let w' = (forgot_password env now (some u.profile.email) w).1 in
        let v =
          (reset_password env later (record { token = token; new_password = password }) w').1 in
        reset_password env at (record { token = token; new_password = again }) v
        ≡ (err (error "Illegal arguments: string, object"), v)
  reset_password_twice now later at u w password again only jwt past soon past' soon' =
      let (s, t, sent, done, only') = reset_steps now later u w password only jwt past soon in
      let token = reset_token_of env now u in
      let end = record (requested env table now u s w) { users = t; draws = suc (suc w.draws) } in
      let (exp, valid) = jwt.1 at past' soon' in
      let same : (reset_password env later (record { token = token; new_password = password })
            (forgot_password env now (some u.profile.email) w).1).1
          ≡ end =
        ap
          (λ r.
            (reset_password env later (record { token = token; new_password = password }) r.1).1)
          sent
        ∙ ap (λ r. r.1) done in
      subst
        (λ x.
          reset_password env at (record { token = token; new_password = again }) x
          ≡ (err (error "Illegal arguments: string, object"), x))
        (sym same)
        (used_up at u.profile.id exp now (record { token = token; new_password = again })
          (with_password now u password w) end valid refl only')
