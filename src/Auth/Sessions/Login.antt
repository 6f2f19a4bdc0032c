-- ===== src/Auth/Sessions/Login.antt =====
-- What a login gives: the tokens of the user, of which the refresh token is accepted.
use harvestledger.Base.{
  ℕ, ◌+◌, ◌<◌, ◌≤◌, String, true, false, none, some, ◌≡◌, refl, sym, ap, ◌∙◌, arith, inl, inr,
  Option-cases, if◌then◌else◌,
}
use mathlib.Core.Path.{subst}
use text.Mathlib.TextEquality.{eq_iff}
use harvestledger.Http.{unauthorized}
use harvestledger.Effect.{ok, err, present}
use harvestledger.Store.{IsTable}
use harvestledger.Auth.{
  User, Profile, CreateUserDto, ExistingUserDto, LoginUser, Claims, access, refresh, Secret,
  jwt_secret, jwt_refresh_secret,
}
use harvestledger.Auth.World.{World, Env, find_by_email, first_of, is_live, del_key, set_with_ttl}
use harvestledger.Auth.Users.{validate_user, register, new_user, matching}
use harvestledger.Auth.Users.Registration.{user_key, register_once}
use harvestledger.Auth.Sessions.{
  Tokens, login, login_user, issue_tokens, issue_refresh_token, refresh_key, refresh_token,
  refresh_claims, rotate, is_open, refresh_ttl_ms, access_ttl_ms, verify_jwt,
}

module _ {U O File Data : Type 0} (env : Env U O File Data) where
  login_valid :
      (now : ℕ) (dto : ExistingUserDto) (u : User) (w : World U O)
      → validate_user env dto.email dto.password w ≡ some u
      → login env now dto w ≡ issue_tokens env now (login_user u) w
  unfolding login
  login_valid now dto u w h = rw h

  pub login_invalid :
      (now : ℕ) (dto : ExistingUserDto) (w : World U O)
      → validate_user env dto.email dto.password w ≡ none
      → login env now dto w ≡ (err (unauthorized "Unauthorized"), w)
  unfolding login
  login_invalid now dto w h = rw h

  -- The tokens that are issued.
  abbrev tokens_of : ℕ → LoginUser → World U O → Tokens
  tokens_of now user w = record {
    access_token = env.sign jwt_secret now access_ttl_ms (access user);
    refresh_token =
        env.sign jwt_refresh_secret now refresh_ttl_ms (refresh user (env.uuid w.draws));
    user = user;
  }

  -- A user who has registered logs in with exactly the passwords that bcrypt takes for the hash of
  -- the registered one: such a login gives tokens of the registered id and of no role, and any other
  -- is refused with 401 and changes nothing. The table behaves as documented.
  pub register-login :
      IsTable user_key env.users
      → (dto : CreateUserDto) (w w' : World U O) (p : Profile) → register env dto w ≡ (ok p, w')
      → (now : ℕ) (password : String)
      → (env.compare password (env.hash w.draws dto.password) ≡ true
          → (r : Tokens) × (v : World U O) × (login env now
                (record { email = dto.email; password = password })
                w'
              ≡ (ok r, v))
            × (r.user ≡ record { id = p.id; rol = none }))
        × (env.compare password (env.hash w.draws dto.password) ≡ false
            → login env now (record { email = dto.email; password = password }) w'
              ≡ (err (unauthorized "Unauthorized"), w'))
  unfolding validate_user find_by_email new_user issue_tokens issue_refresh_token
  register-login table dto w w' p h now password =
      let (u, row, same, free, one, posted, kept) = (register_once env table dto w).0 p w' h in
      let body : ExistingUserDto = record { email = dto.email; password = password } in
      let hashed : u.password ≡ env.hash w.draws dto.password = ap (λ x. x.password) row in
      let role : u.profile.rol ≡ none = ap (λ x. x.profile.rol) row in
      let found : find_by_email env (some dto.email) w' ≡ some u = ap first_of one in
      let valid : validate_user env dto.email password w'
          ≡ (if env.compare password (env.hash w.draws dto.password) then some u else none) =
        ap (matching env password) found
        ∙ ap (λ x. if env.compare password x then some u else none) hashed in
      (
        λ right.
            let user : LoginUser = record { id = u.profile.id; rol = u.profile.rol } in
            (
              tokens_of now user w',
              (issue_tokens env now user w').1,
              login_valid now body u w' (valid ∙ ap (λ b. if b then some u else none) right) ∙ refl,
              ap (λ (x : Profile). record { id = x.id; rol = u.profile.rol }) (sym same)
                  ∙ ap (λ x. record { id = p.id; rol = x }) role,
            ),
        λ wrong. login_invalid now body w' (valid ∙ ap (λ b. if b then some u else none) wrong),
      )

  -- The key of the token that was just issued, before it expires.
  issued-is_open :
      (now now' : ℕ) (user : LoginUser) (w : World U O)
      → now' < now + refresh_ttl_ms
      → present (some (env.uuid w.draws)) ≡ some (env.uuid w.draws)
      → is_open env now' user.id (present (some (env.uuid w.draws))) (issue_tokens env now user w).1
        ≡ true
  unfolding issue_tokens issue_refresh_token is_live set_with_ttl
  issued-is_open now now' user w soon filled =
      ap (λ o. is_open env now' user.id o (issue_tokens env now user w).1) filled
      ∙ ground (
        arith,
        (eq_iff (refresh_key env user.id (env.uuid w.draws))
              (refresh_key env user.id (env.uuid w.draws))).1
            refl,
      )

  -- A token that is issued at `now` is no empty string, and until it expires it is valid for its secret
  -- and gives back its claims, as JWT documents it.
  abbrev pub IsValid : Secret → ℕ → ℕ → Claims → Type 0
  IsValid secret now ttl_ms claims =
      (present (some (env.sign secret now ttl_ms claims))
        ≡ some (env.sign secret now ttl_ms claims))
      × ((at : ℕ)
          → now ≤ at
          → at < now + ttl_ms
          → (exp : ℕ) × (env.verify secret at (env.sign secret now ttl_ms claims)
              ≡ some (claims, exp)))

  login_ok :
      (now : ℕ) (dto : ExistingUserDto) (w w' : World U O) (r : Tokens)
      → login env now dto w ≡ (ok r, w')
      → (u : User) × (issue_tokens env now (login_user u) w ≡ (ok r, w'))
  login_ok now dto w w' r h = elim (Option-cases (validate_user env dto.email dto.password w)) [
    | inl none_ ↦ absurd (cc (login_invalid now dto w none_, h))
    | inr (u, valid) ↦ (u, sym (login_valid now dto u w valid) ∙ h)
  ]

  refresh_token_valid :
      (now exp : ℕ) (t jti : String) (user : LoginUser) (w : World U O)
      → present (some t) ≡ some t
      → env.verify jwt_refresh_secret now t ≡ some (refresh user jti, exp)
      → is_open env now user.id (present (some jti)) w ≡ true
      → refresh_token env now (some t) w
        ≡ issue_tokens env now user
            (record w { keys = del_key (refresh_key env user.id jti) w.keys })
  unfolding refresh_token refresh_claims rotate
  refresh_token_valid now exp t jti user w filled valid open_ = rw (filled, valid, open_)

  verify_jwt_valid :
      (now exp : ℕ) (t : String) (user : LoginUser) (w : World U O)
      → present (some t) ≡ some t
      → env.verify jwt_secret now t ≡ some (access user, exp)
      → verify_jwt env now (some t) w ≡ (ok (some user, exp), w)
  unfolding verify_jwt
  verify_jwt_valid now exp t user w filled valid = rw (filled, valid)

  -- The refresh token of a login is accepted for seven days, if it is not presented in between: it
  -- gives tokens of the same user, of which the new access token verifies to this user for 15 minutes.
  -- Both tokens are valid until they expire, and the id of the token is no empty text.
  pub login-refresh_token :
      (now later at : ℕ) (dto : ExistingUserDto) (w w' : World U O) (r : Tokens)
      → login env now dto w ≡ (ok r, w')
      → present (some (env.uuid w.draws)) ≡ some (env.uuid w.draws)
      → IsValid jwt_refresh_secret now refresh_ttl_ms (refresh r.user (env.uuid w.draws))
      → IsValid jwt_secret later access_ttl_ms (access r.user)
      → now ≤ later
      → later < now + refresh_ttl_ms
      → later ≤ at
      → at < later + access_ttl_ms
      → (next : Tokens) × (v : World U O) × (refresh_token env later (some r.refresh_token) w'
          ≡ (ok next, v))
        × (next.user ≡ r.user)
        × (exp : ℕ) × (verify_jwt env at (some next.access_token) v ≡ (ok (some r.user, exp), v))
  unfolding issue_tokens issue_refresh_token
  login-refresh_token now later at dto w w' r h filled (named, valid) (whole, valid') past soon
        past' soon' =
      let (u, by_user) = login_ok now dto w w' r h in
      let of_user : tokens_of now (login_user u) w ≡ r = cc by_user in
      let user = r.user in
      let issued : issue_tokens env now user w ≡ (ok r, w') =
        subst (λ x. issue_tokens env now x w ≡ (ok r, w')) (ap (λ (x : Tokens). x.user) of_user)
          by_user in
      let same : tokens_of now user w ≡ r = cc in
      let state : (issue_tokens env now user w).1 ≡ w' = ap (λ x. x.1) issued in
      let token =
        env.sign jwt_refresh_secret now refresh_ttl_ms (refresh user (env.uuid w.draws)) in
      let (exp, verifies) = valid later past soon in
      let (exp', verifies') = valid' at past' soon' in
      let v = (issue_tokens env now user w).1 in
      let end = record v { keys = del_key (refresh_key env user.id (env.uuid w.draws)) v.keys } in
      let refreshed =
        refresh_token_valid later exp token (env.uuid w.draws) user v named verifies
          (issued-is_open now later user w soon filled) in
      (
        tokens_of later user end,
        (issue_tokens env later user end).1,
        sym (ap (λ (x : Tokens). refresh_token env later (some x.refresh_token) w') same)
            ∙ sym (ap (λ x. refresh_token env later (some token) x) state)
            ∙ refreshed,
        refl,
        exp',
        verify_jwt_valid at exp' (env.sign jwt_secret later access_ttl_ms (access user)) user
            (issue_tokens env later user end).1 whole verifies',
      )
