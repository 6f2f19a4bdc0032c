-- ===== src/Auth/Tests.antt =====
-- A run of the auth service on a table in memory, and the theorems at its states.
use harvestledger.Base.{
  ℕ, ◌+◌, ◌-◌, ◌*◌, String, true, false, none, some, is_some, List, [], ◌∷◌, length, ◌≡◌, refl,
  arith, Bool-cases, inl, inr, ◌==◌, ==_iff,
}
use harvestledger.Store.Memory.{memory, memory-IsTable, memory-update}
use harvestledger.Effect.{ok, err, present}
use harvestledger.Auth.{carrier, string, UpdateUserDto, User, Profile}
use harvestledger.Outbox.{enqueue}
use harvestledger.Auth.World.{
  World, is_live, has_email, find_by_email, transaction, insert_user, enqueue_event, set_with_ttl,
  del_key,
}
use harvestledger.Auth.Users.{
  register, new_user, save_new_user, user_event, validate_user, update_user_info,
}
use harvestledger.Auth.Users.Registration.{user_key, register_once}
use harvestledger.Auth.Sessions.Login.{register-login, login-refresh_token}
use harvestledger.Auth.Sessions.{
  Tokens, login, refresh_token, verify_jwt, refresh_key, refresh_ttl_ms, refresh_claims, rotate,
  issue_tokens, issue_refresh_token,
}
use harvestledger.Auth.Controller.{Request, handle}
use harvestledger.Auth.Controller.SingleUse.{served, refresh_token-single_use}
use harvestledger.Auth.Passwords.Reset.{IsOnly, IsUp}
use harvestledger.Auth.Passwords.{
  forgot_password, reset_password, sent_if_registered, password_changed,
}
use harvestledger.Auth.Passwords.RoundTrip.{forgot_password-reset_password, reset_password_twice}
use harvestledger.Auth.Users.Update.{update_user_info-login}
use harvestledger.Auth.Relay.{auth_targets, pending-served}
use harvestledger.Outbox.Relay.{batch_size}
use harvestledger.Outbox.Relay.Rows.{pending}
use harvestledger.Outbox.Relay.Progress.{ticks}
use text.Mathlib.TextEquality.{eq_iff}
use harvestledger.Http.{error, unauthorized}
use harvestledger.Auth.Seed.{run}
use harvestledger.Auth.Seed.Twice.{run_twice}
use harvestledger.Auth.Samples.{unary, ann_login, env, ann_dto, empty, ann, NoColon-unary, distinct}

abbrev registered : World (List User) ℕ
registered = (register env ann_dto empty).1

register_ann : register env ann_dto empty ≡ (ok ann.profile, registered)
unfolding register find_by_email transaction insert_user enqueue_event save_new_user memory
register_ann = refl

register_once_example :
    (u : User) × (u ≡ new_user ann_dto (env.hash 0 "corn") 1)
    × (ann.profile ≡ u.profile)
    × (env.users.find (has_email (some "ann@farm")) [] ≡ [])
    × (env.users.find (has_email (some "ann@farm")) registered.users ≡ u ∷ [])
    × (registered.outbox ≡ enqueue carrier 1 [] "user.created" (user_event ann.profile) [])
    × (registered.keys ≡ [])
unfolding new_user
register_once_example =
    (register_once env (memory-IsTable user_key) ann_dto empty).0 ann.profile registered
      register_ann

register-login_example :
    (env.compare "corn" (env.hash 0 "corn") ≡ true
      → (r : Tokens) × (v : World (List User) ℕ) × (login env 60
            (record { email = "ann@farm"; password = "corn" })
            registered
          ≡ (ok r, v))
        × (r.user ≡ ann_login))
    × (env.compare "corn" (env.hash 0 "corn") ≡ false
        → login env 60 (record { email = "ann@farm"; password = "corn" }) registered
          ≡ (err (unauthorized "Unauthorized"), registered))
unfolding new_user
register-login_example =
    register-login env (memory-IsTable user_key) ann_dto empty registered ann.profile register_ann
      60 "corn"

-- A state in which Ann is registered, and the one after her login.
abbrev with_ann : World (List User) ℕ
with_ann = record {
  users = ann ∷ [];
  keys = [];
  draws = 1;
  outbox = [];
  outbox_seq = 2;
  objects = 0;
}

abbrev ann_tokens : Tokens
ann_tokens = record { access_token = "a"; refresh_token = "b"; user = ann_login }

abbrev logged_in : World (List User) ℕ
logged_in = record with_ann {
  draws = 2;
  keys = (refresh_key env 1 (unary 2), 60 + refresh_ttl_ms) ∷ [];
}

login_ann :
    login env 60 (record { email = "ann@farm"; password = "corn" }) with_ann
    ≡ (ok ann_tokens, logged_in)
unfolding login issue_tokens issue_refresh_token validate_user find_by_email memory new_user
    set_with_ttl del_key
login_ann = refl

login-refresh_token_example :
    (next : Tokens) × (v : World (List User) ℕ) × (refresh_token env 100 (some "b") logged_in
      ≡ (ok next, v))
    × (next.user ≡ ann_login)
    × (exp : ℕ) × (verify_jwt env 200 (some next.access_token) v ≡ (ok (some ann_login, exp), v))
unfolding present
login-refresh_token_example =
    login-refresh_token env 60 100 200 (record { email = "ann@farm"; password = "corn" }) with_ann
      logged_in ann_tokens login_ann refl (refl, λ at le lt. (1000, refl))
      (refl, λ at le lt. (1000, refl)) (ground arith) (ground arith) (ground arith) (ground arith)

abbrev login_request : Request ℕ
login_request = Request.login (record { email = "ann@farm"; password = "corn" })

after_login : served env ((60, login_request) ∷ []) with_ann ≡ logged_in
unfolding served handle login issue_tokens issue_refresh_token validate_user find_by_email memory
    new_user set_with_ttl del_key
after_login = refl

abbrev refreshed : World (List User) ℕ
refreshed = (refresh_token env 100 (some "b") (served env ((60, login_request) ∷ []) with_ann)).1

taken :
    refresh_token env 100 (some "b") (served env ((60, login_request) ∷ []) with_ann)
    ≡ (ok ann_tokens, refreshed)
unfolding refresh_token refresh_claims rotate present is_live served handle login issue_tokens
    issue_refresh_token validate_user find_by_email memory new_user set_with_ttl del_key refresh_key
taken = refl

refresh_token-single_use_example :
    (m : String) × (refresh_token env 130
        (some "b")
        (served env ((120, login_request) ∷ []) refreshed)
      ≡ (err (unauthorized m), served env ((120, login_request) ∷ []) refreshed))
refresh_token-single_use_example =
    refresh_token-single_use env NoColon-unary distinct ((60, login_request) ∷ [])
      ((120, login_request) ∷ []) 100 130 "b" with_ann refreshed ann_tokens
      (λ at at' c c' exp exp' h h'. cc (h, h')) refl taken

ann-IsOnly : IsOnly env.users ann with_ann.users
unfolding memory new_user
ann-IsOnly = (
  refl,
  λ k x found same. elim (Bool-cases (k == 1)) [
    | inl one ↦ (==_iff k 1).0 one
    | inr other ↦ absurd (ground (arith, found, other))
  ],
)

is_up : IsUp env (memory-IsTable user_key)
unfolding memory
is_up = (
  λ u s. (_, refl),
  (λ f id s stays. memory-update user_key id f s (λ x. (stays x).0)),
  (λ w. refl),
  (λ w. refl),
)

bcrypt : (n : ℕ) (p : String) → env.compare p (env.hash n p) ≡ true
bcrypt n p = (eq_iff p p).1 refl

forgot_password-reset_password_example :
    (w' v : World (List User) ℕ) × (forgot_password env 50 (some "ann@farm") with_ann
      ≡ (ok sent_if_registered, w'))
    × (w'.outbox
        ≡ enqueue carrier 2 [] "user.password_reset_requested"
            (("email", string "ann@farm") ∷ ("token", string "c") ∷ [])
            [])
    × (reset_password env 90 (record { token = "c"; new_password = "rye" }) w'
        ≡ (ok password_changed, v))
    × ((q : String) → is_some (validate_user env "ann@farm" q v) ≡ env.compare q (env.hash 2 "rye"))
unfolding new_user present
forgot_password-reset_password_example =
    forgot_password-reset_password env (memory-IsTable user_key) is_up bcrypt 50 90 ann with_ann
      "rye" ann-IsOnly (refl, λ at le lt. (1000, refl)) (ground arith) (ground arith)

reset_password_twice_example :
    let w' = (forgot_password env 50 (some "ann@farm") with_ann).1 in
    let v = (reset_password env 90 (record { token = "c"; new_password = "rye" }) w').1 in
    reset_password env 95 (record { token = "c"; new_password = "oat" }) v
    ≡ (err (error "Illegal arguments: string, object"), v)
unfolding new_user present
reset_password_twice_example =
    reset_password_twice env (memory-IsTable user_key) is_up bcrypt 50 90 95 ann with_ann "rye"
      "oat" ann-IsOnly (refl, λ at le lt. (1000, refl)) (ground arith) (ground arith) (ground arith)
      (ground arith)

abbrev new_password : UpdateUserDto
new_password = record {
  first_name = none;
  last_name = none;
  email = none;
  password = some "plain";
  photo = none;
  document_type = none;
  document_number = none;
  gender = none;
  date_of_birth = none;
  country = none;
  state = none;
  city = none;
}

update_user_info-login_example :
    (reply : Profile) × (v : World (List User) ℕ) × (update_user_info env 1 new_password with_ann
      ≡ (ok (reply, some "plain"), v))
    × (changed : User) × (env.users.find_one 1 v.users ≡ some changed)
    × (changed.password ≡ "plain")
    × ((now : ℕ) (q : String)
        → login env now (record { email = "ann@farm"; password = q }) v
          ≡ (err (unauthorized "Unauthorized"), v))
unfolding new_user
update_user_info-login_example =
    update_user_info-login env (memory-IsTable user_key) ann new_password "plain" with_ann is_up
      ann-IsOnly (λ q. refl)

pending-served_example :
    let rows = (served env ((70, Request.register ann_dto) ∷ []) empty).outbox in
    pending
      (ticks
        (λ _ _ _ (b : ℕ). (true, b))
        auth_targets
        (λ _ _ _ _. refl)
        (80 ∷ [])
        (record { draining = false; rows = rows; broker = 0 })).rows
    ≡ length rows - batch_size * 1
pending-served_example =
    pending-served env (λ _ _ _ (b : ℕ). (true, b)) (λ _ _ _ _. refl)
      ((70, Request.register ann_dto) ∷ []) empty (80 ∷ []) 0 refl

-- The seed on an empty table.
abbrev seeded : World (List User) ℕ
seeded = (run env (some "root@farm") (some "corn") empty).1

seeded_ok : run env (some "root@farm") (some "corn") empty ≡ (ok tt, seeded)
unfolding run find_by_email present insert_user memory
seeded_ok = refl

run_twice_example : run env (some "root@farm") (some "corn") seeded ≡ (ok tt, seeded)
unfolding memory
run_twice_example =
    run_twice env (memory-IsTable user_key) bcrypt (some "root@farm") (some "corn") empty seeded
      (λ j k x y found found' same. absurd (cc found)) seeded_ok
