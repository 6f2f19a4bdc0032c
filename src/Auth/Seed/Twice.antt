-- ===== src/Auth/Seed/Twice.antt =====
-- Running the seed again.
use harvestledger.Base.{
  ℕ, suc, String, Bool, true, false, Option, none, some, List, [], ◌∷◌, length, is_filled, All, ◌≡◌,
  refl, sym, ap, ◌∙◌, arith, inl, inr, Bool-cases, if◌then◌else◌,
}
use mathlib.Core.Path.{subst}
use text.Mathlib.TextEquality.{eq_iff}
use harvestledger.Effect.{Result, ok, err, query_failed, pure, present, ◌>>=◌}
use harvestledger.Effect.Binds.{after}
use harvestledger.Store.{IsTable}
use harvestledger.Store.Unique.{find-insert}
use harvestledger.Auth.{User}
use harvestledger.Auth.World.{
  World, Env, find_by_email, first_of, has_email, hash_password, insert_user, save_user, written,
  clashes,
}
use harvestledger.Auth.Users.Registration.{user_key, Added, insert_user-Added}
use harvestledger.Auth.Passwords.Reset.{IsOnly, find_by_email_only, save-IsOnly}
use harvestledger.Auth.Seed.{admin_user, as_admin, is_outdated, reconcile, with_credentials, run}

module _ {U O File Data : Type 0} (env : Env U O File Data) (table : IsTable user_key env.users)
    (bcrypt : (n : ℕ) (p : String) → env.compare p (env.hash n p) ≡ true) where
  -- The account of this email is up to date.
  abbrev IsSettled : String → String → World U O → Type 0
  IsSettled email pass w =
      (u : User) × (find_by_email env (some email) w ≡ some u) × (is_outdated env pass u ≡ false)

  settled :
      (email pass : String) (w : World U O)
      → IsSettled email pass w
      → reconcile env email pass (find_by_email env (some email) w) w ≡ (ok tt, w)
  settled email pass w (u, found, current) =
      ap (λ o. reconcile env email pass o w) found
      ∙ ap
          (λ b.
            if b
            then (hash_password env pass >>= λ hashed. save_user env (as_admin hashed u)) w
            else (ok tt, w))
          current

  admin-IsSettled :
      (n : ℕ) (pass : String) (u : User)
      → is_outdated env pass (as_admin (env.hash n pass) u) ≡ false
  admin-IsSettled n pass u = ground (arith, bcrypt n pass, (eq_iff "admin" "admin").1 refl)

  -- What an insertion and a save leave settled.
  inserted-IsSettled :
      (email pass : String) (n : ℕ) (w w' : World U O) (r : Result User × World U O)
      → Added env (admin_user email (env.hash n pass)) w r
      → after (λ _. pure tt) r ≡ (ok tt, w')
      → IsSettled email pass w'
  unfolding Added find_by_email has_email
  inserted-IsSettled email pass n w w' (err e, v) h done = absurd (cc done)
  inserted-IsSettled email pass n w w' (ok u, v) (free, s, put, state) done =
      let row : u ≡ admin_user email (env.hash n pass) u.profile.id =
        table.insert_key (admin_user email (env.hash n pass)) w.users s u put in
      let hit : has_email (some email) u ≡ true =
        ap (has_email (some email)) row ∙ (eq_iff email email).1 refl in
      let one =
        find-insert user_key env.users table (has_email (some email))
          (admin_user email (env.hash n pass)) w.users s u put (ap length free) hit in
      let end : w' ≡ record w { users = s } = sym (ap (λ p. p.1) done) ∙ state in
      (
        u,
        ap (λ v'. first_of (env.users.find (has_email (some email)) v'.users)) end
            ∙ ap first_of one,
        ap (is_outdated env pass) row
            ∙ admin-IsSettled n pass (admin_user email (env.hash n pass) u.profile.id),
      )

  -- Two users have different emails: UNIQUE ("email").
  abbrev pub UniqueEmails : U → Type 0
  UniqueEmails s =
      (j k : ℕ) (x y : User)
      → env.users.find_one j s ≡ some x
      → env.users.find_one k s ≡ some y
      → y.profile.email ≡ x.profile.email
      → k ≡ j

  head : (P : User → Type 0) (xs : List User) (u : User) → All P xs → first_of xs ≡ some u → P u
  head P [] u all h = absurd (cc h)
  head P (x ∷ xs) u all h = subst P (cc h) all.0

  found-IsOnly :
      (email : String) (u : User) (w : World U O)
      → UniqueEmails w.users
      → find_by_email env (some email) w ≡ some u
      → IsOnly env.users u w.users × (u.profile.email ≡ email)
  unfolding find_by_email has_email
  found-IsOnly email u w unique found =
      let p = has_email (some email) in
      let (hit, there) =
        head (λ x. (p x ≡ true) × (env.users.find_one (user_key x) w.users ≡ some x))
          (env.users.find p w.users) u (table.find_sound p w.users) found in
      (
        (there, λ k x at same. unique u.profile.id k u x there at same),
        (eq_iff u.profile.email email).0 hit,
      )

  saved-IsSettled :
      (email pass : String) (u : User) (w w' : World U O)
      → IsOnly env.users u w.users
      → u.profile.email ≡ email
      → save_user env (as_admin (env.hash w.draws pass) u) (record w { draws = suc w.draws })
        ≡ (ok tt, w')
      → IsSettled email pass w'
  unfolding save_user
  saved-IsSettled email pass u w w' only named done =
      go (is_filled (env.users.find (clashes env changed) w.users)) (env.users.save changed w.users)
        refl done
    where
      changed : User
      changed = as_admin (env.hash w.draws pass) u

      go :
          (b : Bool) (o : Option U)
          → env.users.save changed w.users ≡ o
          → (if b
              then (err query_failed, record w { draws = suc w.draws })
              else written env o (record w { draws = suc w.draws }))
            ≡ (ok tt, w')
          → IsSettled email pass w'
      go true o e h = absurd (cc h)
      go false none e h = absurd (cc h)
      go false (some s) e h =
          let end : record w { users = s; draws = suc w.draws } ≡ w' = ap (λ p. p.1) h in
          let only' =
            save-IsOnly env table (as_admin (env.hash w.draws pass)) u w.users s (λ x. (refl, refl))
              only e in
          (
            changed,
            subst (λ v. find_by_email env (some email) v ≡ some changed) end
                (subst
                  (λ x.
                    find_by_email env (some x) (record w { users = s; draws = suc w.draws })
                    ≡ some changed)
                  named
                  (find_by_email_only env table changed
                    (record w { users = s; draws = suc w.draws }) only')),
            admin-IsSettled w.draws pass u,
          )

  reconciled-IsSettled :
      (email pass : String) (w w' : World U O) (o : Option User)
      → UniqueEmails w.users
      → find_by_email env (some email) w ≡ o
      → reconcile env email pass o w ≡ (ok tt, w')
      → IsSettled email pass w'
  reconciled-IsSettled email pass w w' none unique found done =
      let drawn = record w { draws = suc w.draws } in
      inserted-IsSettled email pass w.draws drawn w'
        (insert_user env (admin_user email (env.hash w.draws pass)) drawn)
        (insert_user-Added env (admin_user email (env.hash w.draws pass)) drawn) done
  reconciled-IsSettled email pass w w' (some u) unique found done =
      elim (Bool-cases (is_outdated env pass u)) [
        | inl old ↦
            let (only, named) = found-IsOnly email u w unique found in
            saved-IsSettled email pass u w w' only named (
              subst
                (λ b.
                  (if b
                    then (hash_password env pass >>= λ hashed. save_user env (as_admin hashed u)) w
                    else (ok tt, w))
                  ≡ (ok tt, w'))
                old done)
        | inr current ↦
            let same : w ≡ w' = cc (
              subst
                (λ b.
                  (if b
                    then (hash_password env pass >>= λ hashed. save_user env (as_admin hashed u)) w
                    else (ok tt, w))
                  ≡ (ok tt, w'))
                current done) in
            subst (IsSettled email pass) same (u, found, current)
      ]

  -- The seed is idempotent: with a table that behaves as documented and in which emails are unique,
  -- and where bcrypt takes a password for its hash, a run that succeeds leaves a state in which the
  -- next run, with the same ADMIN_EMAIL and ADMIN_PASSWORD, succeeds and changes nothing.
  pub run_twice :
      (email pass : Option String) (w w' : World U O)
      → UniqueEmails w.users
      → run env email pass w ≡ (ok tt, w')
      → run env email pass w' ≡ (ok tt, w')
  unfolding run
  run_twice email pass w w' unique done = go (present email) (present pass) done
    where
      go :
          (e p : Option String)
          → with_credentials env e p w ≡ (ok tt, w')
          → with_credentials env e p w' ≡ (ok tt, w')
      go none none h = refl
      go none (some p) h = refl
      go (some e) none h = refl
      go (some e) (some p) h =
          settled e p w'
            (reconciled-IsSettled e p w w' (find_by_email env (some e) w) unique refl h)
