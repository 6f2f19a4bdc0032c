-- ===== src/Gateway/Reports/Access.antt =====
-- Who gets a report through the gateway.
use harvestledger.Base.{
  ℕ, ◌*◌, ◌<◌, String, Bool, true, false, Option, none, some, List, [], ◌∷◌, ◌++◌, ◌≡◌, inl, inr,
  refl, sym, ◌==◌, ==_iff, if◌then◌else◌,
}
use harvestledger.Base.Assoc.{lookup, insert}
use harvestledger.Http.{Exception}
use harvestledger.Http.Guards
use harvestledger.Http.Guards.{Chars, bearer, space, can_activate, roles_can_activate}
use harvestledger.Http.Guards.Laws.{can_activate_sound, roles_can_activate_iff}
use harvestledger.Effect.{Result, ok, err, Action, present}
use harvestledger.Auth.{LoginUser}
use harvestledger.UserProjection.{Projection, find_user}
use harvestledger.Report.{
  FarmTree, Report, Cache, is_admin, through_cache, generate_admin_report, generate_farmer_report,
}
use harvestledger.Gateway.{Verify, admitted}
use harvestledger.Gateway.Csv.{Cells}
use harvestledger.Gateway.Reports.{
  admin_content, farmer_content, roles, filed, allowed, admin_route, with_roles, serve_admin_report,
  serve_farmer_report,
}

-- The user of a token that has not expired.
abbrev pub IsUser : Verify → Option Chars → ℕ → LoginUser → Type 0
IsUser verify header now u =
    (jwt : Chars) × (exp : ℕ) × (header ≡ some (bearer ++ space ∷ jwt))
    × (verify jwt ≡ Guards.Result.ok (some exp, some u))
    × (now < exp * 1000)

token-IsUser :
    (verify : Verify) (header : Option Chars) (now : ℕ) (u : LoginUser)
    → can_activate verify header now ≡ Guards.Result.ok (some u)
    → IsUser verify header now u
token-IsUser verify header now u h =
    let (jwt, exp, shape, clear, verified, later) =
      can_activate_sound verify header now (some u) h in
    (jwt, exp, shape, verified, later)

-- What a handler says of its outcome: `Q` where it gives a file, and an unchanged cache where it throws.
abbrev pub Says : {X : Type 0} → Type 0 → Cache → Result X × Cache → Type 0
Says Q w (ok x, w') = Q
Says Q w (err e, w') = w' ≡ w

filed-Says :
    (Q : Type 0) (content : Report → List Cells) (w : Cache) (r : Result Report × Cache)
    → Says Q w r
    → Says Q w (filed content r)
filed-Says Q content w (ok x, w') h = h
filed-Says Q content w (err e, w') h = h

if_Says :
    (Q : Type 0) (w : Cache) (b : Bool) (x : Result Report × Cache) (e : Exception)
    → (b ≡ true → Says Q w x)
    → Says Q w (if b then x else (err e, w))
if_Says Q w true x e h = h refl
if_Says Q w false x e h = refl

module _ (parse : String → Report) (stringify : Report → String) (users : List Projection)
    (ts : List FarmTree) where
  through_cache-Says :
      (Q : Type 0) (key : String) (r : Report) (w : Cache)
      → Q
      → Says Q w (through_cache parse stringify key r w)
  unfolding through_cache
  through_cache-Says Q key r w q = go (present (lookup key w))
    where
      go :
          (o : Option String)
          → Says Q w (elim o as (λ _. Result Report × Cache) [
            | some text ↦ (ok (parse text), w)
            | none ↦ (ok r, insert key (stringify r) w)
          ])
      go none = q
      go (some text) = q

  admin-Says :
      (id : ℕ) (w : Cache)
      → Says
          (is_admin (find_user id users) ≡ true)
          w
          (generate_admin_report parse stringify users ts id w)
  unfolding generate_admin_report
  admin-Says id w =
      if_Says _ w (is_admin (find_user id users)) _ _ (λ h. through_cache-Says _ _ _ w h)

  farmer-Says :
      (to_string : ℕ → String) (id user : ℕ) (w : Cache)
      → Says (id ≡ user) w (generate_farmer_report parse stringify to_string ts id user w)
  unfolding generate_farmer_report
  farmer-Says to_string id user w =
      if_Says _ w (id == user) _ _ (λ h. through_cache-Says _ _ _ w ((==_iff id user).0 h))

  weaker :
      {P Q : Type 0} {X : Type 0} (w : Cache) (r : Result X × Cache)
      → (P → Q)
      → Says P w r
      → Says Q w r
  weaker w (ok x, w') f h = f h
  weaker w (err e, w') f h = h

  module _ (to_string : ℕ → String) (verify : Verify) (header : Option Chars) (now : ℕ)
      (w : Cache) where
    abbrev pub IsAdmin : Type 0
    IsAdmin =
        (u : LoginUser) × IsUser verify header now u
        × (u.rol ≡ some "admin")
        × (is_admin (find_user u.id users) ≡ true)

    abbrev pub IsFarmer : ℕ → Type 0
    IsFarmer id = (u : LoginUser) × IsUser verify header now u × (u.id ≡ id)

    role-admin :
        (u : LoginUser)
        → roles_can_activate roles (some u.rol) ≡ Guards.Result.ok true
        → u.rol ≡ some "admin"
    role-admin u h =
        let (rol, same, listed) = (roles_can_activate_iff "admin" [] (some u.rol)).0 h in
        elim listed [ inl is ↦ cc (same, is) | inr never ↦ absurd never ]

    -- The report of the admin is given only for a token that has not expired and whose user has the role
    -- admin both in the token and in the projection of the farms service, and the report of a farmer only
    -- for such a token of this farmer; a request that is refused leaves the cache as it was.
    pub serve_reports-Says :
        Says IsAdmin w (serve_admin_report parse stringify users ts verify header now w)
        × ((id : ℕ)
            → Says (IsFarmer id) w (
                serve_farmer_report parse stringify users ts to_string verify header now (ok id) w))
    unfolding serve_admin_report serve_farmer_report
    serve_reports-Says = (
      by_admin (can_activate verify header now) refl,
      λ id. by_farmer id (can_activate verify header now) refl,
    )
      where
        by_role :
            (u : LoginUser) (r : Guards.Result Bool)
            → can_activate verify header now ≡ Guards.Result.ok (some u)
            → roles_can_activate roles (some u.rol) ≡ r
            → Says IsAdmin w (allowed (admin_route parse stringify users ts (some u)) r w)
        by_role u (Guards.Result.err e) h k = refl
        by_role u (Guards.Result.ok false) h k = refl
        by_role u (Guards.Result.ok true) h k =
            filed-Says IsAdmin admin_content w
              (generate_admin_report parse stringify users ts u.id w)
              (weaker w (generate_admin_report parse stringify users ts u.id w)
                (λ own. (u, token-IsUser verify header now u h, role-admin u k, own))
                (admin-Says u.id w))

        by_none :
            (r : Guards.Result Bool)
            → Says IsAdmin w (allowed (admin_route parse stringify users ts none) r w)
        by_none (Guards.Result.err e) = refl
        by_none (Guards.Result.ok false) = refl
        by_none (Guards.Result.ok true) = refl

        by_admin :
            (r : Guards.Result (Option LoginUser))
            → can_activate verify header now ≡ r
            → Says IsAdmin w (with_roles parse stringify users ts r w)
        by_admin (Guards.Result.err e) h = refl
        by_admin (Guards.Result.ok none) h = by_none (roles_can_activate roles none)
        by_admin (Guards.Result.ok (some u)) h =
            by_role u (roles_can_activate roles (some u.rol)) h refl

        run : ℕ → ℕ → Action Cache (List Cells)
        run user id v =
            filed farmer_content (generate_farmer_report parse stringify to_string ts id user v)

        by_farmer :
            (id : ℕ) (r : Guards.Result (Option LoginUser))
            → can_activate verify header now ≡ r
            → Says (IsFarmer id) w (admitted run (ok id) r w)
        by_farmer id (Guards.Result.err e) h = refl
        by_farmer id (Guards.Result.ok none) h = refl
        by_farmer id (Guards.Result.ok (some u)) h =
            filed-Says (IsFarmer id) farmer_content w
              (generate_farmer_report parse stringify to_string ts id u.id w)
              (weaker w (generate_farmer_report parse stringify to_string ts id u.id w)
                (λ own. (u, token-IsUser verify header now u h, sym own))
                (farmer-Says to_string id u.id w))
