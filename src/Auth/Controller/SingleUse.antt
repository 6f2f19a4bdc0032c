-- ===== src/Auth/Controller/SingleUse.antt =====
-- Rotation of refresh tokens: one that has been presented is refused from then on.
use harvestledger.Base.{
  ℕ, ◌<◌, ◌≤◌, String, true, false, not, ◌&&◌, Option, none, some, List, [], ◌∷◌, ◌≡◌, ◌≢◌, refl,
  sym, ap, ◌∙◌, arith, inl, inr, Bool-cases, Option-cases,
}
use mathlib.Core.Path.{subst}
use text.Mathlib.Text.{◌==◌ as str_eq}
use text.Mathlib.TextEquality.{eq_iff}
use harvestledger.Http.{unauthorized}
use harvestledger.Effect.{ok, err, present}
use harvestledger.Auth.{Claims, access, refresh, forgot, jwt_refresh_secret, LoginUser}
use harvestledger.Auth.World.{World, Env, is_live, del_key}
use harvestledger.Auth.Sessions.{
  Tokens, refresh_key, issue_tokens, is_open, rotate, refresh_claims, refresh_token, revoked,
  refresh_ttl_seconds,
}
use harvestledger.Auth.Sessions.Keys.{
  has_key, is_live_of_absent, has_key-del_key, has_key-set_with_ttl, NoColon, refresh_key-inj,
}
use harvestledger.Auth.Controller.{Request, handle}
use harvestledger.Auth.Controller.Steps.{Preserves, IsKept}
use harvestledger.Auth.Controller.Kept.{handle-Preserves}
use harvestledger.Auth.Controller.OfTokens.{issue_tokens-Preserves}

module _ {U O File Data : Type 0} (env : Env U O File Data) where
  -- The state after the requests, each with the time when it is handled.
  unfoldable pub served : List (ℕ × Request File) → World U O → World U O
  served [] w = w
  served ((now, r) ∷ rs) w = served rs (handle env now r w).1

  pub served-Kept :
      (Q : World U O → Type 0)
      → IsKept env Q
      → (rs : List (ℕ × Request File)) (w : World U O) → Q w
      → Q (served rs w)
  unfolding served Preserves
  served-Kept Q kept [] w q = q
  served-Kept Q kept ((now, r) ∷ rs) w q =
      served-Kept Q kept rs (handle env now r w).1 (handle-Preserves env Q kept now r w q)

  -- Every key is one of a draw that has been made.
  abbrev Issued : World U O → Type 0
  Issued w =
      (key : String)
      → has_key key w.keys ≡ true
      → (n : ℕ) × (user : ℕ) × (n < w.draws) × (key ≡ refresh_key env user (env.uuid n))

  -- The key is not set, and is none of a draw to come.
  abbrev Spent : String → World U O → Type 0
  Spent key w =
      (has_key key w.keys ≡ false)
      × ((n user : ℕ) → w.draws ≤ n → refresh_key env user (env.uuid n) ≢ key)

  Spent-IsKept : (key : String) → IsKept env (Spent key)
  Spent-IsKept key = record {
    drawn = λ w q. (q.0, λ n user le. q.1 n user (omega arith));
    changed = λ w s q. q;
    stored = λ w o q. q;
    enqueued = λ w pattern payload own q. q;
    removed = λ w j q. (has_key-del_key key j w.keys ∙ ap (λ b. b && not (str_eq j key)) q.0, q.1);
    issued = λ w now user q.
        let other = q.1 w.draws user (omega arith) in
        (
          has_key-set_with_ttl now refresh_ttl_seconds key (refresh_key env user (env.uuid w.draws))
                w.keys
              ∙ ground (arith, q.0, other, eq_iff (refresh_key env user (env.uuid w.draws)) key),
          λ n u le. q.1 n u (omega arith),
        );
  }

  Issued-IsKept : IsKept env Issued
  Issued-IsKept = record {
    drawn = λ w q key h. let (n, u, lt, same) = q key h in (n, u, omega arith, same);
    changed = λ w s q. q;
    stored = λ w o q. q;
    enqueued = λ w pattern payload own q. q;
    removed = λ w j q key h. q key (ground (arith, sym (has_key-del_key key j w.keys) ∙ h));
    issued = λ w now user q key h.
        let key' = refresh_key env user (env.uuid w.draws) in
        elim (Bool-cases (str_eq key' key)) [
          | inl same ↦ (w.draws, user, omega arith, sym ((eq_iff key' key).0 same))
          | inr differ ↦
              let (n, u, lt, at) = q key (
                ground (
                  arith,
                  differ,
                  sym (has_key-set_with_ttl now refresh_ttl_seconds key key' w.keys) ∙ h,
                )) in
              (n, u, omega arith, at)
        ];
  }

  is_live-has_key :
      (now : ℕ) (key : String) (keys : List (String × ℕ))
      → is_live now key keys ≡ true
      → has_key key keys ≡ true
  is_live-has_key now key keys h = ground (arith, is_live_of_absent now key keys)

  is_open-has_key :
      (now user : ℕ) (jti : String) (w : World U O)
      → is_open env now user (present (some jti)) w ≡ true
      → has_key (refresh_key env user jti) w.keys ≡ true
  unfolding present
  is_open-has_key now user String.[] w h = absurd (cc h)
  is_open-has_key now user (String.◌∷◌ c s) w h =
      is_live-has_key now (refresh_key env user (String.◌∷◌ c s)) w.keys h

  pub rotate_open :
      (now : ℕ) (user : LoginUser) (jti : String) (w : World U O)
      → is_open env now user.id (present (some jti)) w ≡ true
      → rotate env now user jti w
        ≡ issue_tokens env now user
            (record w { keys = del_key (refresh_key env user.id jti) w.keys })
  unfolding rotate
  rotate_open now user jti w h = rw h

  rotate_closed :
      (now : ℕ) (user : LoginUser) (jti : String) (w : World U O)
      → is_open env now user.id (present (some jti)) w ≡ false
      → rotate env now user jti w ≡ (err revoked, w)
  unfolding rotate
  rotate_closed now user jti w h = rw h

  -- A token whose key is not set is refused.
  rotate_unset :
      (now : ℕ) (user : LoginUser) (jti : String) (w : World U O)
      → has_key (refresh_key env user.id jti) w.keys ≡ false
      → rotate env now user jti w ≡ (err revoked, w)
  rotate_unset now user jti w h =
      rotate_closed now user jti w (ground (arith, is_open-has_key now user.id jti w))

  module _ (clear : (n : ℕ) → NoColon (env.to_string n))
      (distinct : (m n : ℕ) → env.uuid m ≡ env.uuid n → m ≡ n) where
    -- After a rotation the key of the token that was presented is spent.
    rotate-Spent :
        (now : ℕ) (user : LoginUser) (jti : String) (w w' : World U O) (r : Tokens)
        → Issued w
        → rotate env now user jti w ≡ (ok r, w')
        → Spent (refresh_key env user.id jti) w'
    unfolding rotate Preserves
    rotate-Spent now user jti w w' r q h =
        let key = refresh_key env user.id jti in
        elim (Bool-cases (is_open env now user.id (present (some jti)) w)) [
          | inl open_ ↦
              let (n, u, lt, same) = q key (is_open-has_key now user.id jti w open_) in
              let v = record w { keys = del_key key w.keys } in
              let unset : has_key key v.keys ≡ false =
                has_key-del_key key key w.keys ∙ ground (arith, eq_iff key key) in
              let past : (m x : ℕ) → w.draws ≤ m → refresh_key env x (env.uuid m) ≢ key =
                λ m x le e. ground (
                  arith,
                  distinct m n (refresh_key-inj env clear x u (env.uuid m) (env.uuid n) (e ∙ same)),
                ) in
              let end : (issue_tokens env now user v).1 ≡ w' =
                ap (λ p. p.1) (sym (rotate_open now user jti w open_) ∙ h) in
              subst (Spent key) end
                (issue_tokens-Preserves env (Spent key) (Spent-IsKept key) now user v (unset, past))
          | inr closed ↦ absurd (cc (rotate_closed now user jti w closed, h))
        ]

    -- A token that was taken is a refresh token, whose key is spent at the end.
    refresh_token-Spent :
        (now : ℕ) (t : String) (w w' : World U O) (r : Tokens)
        → Issued w
        → refresh_token env now (some t) w ≡ (ok r, w')
        → (user : LoginUser) × (jti : String) × (exp : ℕ) × (present (some t) ≡ some t)
          × (env.verify jwt_refresh_secret now t ≡ some (refresh user jti, exp))
          × Spent (refresh_key env user.id jti) w'
    unfolding refresh_token refresh_claims present
    refresh_token-Spent now String.[] w w' r q h = absurd (cc h)
    refresh_token-Spent now (String.◌∷◌ c s) w w' r q h =
        ends (env.verify jwt_refresh_secret now (String.◌∷◌ c s)) refl
      where
        ends :
            (o : Option (Claims × ℕ))
            → env.verify jwt_refresh_secret now (String.◌∷◌ c s) ≡ o
            → (user : LoginUser) × (jti : String) × (exp : ℕ) × (some (String.◌∷◌ c s)
                ≡ some (String.◌∷◌ c s))
              × (env.verify jwt_refresh_secret now (String.◌∷◌ c s) ≡ some (refresh user jti, exp))
              × Spent (refresh_key env user.id jti) w'
        ends none e = absurd (cc (h, e))
        ends (some (refresh user jti, exp)) e =
            (user, jti, exp, refl, e, rotate-Spent now user jti w w' r q (rw e at h))
        ends (some (access user, exp)) e = absurd (cc (h, e))
        ends (some (forgot _ _ _, exp)) e = absurd (cc (h, e))

    -- A refresh token whose key is spent is refused, and nothing changes.
    refresh_token_refused :
        (now : ℕ) (t : String) (user : LoginUser) (jti : String) (w : World U O)
        → present (some t) ≡ some t
        → ((claims : Claims) (exp : ℕ)
            → env.verify jwt_refresh_secret now t ≡ some (claims, exp)
            → claims ≡ refresh user jti)
        → Spent (refresh_key env user.id jti) w
        → (m : String) × (refresh_token env now (some t) w ≡ (err (unauthorized m), w))
    unfolding refresh_token refresh_claims
    refresh_token_refused now t user jti w filled stable spent =
        elim (Option-cases (env.verify jwt_refresh_secret now t)) [
          | inl invalid ↦ ("Invalid refresh token", rw (filled, invalid))
          | inr ((claims, exp), valid) ↦ (
            "Refresh token has been revoked",
            rw (filled, valid, stable claims exp valid, rotate_unset now user jti w spent.0),
          )
        ]

    -- Where requests are handled one after another, from a state in which no key of Redis is set, and
    -- after any requests, a refresh token that is accepted is refused with 401 ever after, whatever
    -- requests come in between, and such a refusal changes nothing: where the ids of tokens differ and
    -- numbers are printed without colons, and where a token has the same claims whenever it is valid.
    pub refresh_token-single_use :
        (earlier later : List (ℕ × Request File)) (now now' : ℕ) (t : String) (w w' : World U O)
        (r : Tokens)
        → ((at at' : ℕ) (c c' : Claims) (exp exp' : ℕ)
            → env.verify jwt_refresh_secret at t ≡ some (c, exp)
            → env.verify jwt_refresh_secret at' t ≡ some (c', exp')
            → c' ≡ c)
        → w.keys ≡ []
        → refresh_token env now (some t) (served earlier w) ≡ (ok r, w')
        → (m : String) × (refresh_token env now' (some t) (served later w')
            ≡ (err (unauthorized m), served later w'))
    unfolding has_key
    refresh_token-single_use earlier later now now' t w w' r stable empty taken =
        let issued : Issued (served earlier w) =
          served-Kept Issued Issued-IsKept earlier w
            (λ key h. absurd (cc (sym (ap (has_key key) empty) ∙ h))) in
        let (user, jti, exp, filled, valid, spent) =
          refresh_token-Spent now t (served earlier w) w' r issued taken in
        refresh_token_refused now' t user jti (served later w') filled
          (λ c exp' h. stable now now' (refresh user jti) c exp exp' valid h)
          (served-Kept (Spent (refresh_key env user.id jti))
            (Spent-IsKept (refresh_key env user.id jti)) later w' spent)
