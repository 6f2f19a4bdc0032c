-- ===== src/Auth/Sessions/Keys.antt =====
-- The keys of refresh tokens in Redis: what `exists` finds after `setWithTtl` and `del`, and that the
-- keys of two draws differ.
use Prim.Native.String
use Prim.Native.Char.{Char, code}
use harvestledger.Base.{
  ℕ, String, Bool, false, not, ◌&&◌, ◌||◌, List, [], ◌∷◌, ◌≡◌, ◌≢◌, refl, sym, ap, ◌∙◌, arith, any,
}
use text.Mathlib.Text.{◌==◌ as str_eq}
use text.Mathlib.TextEquality.{eq_iff}
use text.Mathlib.TextLemmas.{
  append_cancel_left, head-eq_of_cons-eq, tail-eq_of_cons-eq, nil-append, cons-append,
}
use harvestledger.Auth.World.{Env, is_live, del_key, set_with_ttl}
use harvestledger.Auth.Sessions.{refresh_key}

-- A key is set, expired or not.
unfoldable pub has_key : String → List (String × ℕ) → Bool
has_key key keys = any (λ e. str_eq e.0 key) keys

pub is_live_of_absent :
    (now : ℕ) (key : String) (keys : List (String × ℕ))
    → has_key key keys ≡ false
    → is_live now key keys ≡ false
unfolding has_key is_live
is_live_of_absent now key [] h = refl
is_live_of_absent now key (e ∷ keys) h = ground (arith, is_live_of_absent now key keys)

pub has_key-del_key :
    (key j : String) (keys : List (String × ℕ))
    → has_key key (del_key j keys) ≡ (has_key key keys && not (str_eq j key))
unfolding has_key del_key
has_key-del_key key j [] = refl
has_key-del_key key j (e ∷ keys) =
    ground (arith, has_key-del_key key j keys, eq_iff e.0 key, eq_iff e.0 j, eq_iff j key)

pub has_key-set_with_ttl :
    (now ttl_seconds : ℕ) (key j : String) (keys : List (String × ℕ))
    → has_key key (set_with_ttl now j ttl_seconds keys) ≡ (str_eq j key || has_key key keys)
unfolding set_with_ttl has_key
has_key-set_with_ttl now ttl_seconds key j keys = ground (arith, has_key-del_key key j keys)

-- No colon occurs in the text.
abbrev pub NoColon : String → Type 0
NoColon String.[] = Unit
NoColon (String.◌∷◌ c s) = (code c ≢ b':') × NoColon s

abbrev colon : Char
colon = ":"

colon-append : (x : String) → String.◌++◌ ":" x ≡ String.◌∷◌ colon x
colon-append x = cons-append colon "" x ∙ ap (λ s. String.◌∷◌ colon s) (nil-append x)

-- Two texts with one colon after a part that has none.
after_colon :
    (a b x y : String)
    → NoColon a
    → NoColon b
    → String.◌++◌ a (String.◌∷◌ colon x) ≡ String.◌++◌ b (String.◌∷◌ colon y)
    → x ≡ y
after_colon String.[] String.[] x y ha hb e =
    tail-eq_of_cons-eq (sym (nil-append _) ∙ e ∙ nil-append _)
after_colon String.[] (String.◌∷◌ c b) x y ha hb e =
    absurd (hb.0 (ap code (sym (head-eq_of_cons-eq (sym (nil-append _) ∙ e ∙ cons-append c b _)))))
after_colon (String.◌∷◌ c a) String.[] x y ha hb e =
    absurd (ha.0 (ap code (head-eq_of_cons-eq (sym (cons-append c a _) ∙ e ∙ nil-append _))))
after_colon (String.◌∷◌ c a) (String.◌∷◌ d b) x y ha hb e =
    after_colon a b x y ha.1 hb.1
      (tail-eq_of_cons-eq (sym (cons-append c a _) ∙ e ∙ cons-append d b _))

-- The key of a token determines the token's id, if numbers are printed without colons.
pub refresh_key-inj :
    {U O File Data : Type 0} (env : Env U O File Data)
    → ((n : ℕ) → NoColon (env.to_string n))
    → (u v : ℕ) (i j : String) → refresh_key env u i ≡ refresh_key env v j
    → i ≡ j
unfolding refresh_key
refresh_key-inj env clear u v i j e =
    let ends = append_cancel_left "refresh:" _ _ e in
    after_colon (env.to_string u) (env.to_string v) i j (clear u) (clear v) (
      ap (String.◌++◌ (env.to_string u)) (sym (colon-append i))
      ∙ ends
      ∙ ap (String.◌++◌ (env.to_string v)) (colon-append j))
