-- ===== src/Farms/Controller/Isolation/Steps.antt =====
-- Where the steps of a service end: rules for binds, assertions and guards.
use harvestledger.Base.{
  ℕ, String, Bool, true, false, Option, none, some, ◌≡◌, ◌≢◌, refl, sym, ap, arith, ◌⊎◌, inl, inr,
  Bool-cases, ◌==◌, ==_iff,
}
use mathlib.Core.Path.{subst, subst₂}
use harvestledger.Http.{Exception}
use harvestledger.Effect.Binds.{after, Result-cases}
use harvestledger.Farms.World.{Action, Result, ok, err, pure, throw_if, ◌>>=◌, ◌>>◌}
use harvestledger.Farms.Ownership.Laws.{Decides}

-- Where a bind ends, by where its two parts end.
pub bind_ends :
    {W X Y : Type 0} (P : W → Type 0) (m : Action W X) (k : X → Action W Y) (w : W)
    → ((e : Exception) (v : W) → m w ≡ (err e, v) → P v)
    → ((x : X) (v : W) → m w ≡ (ok x, v) → P (k x v).1)
    → P ((m >>= k) w).1
bind_ends {W = W} {X = X} P m k w on_err on_ok = elim (Result-cases (m w)) [
  | inl (e, v, same) ↦ subst (λ (r : Result X × W). P (after k r).1) (sym same) (on_err e v same)
  | inr (x, v, same) ↦ subst (λ (r : Result X × W). P (after k r).1) (sym same) (on_ok x v same)
]

-- A last step that only shapes the reply.
pub pure_ends :
    {W X Y : Type 0} (P : W → Type 0) (m : Action W X) (f : X → Y) (w : W)
    → P (m w).1
    → P ((m >>= λ x. pure (f x)) w).1
pure_ends P m f w h =
    bind_ends P m (λ x. pure (f x)) w (λ e v same. rw same at h) (λ x v same. rw same at h)

-- An assertion changes nothing, and its continuation runs only on the user's own row.
pub assertion_ends :
    {W X Y : Type 0} (P : W → Type 0) (missing : String) (user : ℕ) (own : X → Option ℕ)
    (o : Option X) (m : Action W X) (k : X → Action W Y) (w : W)
    → Decides missing user own o w (m w)
    → P w
    → ((x : X) → o ≡ some x → own x ≡ some user → P (k x w).1)
    → P ((m >>= k) w).1
assertion_ends P missing user own none m k w d h next =
    bind_ends P m k w (λ e v same. subst P (cc (d, same)) h) (λ x v same. absurd (cc (d, same)))
assertion_ends P missing user own (some x) m k w d h next = elim (own_cases (own x)) [
  | inl mine ↦
      bind_ends P m k w (λ e v same. absurd (cc (d.0 mine, same)))
        (λ x' v same.
          let same_row : x ≡ x' = cc (d.0 mine, same) in
          let same_state : w ≡ v = cc (d.0 mine, same) in
          subst₂ (λ a b. P (k a b).1) same_row same_state (next x refl mine))
  | inr other ↦
      bind_ends P m k w (λ e v same. subst P (cc (d.1 other, same)) h)
        (λ x' v same. absurd (cc (d.1 other, same)))
]
  where
    own_cases : (a : Option ℕ) → (a ≡ some user) ⊎ (a ≢ some user)
    own_cases none = inr (λ e. cc)
    own_cases (some k) = elim (Bool-cases (k == user)) [
      | inl same ↦ inl (ap some ((==_iff k user).0 same))
      | inr differ ↦ inr (λ e. ground arith)
    ]

pub throw_if_ends :
    {W Y : Type 0} (P : W → Type 0) (b : Bool) (e : Exception) (k : Action W Y) (w : W)
    → P w
    → P (k w).1
    → P ((throw_if b e >> k) w).1
throw_if_ends P true e k w h next = h
throw_if_ends P false e k w h next = next

pub unpure_ends :
    {W X : Type 0} (P : W → Type 0) (m : Action W X) (w : W) → P ((m >>= pure) w).1 → P (m w).1
unpure_ends {W = W} {X = X} P m w h = elim (Result-cases (m w)) [
  | inl (e, v, same) ↦
      subst (λ (r : Result X × W). P r.1) (sym same)
        (subst (λ (r : Result X × W). P (after pure r).1) same h)
  | inr (x, v, same) ↦
      subst (λ (r : Result X × W). P r.1) (sym same)
        (subst (λ (r : Result X × W). P (after pure r).1) same h)
]
