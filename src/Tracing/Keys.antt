-- ===== src/Tracing/Keys.antt =====
-- The keys of Redis as `recordEvent` of apps/tracing/src/tracing.service.ts sets them.
use harvestledger.Base.{
  ℕ, ◌+◌, ◌*◌, ◌≤◌, ◌<◌, zero, suc, String, Bool, not, ◌&&◌, List, [], ◌∷◌, some, ◌≡◌, refl, arith,
  any, count, All, Option-cases, inl, inr,
}
use text.Mathlib.Text.{◌==◌ as str_eq}
use text.Mathlib.TextEquality.{eq_iff}
use harvestledger.Store.{bit}
use harvestledger.Tracing.{has, del, idem_ttl_seconds}
use harvestledger.Tracing.Steps.{pick}

-- The key is among the keys, expired or not.
unfoldable pub is_set : String → List (String × ℕ) → Bool
is_set k keys = any (λ e. str_eq e.0 k) keys

-- No key expires before `horizon`.
abbrev pub Outlast : ℕ → List (String × ℕ) → Type 0
Outlast horizon keys = All (λ e. horizon ≤ e.1) keys

abbrev pub ttl_ms : ℕ
ttl_ms = idem_ttl_seconds * 1000

pub is_set-del :
    (k j : String) (keys : List (String × ℕ))
    → is_set k (del j keys) ≡ (is_set k keys && not (str_eq j k))
unfolding is_set del
is_set-del k j [] = refl
is_set-del k j (x ∷ keys) =
    ground (arith, is_set-del k j keys, eq_iff x.0 k, eq_iff x.0 j, eq_iff j k)

pub has-Outlast :
    (horizon now : ℕ) (k : String) (keys : List (String × ℕ))
    → now < horizon
    → Outlast horizon keys
    → has now k keys ≡ is_set k keys
unfolding has is_set
has-Outlast horizon now k [] early h = refl
has-Outlast horizon now k (x ∷ keys) early h =
    ground (arith, has-Outlast horizon now k keys early h.1)

pub del-Outlast :
    (horizon : ℕ) (j : String) (keys : List (String × ℕ))
    → Outlast horizon keys
    → Outlast horizon (del j keys)
unfolding del
del-Outlast horizon j [] h = tt
del-Outlast horizon j (x ∷ keys) h = ground (arith, del-Outlast horizon j keys h.1)

-- What is picked is counted once.
pub count-pick :
    {A : Type 0} (p : A → Bool) (i : ℕ) (xs : List A) (x : A) (rest : List A)
    → pick i xs ≡ some (x, rest)
    → count p xs ≡ bit (p x) + count p rest
unfolding pick
count-pick p i [] x rest e = absurd (cc e)
count-pick p zero (y ∷ xs) x rest e = ground (arith, e)
count-pick p (suc i) (y ∷ xs) x rest e = elim (Option-cases (pick i xs)) [
  | inl gone ↦ absurd (cc (e, gone))
  | inr ((z, others), found) ↦ ground (arith, count-pick p i xs z others found, e, found)
]
