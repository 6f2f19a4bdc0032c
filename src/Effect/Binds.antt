-- ===== src/Effect/Binds.antt =====
-- Taking a bind apart: what its two parts have done.
use harvestledger.Base.{◌≡◌, refl, sym, ap, ◌∙◌, ◌⊎◌, inl, inr}
use harvestledger.Http.{Exception}
use harvestledger.Effect.{Action, Result, ok, err, ◌>>=◌}

-- The rest of a bind, at what its first action has done.
abbrev pub after : {W X Y : Type 0} → (X → Action W Y) → Result X × W → Result Y × W
after k r = let (x, v) = r in elim x [ ok a ↦ k a v | err e ↦ (err e, v) ]

pub Result-cases :
    {W X : Type 0} (r : Result X × W)
    → ((e : Exception) × (v : W) × (r ≡ (err e, v))) ⊎ ((x : X) × (v : W) × (r ≡ (ok x, v)))
Result-cases (ok x, v) = inr (x, v, refl)
Result-cases (err e, v) = inl (e, v, refl)

pub bind_ok :
    {W X Y : Type 0} (m : Action W X) (k : X → Action W Y) (w w' : W) (y : Y)
    → (m >>= k) w ≡ (ok y, w')
    → (x : X) × (v : W) × (m w ≡ (ok x, v)) × (k x v ≡ (ok y, w'))
bind_ok m k w w' y h = elim (Result-cases (m w)) [
  | inl (e, v, same) ↦ absurd (cc (sym (ap (after k) same) ∙ h))
  | inr (x, v, same) ↦ (x, v, same, sym (ap (after k) same) ∙ h)
]

pub bind_err :
    {W X Y : Type 0} (m : Action W X) (k : X → Action W Y) (w w' : W) (e : Exception)
    → (m >>= k) w ≡ (err e, w')
    → (m w ≡ (err e, w')) ⊎ ((x : X) × (v : W) × (m w ≡ (ok x, v)) × (k x v ≡ (err e, w')))
bind_err m k w w' e h = elim (Result-cases (m w)) [
  | inl (e', v, same) ↦ inl (cc (sym (ap (after k) same) ∙ h, same))
  | inr (x, v, same) ↦ inr (x, v, same, sym (ap (after k) same) ∙ h)
]
