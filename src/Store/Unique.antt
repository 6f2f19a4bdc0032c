-- ===== src/Store/Unique.antt =====
-- What a search finds after an insertion that matches it alone.
use harvestledger.Base.{
  ℕ, Bool, true, some, List, [], ◌∷◌, length, All, ◌≡◌, sym, ap, arith, inl, inr, Bool-cases, ◌==◌,
}
use harvestledger.Store.{Table, IsTable}

only_one :
    {E : Type 0} (P : E → Type 0) (e : E) (xs : List E)
    → length xs ≡ 1
    → All P xs
    → ((x : E) → P x → x ≡ e)
    → xs ≡ e ∷ []
only_one P e [] h all same = absurd (omega (arith, h))
only_one P e (x ∷ []) h all same = ap (λ y. y ∷ []) (same x all.0)
only_one P e (x ∷ y ∷ xs) h all same = absurd (omega (arith, h))

pub find-insert :
    {S E : Type 0} (key : E → ℕ) (t : Table S E)
    → IsTable key t
    → (p : E → Bool) (mk : ℕ → E) (s s' : S) (e : E) → t.insert mk s ≡ some (e, s')
    → length (t.find p s) ≡ 0
    → p e ≡ true
    → t.find p s' ≡ e ∷ []
find-insert key t table p mk s s' e put free hit =
    let one : length (t.find p s') ≡ 1 =
      ground (arith, table.count-insert mk s s' e put p, free, hit) in
    only_one (λ x. (p x ≡ true) × (t.find_one (key x) s' ≡ some x)) e (t.find p s') one
      (table.find_sound p s')
      (λ x found. elim (Bool-cases (key x == key e)) [
        | inl same ↦
            let at = table.find_one-insert mk s s' e put (key x) in
            ground (arith, at, same, found.1)
        | inr other ↦
            let at = table.find_one-insert mk s s' e put (key x) in
            let old : t.find_one (key x) s ≡ some x = ground (arith, at, other, found.1) in
            absurd (table.find_complete p s (key x) x old found.0 (sym free))
      ])
