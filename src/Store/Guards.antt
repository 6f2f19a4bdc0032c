-- ===== src/Store/Guards.antt =====
-- Writes to the rows of one owner leave the rows of all others alone.
use harvestledger.Base.{ℕ, Option, some, ◌≡◌, ◌≢◌, sym, ◌∙◌, ap, ◌==◌, ==_iff, Bool-cases, inl, inr}
use harvestledger.Store.{Table, IsTable}

module _ {S E : Type 0} (t : Table S E) (own : E → Option ℕ) (user : ℕ) where
  -- Every row that is not the user's is found in `s'` as it is in `s`.
  abbrev pub Guards : S → S → Type 0
  Guards s s' =
      (k : ℕ) (e : E) → t.find_one k s ≡ some e → own e ≢ some user → t.find_one k s' ≡ some e

  module _ (key : E → ℕ) (laws : IsTable key t) {s s' : S} where
    pub insert-Guards : (mk : ℕ → E) (x : E) → t.insert mk s ≡ some (x, s') → Guards s s'
    insert-Guards mk x h k e found other =
        let after = laws.find_one-insert mk s s' x h k in
        let fresh = laws.insert_fresh mk s s' x h in
        elim (Bool-cases (k == key x)) [
          | inl same ↦
              let at_key : k ≡ key x = (==_iff k (key x)).0 same in
              absurd (cc (ap (λ j. t.find_one j s) at_key, fresh, found))
          | inr differ ↦ (rw differ at after) ∙ found
        ]

    pub save-Guards :
        (x old : E)
        → t.find_one (key x) s ≡ some old
        → own old ≡ some user
        → t.save x s ≡ some s'
        → Guards s s'
    save-Guards x old before mine h k e found other =
        let after = laws.find_one-save x s s' h k in
        elim (Bool-cases (k == key x)) [
          | inl same ↦
              let at_key : k ≡ key x = (==_iff k (key x)).0 same in
              let is_old : some e ≡ some old =
                sym found ∙ ap (λ j. t.find_one j s) at_key ∙ before in
              absurd (other (cc is_old))
          | inr differ ↦ (rw differ at after) ∙ found
        ]

    pub update-Guards :
        (j : ℕ) (f : E → E) (old : E)
        → t.find_one j s ≡ some old
        → own old ≡ some user
        → t.update j f s ≡ some s'
        → Guards s s'
    update-Guards j f old before mine h k e found other =
        let after = laws.find_one-update j f s s' h k in
        elim (Bool-cases (k == j)) [
          | inl same ↦
              let at_key : k ≡ j = (==_iff k j).0 same in
              let is_old : some e ≡ some old =
                sym found ∙ ap (λ i. t.find_one i s) at_key ∙ before in
              absurd (other (cc is_old))
          | inr differ ↦ (rw differ at after) ∙ found
        ]

    pub remove-Guards :
        (x : E)
        → t.find_one (key x) s ≡ some x
        → own x ≡ some user
        → t.remove x s ≡ some s'
        → Guards s s'
    remove-Guards x before mine h k e found other =
        let after = laws.find_one-remove x s s' h k in
        elim (Bool-cases (k == key x)) [
          | inl same ↦
              let at_key : k ≡ key x = (==_iff k (key x)).0 same in
              let is_old : some e ≡ some x = sym found ∙ ap (λ i. t.find_one i s) at_key ∙ before in
              absurd (other (cc is_old))
          | inr differ ↦ (rw differ at after) ∙ found
        ]
