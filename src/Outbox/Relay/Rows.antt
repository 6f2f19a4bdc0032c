-- ===== src/Outbox/Relay/Rows.antt =====
-- Facts about the rows of an outbox: how the two UPDATE statements change them, and what the
-- selection of a batch keeps.
use harvestledger.Base.{
  ℕ, zero, suc, ◌+◌, ◌≤◌, ◌≡◌, ◌≢◌, refl, sym, Bool, true, ◌&&◌, List, [], ◌∷◌, arith, take, keep,
  count, All, All-take, leb, ◌==◌, is_some, Bool-cases, inl, inr,
}
use harvestledger.Outbox.{Row}
use harvestledger.Outbox.Relay.{
  batch_size, is_pending, is_free, mark_published, bump_attempts, insert_row, order_by_id,
  select_batch,
}

module _ {V : Type 0} where
  -- A row keeps its event, stays published once it is, and its attempts do not fall.
  pub record Evolves (r r' : Row V) : Type 0 where
    pub same_id : r'.id ≡ r.id
    pub same_pattern : r'.pattern ≡ r.pattern
    pub same_payload : r'.payload ≡ r.payload
    pub stays_published : is_some r.published_at ≡ true → is_some r'.published_at ≡ true
    pub attempts_grow : r.attempts ≤ r'.attempts

  -- Row by row: no row is lost, added or moved.
  abbrev pub AllEvolve : List (Row V) → List (Row V) → Type 0
  AllEvolve [] [] = Unit
  AllEvolve (r ∷ rs) (r' ∷ rs') = Evolves r r' × AllEvolve rs rs'
  AllEvolve _ _ = ⊥

  pub AllEvolve-refl : (rs : List (Row V)) → AllEvolve rs rs
  AllEvolve-refl [] = tt
  AllEvolve-refl (r ∷ rs) = (ground arith, AllEvolve-refl rs)

  pub AllEvolve-trans :
      (rs ss ts : List (Row V)) → AllEvolve rs ss → AllEvolve ss ts → AllEvolve rs ts
  AllEvolve-trans [] [] [] h k = tt
  AllEvolve-trans (r ∷ rs) (s ∷ ss) (t ∷ ts) h k =
      (ground (arith, h.0, k.0), AllEvolve-trans rs ss ts h.1 k.1)
  AllEvolve-trans [] [] (_ ∷ _) h k = absurd k
  AllEvolve-trans [] (_ ∷ _) _ h k = absurd h
  AllEvolve-trans (_ ∷ _) [] _ h k = absurd h
  AllEvolve-trans (_ ∷ _) (_ ∷ _) [] h k = absurd k

  pub mark_published-AllEvolve :
      (now id : ℕ) (rs : List (Row V)) → AllEvolve rs (mark_published now id rs)
  unfolding mark_published
  mark_published-AllEvolve now id [] = tt
  mark_published-AllEvolve now id (r ∷ rs) = (ground arith, mark_published-AllEvolve now id rs)

  pub bump_attempts-AllEvolve : (id : ℕ) (rs : List (Row V)) → AllEvolve rs (bump_attempts id rs)
  unfolding bump_attempts
  bump_attempts-AllEvolve id [] = tt
  bump_attempts-AllEvolve id (r ∷ rs) = (ground arith, bump_attempts-AllEvolve id rs)

  -- The number of pending rows, and of those with a given id.
  unfoldable pub pending : List (Row V) → ℕ
  pending rs = count is_pending rs

  unfoldable pub pending_with : ℕ → List (Row V) → ℕ
  pending_with id rs = count (λ r. is_pending r && r.id == id) rs

  pub pending-mark_published :
      (now id : ℕ) (rs : List (Row V))
      → pending (mark_published now id rs) + pending_with id rs ≡ pending rs
  unfolding pending pending_with mark_published
  pending-mark_published now id [] = omega arith
  pending-mark_published now id (r ∷ rs) = ground (arith, pending-mark_published now id rs)

  pub pending_with-mark_published :
      (now id k : ℕ) (rs : List (Row V))
      → k ≢ id
      → pending_with k (mark_published now id rs) ≡ pending_with k rs
  unfolding pending_with mark_published
  pending_with-mark_published now id k [] h = refl
  pending_with-mark_published now id k (r ∷ rs) h =
      ground (arith, pending_with-mark_published now id k rs h)

  -- No row has the id `k`; the ids are distinct, as the table's primary key demands.
  abbrev pub Fresh : ℕ → List (Row V) → Type 0
  Fresh k = All (λ r. r.id ≢ k)

  abbrev pub Distinct : List (Row V) → Type 0
  Distinct [] = Unit
  Distinct (r ∷ rs) = Fresh r.id rs × Distinct rs

  Fresh-insert_row :
      (k : ℕ) (r : Row V) (rs : List (Row V)) → r.id ≢ k → Fresh k rs → Fresh k (insert_row r rs)
  unfolding insert_row
  Fresh-insert_row k r [] h f = (h, tt)
  Fresh-insert_row k r (x ∷ xs) h f = ground (arith, Fresh-insert_row k r xs h f.1)

  Distinct-insert_row :
      (r : Row V) (rs : List (Row V)) → Fresh r.id rs → Distinct rs → Distinct (insert_row r rs)
  unfolding insert_row
  Distinct-insert_row r [] f d = (tt, tt)
  Distinct-insert_row r (x ∷ xs) f d =
      ground
        (arith, Distinct-insert_row r xs f.1 d.1, Fresh-insert_row x.id r xs (λ e. f.0 (sym e)) d.0)

  Fresh-order_by_id : (k : ℕ) (rs : List (Row V)) → Fresh k rs → Fresh k (order_by_id rs)
  unfolding order_by_id
  Fresh-order_by_id k [] f = tt
  Fresh-order_by_id k (r ∷ rs) f =
      Fresh-insert_row k r (order_by_id rs) f.0 (Fresh-order_by_id k rs f.1)

  pub Distinct-order_by_id : (rs : List (Row V)) → Distinct rs → Distinct (order_by_id rs)
  unfolding order_by_id
  Distinct-order_by_id [] d = tt
  Distinct-order_by_id (r ∷ rs) d =
      Distinct-insert_row r (order_by_id rs) (Fresh-order_by_id r.id rs d.0)
        (Distinct-order_by_id rs d.1)

  Fresh-keep : (p : Row V → Bool) (k : ℕ) (rs : List (Row V)) → Fresh k rs → Fresh k (keep p rs)
  Fresh-keep p k [] f = tt
  Fresh-keep p k (r ∷ rs) f = ground (arith, Fresh-keep p k rs f.1)

  Distinct-keep : (p : Row V → Bool) (rs : List (Row V)) → Distinct rs → Distinct (keep p rs)
  Distinct-keep p [] d = tt
  Distinct-keep p (r ∷ rs) d = ground (arith, Distinct-keep p rs d.1, Fresh-keep p r.id rs d.0)

  Distinct-take : (n : ℕ) (rs : List (Row V)) → Distinct rs → Distinct (take n rs)
  Distinct-take zero rs d = tt
  Distinct-take (suc n) [] d = tt
  Distinct-take (suc n) (r ∷ rs) d = (All-take (λ x. x.id ≢ r.id) n rs d.0, Distinct-take n rs d.1)

  -- A batch has distinct ids.
  pub Distinct-select_batch :
      (locked : ℕ → Bool) (rs : List (Row V)) → Distinct rs → Distinct (select_batch locked rs)
  unfolding select_batch
  Distinct-select_batch locked rs d =
      Distinct-take batch_size _ (Distinct-order_by_id _ (Distinct-keep (is_free locked) rs d))

  -- The selection keeps what holds of every row.
  All-insert_row :
      (P : Row V → Type 0) (r : Row V) (rs : List (Row V))
      → P r
      → All P rs
      → All P (insert_row r rs)
  unfolding insert_row
  All-insert_row P r [] h f = (h, tt)
  All-insert_row P r (x ∷ xs) h f = elim (Bool-cases (leb r.id x.id)) [
    | inl before ↦ rw before (h, f)
    | inr after ↦ rw after (f.0, All-insert_row P r xs h f.1)
  ]

  All-order_by_id : (P : Row V → Type 0) (rs : List (Row V)) → All P rs → All P (order_by_id rs)
  unfolding order_by_id
  All-order_by_id P [] f = tt
  All-order_by_id P (r ∷ rs) f = All-insert_row P r (order_by_id rs) f.0 (All-order_by_id P rs f.1)

  All-keep :
      (P : Row V → Type 0) (p : Row V → Bool) (rs : List (Row V))
      → All (λ r. p r ≡ true → P r) rs
      → All P (keep p rs)
  All-keep P p [] f = tt
  All-keep P p (r ∷ rs) f = elim (Bool-cases (p r)) [
    | inl kept ↦ rw kept (f.0 kept, All-keep P p rs f.1)
    | inr left ↦ rw left (All-keep P p rs f.1)
  ]

  pub All-select_batch :
      (P : Row V → Type 0) (locked : ℕ → Bool) (rs : List (Row V))
      → All (λ r. is_free locked r ≡ true → P r) rs
      → All P (select_batch locked rs)
  unfolding select_batch
  All-select_batch P locked rs f =
      All-take P batch_size _ (All-order_by_id P _ (All-keep P (is_free locked) rs f))
