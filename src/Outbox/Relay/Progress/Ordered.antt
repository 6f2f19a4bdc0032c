-- ===== src/Outbox/Relay/Progress/Ordered.antt =====
-- A batch holds the rows with the smallest ids: the SELECT of `drainOnce` of
-- libs/common/src/outbox/base-outbox-relay.service.ts.
use harvestledger.Base.{
  ℕ, zero, suc, ◌≤◌, ◌<◌, ◌≡◌, refl, Bool, ◌&&◌, List, [], ◌∷◌, arith, All, All-map, take, keep,
  count, leb, Bool-cases, inl, inr,
}
use harvestledger.Outbox.{Row}
use harvestledger.Outbox.Relay.{
  batch_size, is_pending, is_free, select_batch, insert_row, order_by_id,
}
use harvestledger.Outbox.Relay.Progress.{unlocked}

module _ {V : Type 0} where
  -- ORDER BY id
  abbrev IsOrdered : List (Row V) → Type 0
  IsOrdered [] = Unit
  IsOrdered (r ∷ rs) = All (λ x. r.id ≤ x.id) rs × IsOrdered rs

  All-insert_row :
      (n : ℕ) (r : Row V) (rs : List (Row V))
      → n ≤ r.id
      → All (λ x. n ≤ x.id) rs
      → All (λ x. n ≤ x.id) (insert_row r rs)
  unfolding insert_row
  All-insert_row n r [] h a = (h, tt)
  All-insert_row n r (x ∷ xs) h a = ground (arith, All-insert_row n r xs h a.1)

  insert_row-IsOrdered :
      (r : Row V) (rs : List (Row V)) → IsOrdered rs → IsOrdered (insert_row r rs)
  unfolding insert_row
  insert_row-IsOrdered r [] h = (tt, tt)
  insert_row-IsOrdered r (x ∷ xs) h = elim (Bool-cases (leb r.id x.id)) [
    | inl before ↦
        let first : r.id ≤ x.id = ground arith in
        rw before (
          (
            first,
            All-map xs (λ (y : Row V) (later : x.id ≤ y.id). omega (arith, first, later)) h.0,
          ),
          h,
        )
    | inr after ↦
        let first : x.id ≤ r.id = ground arith in
        rw after (All-insert_row x.id r xs first h.0, insert_row-IsOrdered r xs h.1)
  ]

  order_by_id-IsOrdered : (rs : List (Row V)) → IsOrdered (order_by_id rs)
  unfolding order_by_id
  order_by_id-IsOrdered [] = tt
  order_by_id-IsOrdered (r ∷ rs) =
      insert_row-IsOrdered r (order_by_id rs) (order_by_id-IsOrdered rs)

  count-insert_row :
      (p : Row V → Bool) (r : Row V) (rs : List (Row V))
      → count p (insert_row r rs) ≡ count p (r ∷ rs)
  unfolding insert_row
  count-insert_row p r [] = refl
  count-insert_row p r (x ∷ xs) = ground (arith, count-insert_row p r xs)

  count-order_by_id : (p : Row V → Bool) (rs : List (Row V)) → count p (order_by_id rs) ≡ count p rs
  unfolding order_by_id
  count-order_by_id p [] = refl
  count-order_by_id p (r ∷ rs) =
      ground (arith, count-insert_row p r (order_by_id rs), count-order_by_id p rs)

  count-keep :
      (p q : Row V → Bool) (rs : List (Row V)) → count p (keep q rs) ≡ count (λ r. q r && p r) rs
  count-keep p q [] = refl
  count-keep p q (r ∷ rs) = ground (arith, count-keep p q rs)

  -- Nothing is below what all rows are above.
  count-above :
      (k n : ℕ) (rs : List (Row V))
      → k < n
      → All (λ x. n ≤ x.id) rs
      → count (λ x. leb x.id k) rs ≡ 0
  count-above k n [] h a = refl
  count-above k n (r ∷ rs) h a = ground (arith, count-above k n rs h a.1, a.0)

  -- The first `n` of ordered rows are those of small ids, where there are that many.
  take-IsOrdered :
      (k n : ℕ) (rs : List (Row V))
      → IsOrdered rs
      → n ≤ count (λ x. leb x.id k) rs
      → All (λ x. x.id ≤ k) (take n rs)
  take-IsOrdered k zero rs o h = tt
  take-IsOrdered k (suc n) [] o h = tt
  take-IsOrdered k (suc n) (r ∷ rs) o h = elim (Bool-cases (leb r.id k)) [
    | inl small ↦ (ground arith, take-IsOrdered k n rs o.1 (ground (arith, h, small)))
    | inr large ↦
        let above : k < r.id = ground arith in
        absurd (ground (arith, h, large, count-above k r.id rs above o.0))
  ]

  -- The pending rows with ids up to `k`.
  abbrev pub pending_to : ℕ → List (Row V) → ℕ
  pending_to k rs = count (λ r. is_pending r && leb r.id k) rs

  count-free_to :
      (k : ℕ) (rs : List (Row V))
      → count (λ r. is_free unlocked r && leb r.id k) rs ≡ pending_to k rs
  count-free_to k [] = refl
  count-free_to k (r ∷ rs) = ground (arith, count-free_to k rs)

  pub select_batch-small :
      (k : ℕ) (rs : List (Row V))
      → batch_size ≤ pending_to k rs
      → All (λ x. x.id ≤ k) (select_batch unlocked rs)
  unfolding select_batch
  select_batch-small k rs h =
      let free = keep (is_free unlocked) rs in
      take-IsOrdered k batch_size (order_by_id free) (order_by_id-IsOrdered free) (
        rw
          (
            count-order_by_id (λ x. leb x.id k) free,
            count-keep (λ x. leb x.id k) (is_free unlocked) rs,
            count-free_to k rs,
          )
          h)
