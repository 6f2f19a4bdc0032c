-- ===== src/Outbox/Relay/Progress.antt =====
-- How fast the relay drains its outbox, and where it is stuck: `drain` of
-- libs/common/src/outbox/base-outbox-relay.service.ts.
mod Ordered
pub mod Stuck
use harvestledger.Base.{
  ℕ, suc, ◌+◌, ◌-◌, ◌*◌, ◌≡◌, ◌≢◌, refl, ap, ◌∙◌, String, Bool, true, false, List, [], ◌∷◌, arith,
  All, All-map, length, length-take, keep, count,
}
use Prim.Native.Nat.{min}
use harvestledger.Outbox.{Row, Payload}
use harvestledger.Outbox.Relay.{
  batch_size, is_pending, is_free, Targets, clients_for, Work, Relay, emit_all, process_row,
  process_batch, drain_once, drain, select_batch, insert_row, order_by_id, mark_published,
  emitted_payload,
}
use harvestledger.Outbox.Relay.Rows.{
  AllEvolve, Fresh, Distinct, Distinct-select_batch, All-select_batch, pending, pending_with,
  pending-mark_published, pending_with-mark_published,
}
use harvestledger.Outbox.Relay.Laws.{drain-AllEvolve}

-- No other replica holds a row.
abbrev pub unlocked : ℕ → Bool
unlocked _ = false

module _ {V : Type 0} where
  length-insert_row : (r : Row V) (rs : List (Row V)) → length (insert_row r rs) ≡ suc (length rs)
  unfolding insert_row
  length-insert_row r [] = refl
  length-insert_row r (x ∷ xs) = ground (arith, length-insert_row r xs)

  length-order_by_id : (rs : List (Row V)) → length (order_by_id rs) ≡ length rs
  unfolding order_by_id
  length-order_by_id [] = refl
  length-order_by_id (r ∷ rs) =
      length-insert_row r (order_by_id rs) ∙ ap suc (length-order_by_id rs)

  length-keep : (p : Row V → Bool) (rs : List (Row V)) → length (keep p rs) ≡ count p rs
  length-keep p [] = refl
  length-keep p (r ∷ rs) = ground (arith, length-keep p rs)

  pending_with-Fresh : (k : ℕ) (rs : List (Row V)) → Fresh k rs → pending_with k rs ≡ 0
  unfolding pending_with
  pending_with-Fresh k [] f = refl
  pending_with-Fresh k (r ∷ rs) f = ground (arith, pending_with-Fresh k rs f.1)

  -- A pending row is the only one with its id.
  abbrev IsOnce : List (Row V) → Row V → Type 0
  IsOnce rows r = pending_with r.id rows ≡ 1

  IsOnce-Distinct :
      (locked : ℕ → Bool) (rs : List (Row V))
      → Distinct rs
      → All (λ r. is_free locked r ≡ true → IsOnce rs r) rs
  unfolding pending_with
  IsOnce-Distinct locked [] d = tt
  IsOnce-Distinct locked (x ∷ xs) d = (
    λ e. ground (arith, pending_with-Fresh x.id xs d.0),
    skip xs d.0 (IsOnce-Distinct locked xs d.1),
  )
    where
      skip :
          (ys : List (Row V))
          → Fresh x.id ys
          → All (λ r. is_free locked r ≡ true → IsOnce xs r) ys
          → All (λ r. is_free locked r ≡ true → IsOnce (x ∷ xs) r) ys
      skip [] f h = tt
      skip (y ∷ ys) f h = (λ e. ground (arith, h.0 e), skip ys f.1 h.1)

  count_free : (rs : List (Row V)) → count (is_free unlocked) rs ≡ count is_pending rs
  count_free [] = refl
  count_free (r ∷ rs) = ground (arith, count_free rs)

  Fresh-AllEvolve : (k : ℕ) (rs rs' : List (Row V)) → AllEvolve rs rs' → Fresh k rs → Fresh k rs'
  Fresh-AllEvolve k [] [] h f = tt
  Fresh-AllEvolve k (r ∷ rs) (r' ∷ rs') h f =
      (ground (arith, f.0, h.0), Fresh-AllEvolve k rs rs' h.1 f.1)
  Fresh-AllEvolve k [] (_ ∷ _) h f = absurd h
  Fresh-AllEvolve k (_ ∷ _) [] h f = absurd h

  Distinct-AllEvolve : (rs rs' : List (Row V)) → AllEvolve rs rs' → Distinct rs → Distinct rs'
  Distinct-AllEvolve [] [] h d = tt
  Distinct-AllEvolve (r ∷ rs) (r' ∷ rs') h d =
      (rw (h.0.same_id) (Fresh-AllEvolve r.id rs rs' h.1 d.0), Distinct-AllEvolve rs rs' h.1 d.1)
  Distinct-AllEvolve [] (_ ∷ _) h d = absurd h
  Distinct-AllEvolve (_ ∷ _) [] h d = absurd h

-- Every emit completes.
module _ {V Client Broker : Type 0} (emit : Client → String → Payload V → Broker → Bool × Broker)
    (targets : Targets Client)
    (reachable : (c : Client) (pattern : String) (payload : Payload V) (b : Broker)
      → (emit c pattern payload b).0 ≡ true) where
  -- Some target is registered for the row's pattern.
  abbrev pub IsRoutable : Row V → Type 0
  IsRoutable r = clients_for targets r.pattern ≢ []

  emit_all-reachable :
      (cs : List Client) (pattern : String) (payload : Payload V) (b : Broker)
      → (emit_all emit cs pattern payload b).0 ≡ true
  unfolding emit_all
  emit_all-reachable [] pattern payload b = refl
  emit_all-reachable (c ∷ cs) pattern payload b =
      rw (reachable c pattern payload b)
        (emit_all-reachable cs pattern payload (emit c pattern payload b).1)

  serve-rows :
      (now : ℕ) (r : Row V) (cs : List Client) (w : Work emit)
      → cs ≢ []
      → (process_row emit now r cs w).rows ≡ mark_published now r.id w.rows
  unfolding process_row
  serve-rows now r [] w h = absurd (h refl)
  serve-rows now r (c ∷ cs) w h =
      rw (emit_all-reachable (c ∷ cs) r.pattern (emitted_payload r) w.broker)

  process_batch-pending :
      (now : ℕ) (rs : List (Row V)) (w : Work emit)
      → Distinct rs
      → All IsRoutable rs
      → All (IsOnce w.rows) rs
      → pending (process_batch emit targets now rs w).rows + length rs ≡ pending w.rows
  unfolding process_batch
  process_batch-pending now [] w d routable once = omega arith
  process_batch-pending now (r ∷ rs) w d routable once =
      let w' = process_row emit now r (clients_for targets r.pattern) w in
      let marked = serve-rows now r (clients_for targets r.pattern) w routable.0 in
      let still : All (IsOnce w'.rows) rs = rw marked (others rs d.0 once.1) in
      omega (
        arith,
        process_batch-pending now rs w' d.1 routable.1 still,
        ap pending marked,
        pending-mark_published now r.id w.rows,
        once.0,
      )
    where
      others :
          (ys : List (Row V))
          → Fresh r.id ys
          → All (IsOnce w.rows) ys
          → All (IsOnce (mark_published now r.id w.rows)) ys
      others [] f h = tt
      others (y ∷ ys) f h =
          (pending_with-mark_published now r.id y.id w.rows f.0 ∙ h.0, others ys f.1 h.1)

  length-select_batch :
      (rs : List (Row V)) → length (select_batch unlocked rs) ≡ min batch_size (pending rs)
  unfolding select_batch pending
  length-select_batch rs =
      length-take batch_size (order_by_id (keep (is_free unlocked) rs))
      ∙ ap (λ k. min batch_size k)
          (length-order_by_id (keep (is_free unlocked) rs)
            ∙ length-keep (is_free unlocked) rs
            ∙ count_free rs)

  drain_once-pending :
      (now : ℕ) (rs : List (Row V)) (b : Broker)
      → Distinct rs
      → All IsRoutable rs
      → pending (drain_once emit targets now unlocked rs b).rows ≡ pending rs - batch_size
  unfolding drain_once
  drain_once-pending now rs b d routable = omega (
    arith,
    length-select_batch rs,
    process_batch-pending now (select_batch unlocked rs)
        (record { rows = rs; broker = b; published = 0 }) (Distinct-select_batch unlocked rs d)
        (All-select_batch IsRoutable unlocked rs (All-map rs (λ r h _. h) routable))
        (All-select_batch (IsOnce rs) unlocked rs (IsOnce-Distinct unlocked rs d)),
  )

  -- The scheduler's ticks, at the given times.
  pub ticks : List ℕ → Relay emit → Relay emit
  ticks [] s = s
  ticks (now ∷ later) s = ticks later (drain emit targets true true now unlocked s)

  drain-rows :
      (now : ℕ) (s : Relay emit)
      → s.draining ≡ false
      → (drain emit targets true true now unlocked s).rows
        ≡ (drain_once emit targets now unlocked s.rows s.broker).rows
  unfolding drain
  drain-rows now s idle = rw idle

  IsRoutable-AllEvolve :
      (rs rs' : List (Row V)) → AllEvolve rs rs' → All IsRoutable rs → All IsRoutable rs'
  IsRoutable-AllEvolve [] [] h a = tt
  IsRoutable-AllEvolve (r ∷ rs) (r' ∷ rs') h a =
      (rw (h.0.same_pattern) a.0, IsRoutable-AllEvolve rs rs' h.1 a.1)
  IsRoutable-AllEvolve [] (_ ∷ _) h a = absurd h
  IsRoutable-AllEvolve (_ ∷ _) [] h a = absurd h

  -- While the clients are reachable, the relay is switched on and idle, no other replica holds rows
  -- and each row has a registered target: every tick publishes a full batch of the pending rows, or
  -- all that are left. So `n` pending rows are gone after `n / 20` ticks, rounded up.
  pub pending-ticks :
      (times : List ℕ) (s : Relay emit)
      → s.draining ≡ false
      → Distinct s.rows
      → All IsRoutable s.rows
      → pending (ticks times s).rows ≡ pending s.rows - batch_size * length times
  unfolding ticks
  pending-ticks [] s idle d routable = omega arith
  pending-ticks (now ∷ later) s idle d routable =
      let s' = drain emit targets true true now unlocked s in
      let (evolved, guard) = drain-AllEvolve emit targets true true now unlocked s in
      omega (
        arith,
        ap pending (drain-rows now s idle),
        drain_once-pending now s.rows s.broker d routable,
        pending-ticks later s' (guard ∙ idle) (Distinct-AllEvolve s.rows s'.rows evolved d)
            (IsRoutable-AllEvolve s.rows s'.rows evolved routable),
      )

module _ {V Client Broker : Type 0} (emit : Client → String → Payload V → Broker → Bool × Broker)
    (targets : Targets Client) where
  process_batch_unroutable :
      (now : ℕ) (rs : List (Row V)) (w : Work emit)
      → All (λ r. clients_for targets r.pattern ≡ []) rs
      → process_batch emit targets now rs w ≡ w
  unfolding process_batch process_row
  process_batch_unroutable now [] w h = refl
  process_batch_unroutable now (r ∷ rs) w h = rw h.0 (process_batch_unroutable now rs w h.1)

  -- A batch in which no row has a registered target.
  drain-unroutable :
      (commits : Bool) (now : ℕ) (locked : ℕ → Bool) (s : Relay emit)
      → s.draining ≡ false
      → All (λ r. clients_for targets r.pattern ≡ []) (select_batch locked s.rows)
      → drain emit targets true commits now locked s ≡ s
  unfolding drain drain_once
  drain-unroutable commits now locked s idle h =
      rw
        (
          idle,
          process_batch_unroutable now (select_batch locked s.rows)
              (record { rows = s.rows; broker = s.broker; published = 0 }) h,
        )
        (ground arith)
