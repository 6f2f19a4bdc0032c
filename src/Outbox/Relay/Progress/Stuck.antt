-- ===== src/Outbox/Relay/Progress/Stuck.antt =====
-- Rows with no registered target are not passed over: `drainOnce` of
-- libs/common/src/outbox/base-outbox-relay.service.ts selects them again at every tick.
use harvestledger.Base.{
  ℕ, suc, ◌+◌, ◌≤◌, ◌<◌, ◌≡◌, refl, ap, ◌∙◌, String, Bool, true, false, ◌&&◌, List, [], none, ◌∷◌,
  arith, All, All-map, All-map₂, All-append, count, count-append, leb,
}
use harvestledger.Outbox.{Row, Payload, Carrier, enqueue, stored_payload}
use harvestledger.Outbox.Relay.{
  batch_size, is_pending, is_free, Targets, clients_for, Relay, drain, select_batch,
}
use harvestledger.Outbox.Relay.Rows.{All-select_batch, pending}
use harvestledger.Outbox.Relay.Progress.{unlocked, drain-unroutable}
use harvestledger.Outbox.Relay.Progress.Ordered.{pending_to, select_batch-small}

-- What happens to an outbox: a tick of the relay at a time, whose transaction commits or not, or an
-- `enqueue`, by the value of the sequence.
pub data Turn (V : Type 0) : Type 0 where
  tick : (now : ℕ) (commits : Bool) → Turn V
  enqueues : (id : ℕ) → Carrier → String → Payload V → Turn V

-- The ids of the new rows are above `k`.
abbrev pub IsAbove : {V : Type 0} → ℕ → Turn V → Type 0
IsAbove k (tick _ _) = Unit
IsAbove k (enqueues id _ _ _) = k < id

abbrev pub is_enqueue : {V : Type 0} → Turn V → Bool
is_enqueue (tick _ _) = false
is_enqueue (enqueues _ _ _ _) = true

module _ {V : Type 0} (carrier_value : Carrier → V) where
  -- The table where every `enqueue` of the list is done and no tick.
  unfoldable pub enqueued : List (Turn V) → List (Row V) → List (Row V)
  enqueued [] rows = rows
  enqueued (tick _ _ ∷ xs) rows = enqueued xs rows
  enqueued (enqueues id carrier pattern payload ∷ xs) rows =
      enqueued xs (enqueue carrier_value id carrier pattern payload rows)

module _ {V Client : Type 0} (targets : Targets Client) where
  -- The pending rows with ids up to `k` have no target, and they fill a batch.
  pub record IsBlocked (k : ℕ) (rows : List (Row V)) : Type 0 where
    pub unroutable :
        All (λ r. is_pending r ≡ true → r.id ≤ k → clients_for targets r.pattern ≡ []) rows
    pub full : batch_size ≤ pending_to k rows

module _ {V Client Broker : Type 0} (emit : Client → String → Payload V → Broker → Bool × Broker)
    (targets : Targets Client) (carrier_value : Carrier → V) where
  unfoldable pub turn : Turn V → Relay emit → Relay emit
  turn (tick now commits) s = drain emit targets true commits now unlocked s
  turn (enqueues id carrier pattern payload) s = record s {
    rows = enqueue carrier_value id carrier pattern payload s.rows;
  }

  unfoldable pub turns : List (Turn V) → Relay emit → Relay emit
  turns [] s = s
  turns (x ∷ xs) s = turns xs (turn x s)

  enqueue-IsBlocked :
      (k id : ℕ) (carrier : Carrier) (pattern : String) (payload : Payload V) (rows : List (Row V))
      → k < id
      → IsBlocked targets k rows
      → IsBlocked targets k (enqueue carrier_value id carrier pattern payload rows)
        × (pending (enqueue carrier_value id carrier pattern payload rows) ≡ suc (pending rows))
  unfolding enqueue pending
  enqueue-IsBlocked k id carrier pattern payload rows above h =
      let new : Row V = record {
        id = id;
        pattern = pattern;
        payload = stored_payload carrier_value carrier payload;
        published_at = none;
        attempts = 0;
      } in
      (
        record {
          unroutable =
              All-append _ rows (new ∷ []) h.unroutable
                ((λ e below. absurd (omega (arith, above, below))), tt);
          full =
              omega (arith, h.full, count-append (λ r. is_pending r && leb r.id k) rows (new ∷ []));
        },
        ground (arith, count-append is_pending rows (new ∷ [])),
      )

  tick-IsBlocked :
      (k now : ℕ) (commits : Bool) (s : Relay emit)
      → s.draining ≡ false
      → IsBlocked targets k s.rows
      → drain emit targets true commits now unlocked s ≡ s
  tick-IsBlocked k now commits s idle h =
      drain-unroutable emit targets commits now unlocked s idle (
        All-map₂ (select_batch unlocked s.rows)
          (λ (r : Row V) (small : r.id ≤ k)
              (none_for : r.id ≤ k → clients_for targets r.pattern ≡ []).
            none_for small)
          (select_batch-small k s.rows h.full)
          (All-select_batch (λ r. r.id ≤ k → clients_for targets r.pattern ≡ []) unlocked s.rows
            (All-map s.rows
              (λ (r : Row V)
                  (u : is_pending r ≡ true → r.id ≤ k → clients_for targets r.pattern ≡ [])
                  (free : is_free unlocked r ≡ true).
                u (ground (arith, free)))
              h.unroutable)))

  -- Rows with no registered target are never passed over: from when 20 pending rows with ids up to
  -- `k` have none, and all pending rows with such ids have none, an idle relay, of whose rows no other
  -- replica holds any, publishes nothing any more and emits nothing: after any ticks, and any events
  -- that are enqueued in between with greater ids, the table is the one at the start with the new rows,
  -- and as many rows more are pending as were enqueued.
  pub turns-stuck :
      (k : ℕ) (xs : List (Turn V)) (s : Relay emit)
      → s.draining ≡ false
      → IsBlocked targets k s.rows
      → All (IsAbove k) xs
      → (turns xs s ≡ record s { rows = enqueued carrier_value xs s.rows })
        × (pending (turns xs s).rows ≡ pending s.rows + count is_enqueue xs)
  unfolding turns turn enqueued
  turns-stuck k [] s idle h above = (refl, omega arith)
  turns-stuck k (tick now commits ∷ xs) s idle h above =
      let step = tick-IsBlocked k now commits s idle h in
      let (same, counted) = turns-stuck k xs s idle h above.1 in
      (ap (turns xs) step ∙ same, ap (λ v. pending (turns xs v).rows) step ∙ counted)
  turns-stuck k (enqueues id carrier pattern payload ∷ xs) s idle h above =
      let (h', more) = enqueue-IsBlocked k id carrier pattern payload s.rows above.0 h in
      let s' : Relay emit = record s {
        rows = enqueue carrier_value id carrier pattern payload s.rows;
      } in
      let (same, counted) = turns-stuck k xs s' idle h' above.1 in
      (same, omega (arith, more, counted))
