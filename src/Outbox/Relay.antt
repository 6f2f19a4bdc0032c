-- ===== src/Outbox/Relay.antt =====
-- The read side of the outbox: libs/common/src/outbox/base-outbox-relay.service.ts. The SQL
-- statements are read as PostgreSQL runs them on a table; the transaction, the clients and the rows
-- locked by other replicas are parameters.
pub mod Rows
pub mod Laws
pub mod Delivered
pub mod Progress
use harvestledger.Base.{
  ℕ, suc, ◌+◌, String, Bool, true, false, not, ◌&&◌, Option, none, some, List, [], ◌∷◌, leb, ◌==◌,
  if◌then◌else◌, is_some, or_else, take, keep,
}
use harvestledger.Base.Assoc.{lookup, erase}
use harvestledger.Outbox.{Row, Payload, trace_carrier_key}
use text.Mathlib.Text.{◌==◌ as str_eq}

-- BATCH_SIZE
abbrev pub batch_size : ℕ
batch_size = 20

-- `OutboxTargets`: one client for all patterns, or a table of clients by pattern.
pub data Targets (Client : Type 0) : Type 0 where
  single : Client → Targets Client
  routes : List (String × List Client) → Targets Client

-- `clientsFor`
unfoldable pub clients_for : {Client : Type 0} → Targets Client → String → List Client
unfolding lookup
clients_for (single client) pattern = client ∷ []
clients_for (routes table) pattern = or_else (lookup pattern table) []

module _ {V : Type 0} where
  -- ORDER BY id
  insert_row : Row V → List (Row V) → List (Row V)
  insert_row r [] = r ∷ []
  insert_row r (x ∷ xs) =
      let rest = insert_row r xs in if leb r.id x.id then r ∷ x ∷ xs else x ∷ rest

  pub order_by_id : List (Row V) → List (Row V)
  unfolding insert_row
  order_by_id [] = []
  order_by_id (r ∷ rs) = insert_row r (order_by_id rs)

  -- "publishedAt" IS NULL
  abbrev pub is_pending : Row V → Bool
  is_pending r = not (is_some r.published_at)

  abbrev pub is_free : (ℕ → Bool) → Row V → Bool
  is_free locked r = is_pending r && not (locked r.id)

  -- The SELECT of `drainOnce`: pending rows by id, LIMIT batch_size, FOR UPDATE SKIP LOCKED.
  unfoldable pub select_batch : (ℕ → Bool) → List (Row V) → List (Row V)
  unfolding order_by_id
  select_batch locked rows = take batch_size (order_by_id (keep (is_free locked) rows))

  -- UPDATE outbox SET "publishedAt" = now() WHERE id = $1
  pub mark_published : ℕ → ℕ → List (Row V) → List (Row V)
  mark_published now id [] = []
  mark_published now id (r ∷ rs) =
      (if r.id == id then record r { published_at = some now } else r) ∷ mark_published now id rs

  -- UPDATE outbox SET attempts = attempts + 1 WHERE id = $1
  pub bump_attempts : ℕ → List (Row V) → List (Row V)
  bump_attempts id [] = []
  bump_attempts id (r ∷ rs) =
      (if r.id == id then record r { attempts = r.attempts + 1 } else r) ∷ bump_attempts id rs

  -- What is emitted of a row: the payload without the trace context.
  pub emitted_payload : Row V → Payload V
  emitted_payload r = erase trace_carrier_key r.payload

-- `emit client pattern payload broker` is `firstValueFrom(client.emit(pattern, payload))`: whether it
-- completes, and the broker's state after it.
module _ {V Client Broker : Type 0}
    (emit : Client → String → Payload V → Broker → Bool × Broker) where
  -- The loop over the clients of one row, which a failure leaves.
  pub emit_all : List Client → String → Payload V → Broker → Bool × Broker
  emit_all [] pattern payload b = (true, b)
  emit_all (c ∷ cs) pattern payload b =
      let (done, b') = emit c pattern payload b in
      let rest = emit_all cs pattern payload b' in if done then rest else (false, b')

  -- What the loop over the batch changes: the table, the broker and `published`.
  pub record Work : Type 0 where
    pub rows : List (Row V)
    pub broker : Broker
    pub published : ℕ

  -- The `try` block of one row and its handler, for a row that has clients.
  publish_row : ℕ → Row V → List Client → Work → Work
  unfolding emit_all mark_published bump_attempts
  publish_row now r clients w =
      let (done, b') = emit_all clients r.pattern (emitted_payload r) w.broker in
      if done
      then record {
        rows = mark_published now r.id w.rows;
        broker = b';
        published = w.published + 1;
      }
      else record w { rows = bump_attempts r.id w.rows; broker = b' }

  -- The body of the loop: a row with no target stays as it is.
  pub process_row : ℕ → Row V → List Client → Work → Work
  unfolding publish_row
  process_row now r [] w = w
  process_row now r (c ∷ cs) w = publish_row now r (c ∷ cs) w

  pub process_batch : Targets Client → ℕ → List (Row V) → Work → Work
  process_batch targets now [] w = w
  process_batch targets now (r ∷ rs) w =
      process_batch targets now rs (process_row now r (clients_for targets r.pattern) w)

  -- `drainOnce` inside its transaction.
  pub drain_once : Targets Client → ℕ → (ℕ → Bool) → List (Row V) → Broker → Work
  drain_once targets now locked rows b =
      process_batch targets now (select_batch locked rows)
        (record { rows = rows; broker = b; published = 0 })

  -- A relay: its field `draining`, its table and the broker.
  pub record Relay : Type 0 where
    pub draining : Bool
    pub rows : List (Row V)
    pub broker : Broker

  -- `drain`: `enabled` is that the switch is not "false", and `commits` that the transaction
  -- commits. One that does not leaves the table as it was, but what was emitted stays emitted;
  -- its error is caught and logged.
  pub drain : Targets Client → Bool → Bool → ℕ → (ℕ → Bool) → Relay → Relay
  drain targets enabled commits now locked s =
      if not enabled
      then s
      else if s.draining
      then s
      else let w = drain_once targets now locked s.rows s.broker in
        record { draining = false; rows = if commits then w.rows else s.rows; broker = w.broker }
