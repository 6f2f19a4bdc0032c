-- ===== src/Outbox.antt =====
-- The transactional outbox: libs/common/src/entities/outbox.entity.ts, and the write side,
-- libs/common/src/outbox/outbox.service.ts.
pub mod Relay
mod Tests
use harvestledger.Base.{ℕ, ◌+◌, String, Option, none, List, [], ◌∷◌, ◌++◌}
use harvestledger.Base.Assoc.{insert}

-- A JSON object; `V` is the type of the values.
abbrev pub Payload : Type 0 → Type 0
Payload V = List (String × V)

-- A row of the table; `published_at` is `none` for NULL. `createdAt` is not read by any code.
pub record Row (V : Type 0) : Type 0 where
  pub id : ℕ
  pub pattern : String
  pub payload : Payload V
  pub published_at : Option ℕ
  pub attempts : ℕ

-- '_trace'
abbrev pub trace_carrier_key : String
trace_carrier_key = "_trace"

-- The trace context of the request, as OpenTelemetry injects it.
abbrev pub Carrier : Type 0
Carrier = List (String × String)

module _ {V : Type 0} (carrier_value : Carrier → V) where
  -- The payload that `enqueue` stores: `Object.keys(carrier).length` tells whether there is one.
  unfoldable pub stored_payload : Carrier → Payload V → Payload V
  stored_payload [] payload = payload
  stored_payload (h ∷ hs) payload = insert trace_carrier_key (carrier_value (h ∷ hs)) payload

  -- `OutboxService.enqueue`: the row that it saves, with the defaults of its columns. `id` is the
  -- value of the table's sequence.
  unfoldable pub enqueue : ℕ → Carrier → String → Payload V → List (Row V) → List (Row V)
  unfolding stored_payload
  enqueue id carrier pattern payload rows =
      rows
      ++ record {
        id = id;
        pattern = pattern;
        payload = stored_payload carrier payload;
        published_at = none;
        attempts = 0;
      }
        ∷ []
