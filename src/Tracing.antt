-- ===== src/Tracing.antt =====
-- The tracing service: apps/tracing/src/tracing.service.ts and tracing.controller.ts, with
-- libs/common/src/schemas/tracing-event.schema.ts and the operations of
-- libs/common/src/services/redis.service.ts that it uses.
pub mod Steps
mod Keys
pub mod Once
mod Tests
use Prim.Native.String
use harvestledger.Base.{
  ℕ, ◌+◌, ◌*◌, String, Bool, true, false, not, ◌&&◌, Option, none, some, List, [], ◌∷◌, ◌++◌, keep,
  any, ltb, if◌then◌else◌,
}
use text.Mathlib.Text.{◌==◌ as str_eq}

pub data EventType : Type 0 where
  crop_initialized activity_created harvest_created : EventType

-- The text of an event type.
unfoldable pub type_name : EventType → String
type_name crop_initialized = "CROP_INITIALIZED"
type_name activity_created = "ACTIVITY_CREATED"
type_name harvest_created = "HARVEST_CREATED"

-- `TracingEventPayloadDto`; `V` is the type of the field `payload`.
pub record TracingEventPayloadDto (V : Type 0) : Type 0 where
  pub crop_id : ℕ
  pub farm_id : ℕ
  pub user_id : ℕ
  pub payload : V

-- A document of the collection "tracing_events".
pub record TracingEvent (V : Type 0) : Type 0 where
  pub event_type : EventType
  pub crop_id : ℕ
  pub farm_id : ℕ
  pub user_id : ℕ
  pub payload : V
  pub occurred_at : ℕ

-- The keys that are set in Redis, each with the time when it expires, and the collection. Times are
-- in milliseconds.
pub record Store (V : Type 0) : Type 0 where
  pub keys : List (String × ℕ)
  pub events : List (TracingEvent V)

pub data Recorded (V : Type 0) : Type 0 where
  deduped : Recorded V
  recorded : TracingEvent V → Recorded V
  -- The error of `save`, thrown again.
  failed : Recorded V

-- IDEM_TTL_SECONDS
abbrev pub idem_ttl_seconds : ℕ
idem_ttl_seconds = 24 * 60 * 60

-- Whether the key is set at time `now`.
unfoldable pub has : ℕ → String → List (String × ℕ) → Bool
has now k keys = any (λ e. str_eq e.0 k && ltb now e.1) keys

-- DEL
unfoldable pub del : String → List (String × ℕ) → List (String × ℕ)
del k keys = keep (λ e. not (str_eq e.0 k)) keys

-- `setIfAbsent` of redis.service.ts, SET key value EX ttl NX: whether the key was set, and the keys.
unfoldable pub set_if_absent : ℕ → String → ℕ → List (String × ℕ) → Bool × List (String × ℕ)
unfolding has del
set_if_absent now k ttl_seconds keys =
    if has now k keys then (false, keys) else (true, (k, now + ttl_seconds * 1000) ∷ del k keys)

-- `id` is the field `id` of a payload, and `to_string` prints a number in a template literal.
module _ {V : Type 0} (id : V → Option ℕ) (to_string : ℕ → String) where
  abbrev id_text : Option ℕ → String
  id_text none = "undefined"
  id_text (some n) = to_string n

  -- `idem:tracing:${eventType}:${entityId}`
  unfoldable pub idem_key : EventType → V → String
  unfolding type_name
  idem_key type payload =
      String.◌++◌ "idem:tracing:"
        (String.◌++◌ (type_name type) (String.◌++◌ ":" (id_text (id payload))))

  abbrev pub document : EventType → TracingEventPayloadDto V → ℕ → TracingEvent V
  document type data_ now = record {
    event_type = type;
    crop_id = data_.crop_id;
    farm_id = data_.farm_id;
    user_id = data_.user_id;
    payload = data_.payload;
    occurred_at = now;
  }

  -- `recordEvent` up to the answer of `setIfAbsent`: whether this delivery is the first, and the
  -- state.
  unfoldable pub claim : ℕ → EventType → TracingEventPayloadDto V → Store V → Bool × Store V
  unfolding set_if_absent
  claim now type data_ s =
      let (first_time, keys') =
        set_if_absent now (idem_key type data_.payload) idem_ttl_seconds s.keys in
      (first_time, record s { keys = keys' })

  -- The `try` block and its handler, after the claim; `saves` says whether MongoDB takes the document.
  unfoldable pub save_event :
      Bool → ℕ → EventType → TracingEventPayloadDto V → Store V → Recorded V × Store V
  unfolding del
  save_event true now type data_ s = (
    recorded (document type data_ now),
    record s { events = s.events ++ document type data_ now ∷ [] },
  )
  save_event false now type data_ s =
      (failed, record s { keys = del (idem_key type data_.payload) s.keys })

  -- `recordEvent` where nothing else runs between the claim and the save; Tracing.Steps has them
  -- apart. The two times are those of the claim and of the save.
  unfoldable pub record_event :
      Bool → ℕ → ℕ → EventType → TracingEventPayloadDto V → Store V → Recorded V × Store V
  unfolding claim save_event
  record_event saves claimed now type data_ s =
      let (first_time, s') = claim claimed type data_ s in
      if first_time then save_event saves now type data_ s' else (deduped, s')

  -- `handleCropInitialized`, `handleActivityCreated` and `handleHarvestCreated`: a handler throws what
  -- `recordEvent` throws, and else ignores its result.
  unfoldable pub deliver_event :
      Bool → ℕ → ℕ → EventType → TracingEventPayloadDto V → Store V → Bool × Store V
  unfolding record_event
  deliver_event saves claimed now type data_ s =
      let (result, s') = record_event saves claimed now type data_ s in
      elim result [ deduped ↦ (true, s') | recorded _ ↦ (true, s') | failed ↦ (false, s') ]

-- `getHistory`: `find` is the query that MongoDB answers, `find({ cropId })` with
-- `sort({ occurredAt: 1 })`.
abbrev pub get_history :
    {V : Type 0}
    → (ℕ → List (TracingEvent V) → List (TracingEvent V))
    → ℕ
    → Store V
    → List (TracingEvent V)
get_history find crop_id s = find crop_id s.events
