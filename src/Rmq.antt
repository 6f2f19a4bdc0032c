-- ===== src/Rmq.antt =====
-- Consuming from RabbitMQ: libs/common/src/interceptors/rmq-reliability.interceptor.ts, with the
-- names of libs/common/src/rmq/retry-topology.ts. What it calls on the channel is a list.
pub mod Delivery
pub mod Topology
pub mod Laws
mod Tests
use Prim.Native.String
use harvestledger.Base.{
  ℕ, ◌+◌, String, Bool, true, false, not, ◌&&◌, Option, none, some, List, [], ◌∷◌, ◌++◌, ltb,
  or_else, is_some, if◌then◌else◌,
}
use harvestledger.Base.Assoc.{lookup, insert}

-- 'x-retry-count'
abbrev pub retry_count_header : String
retry_count_header = "x-retry-count"

unfoldable pub retry_queue_name : String → String
retry_queue_name main_queue = String.◌++◌ main_queue ".retry"

unfoldable pub dlq_name : String → String
dlq_name main_queue = String.◌++◌ main_queue ".dlq"

pub data HeaderValue : Type 0 where
  number : ℕ → HeaderValue
  text : String → HeaderValue

-- `RmqReliabilityOptions`
pub record Options : Type 0 where
  pub max_retries : Option ℕ
  pub retry_queue : Option String
  pub dead_letter_queue : Option String

-- The default argument of the constructor, `{}`.
abbrev pub no_options : Options
no_options = record { max_retries = none; retry_queue = none; dead_letter_queue = none }

-- The interceptor's fields.
pub record Reliability : Type 0 where
  pub max_retries : ℕ
  pub retry_queue : Option String
  pub dead_letter_queue : Option String

-- The constructor.
unfoldable pub reliability : Options → Reliability
reliability o = record {
  max_retries = or_else o.max_retries 3;
  retry_queue = o.retry_queue;
  dead_letter_queue = o.dead_letter_queue;
}

pub data ContextType : Type 0 where
  http rpc : ContextType

abbrev pub Headers : Type 0
Headers = List (String × HeaderValue)

-- `properties` and `content` of a message; `C` is the type of its content.
pub record Message (C : Type 0) : Type 0 where
  pub reply_to : Option String
  pub headers : Option Headers
  pub content : C

-- What is called on the channel about the message at hand; `nack` is `nack(message, false, false)`.
pub data ChannelCall (C : Type 0) : Type 0 where
  ack : ChannelCall C
  nack : ChannelCall C
  send_to_queue : String → C → Headers → ChannelCall C

-- A string is falsy where it is missing or empty.
pub is_truthy : Option String → Bool
is_truthy none = false
is_truthy (some String.[]) = false
is_truthy (some (String.◌∷◌ c s)) = true

-- A queue's name as a condition reads it: none if it is falsy.
unfoldable pub truthy : Option String → Option String
truthy none = none
truthy (some String.[]) = none
truthy (some (String.◌∷◌ c s)) = some (String.◌∷◌ c s)

-- `to_number` is `Number(s) || 0` on the text of a header.
header_count : (String → ℕ) → Option HeaderValue → ℕ
header_count to_number none = 0
header_count to_number (some (number n)) = n
header_count to_number (some (text s)) = to_number s

module _ {C : Type 0} (to_number : String → ℕ) where
  pub retry_count : Message C → ℕ
  unfolding header_count
  retry_count m = header_count to_number (lookup retry_count_header (or_else m.headers []))

  -- The branch for the dead-letter queue, and the one where none is configured.
  park : Option String → Message C → List (ChannelCall C)
  park none m = nack ∷ []
  park (some q) m = send_to_queue q m.content (or_else m.headers []) ∷ ack ∷ []

  retry_or_park : Reliability → Option String → Message C → List (ChannelCall C)
  unfolding park truthy
  retry_or_park r none m = park (truthy r.dead_letter_queue) m
  retry_or_park r (some q) m =
      if ltb (retry_count m) r.max_retries
      then (send_to_queue q m.content
            (insert retry_count_header (number (retry_count m + 1)) (or_else m.headers []))
          ∷ ack
          ∷ [])
      else park (truthy r.dead_letter_queue) m

  -- `handleEventFailure`
  pub handle_event_failure : Reliability → Message C → List (ChannelCall C)
  unfolding retry_or_park
  handle_event_failure r m = retry_or_park r (truthy r.retry_queue) m

  -- `intercept`, by whether the handler succeeds. The handler's outcome is passed on unchanged.
  pub intercept : Reliability → ContextType → Message C → Bool → List (ChannelCall C)
  unfolding handle_event_failure is_truthy
  intercept r http m done = []
  intercept r rpc m true = ack ∷ []
  intercept r rpc m false = if is_truthy m.reply_to then ack ∷ [] else handle_event_failure r m
