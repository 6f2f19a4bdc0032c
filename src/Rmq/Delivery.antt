-- ===== src/Rmq/Delivery.antt =====
-- The life of an event on the queue of a consumer: each delivery runs `intercept`, and a copy that
-- was sent to the retry queue is delivered again. That queue is the one that `assertRetryTopology`
-- of libs/common/src/rmq/retry-topology.ts declares, whose messages go back to the main queue.
use harvestledger.Base.{
  ℕ, String, Bool, true, false, ◌&&◌, Option, none, some, List, [], ◌∷◌, if◌then◌else◌,
}
use harvestledger.Rmq.{
  Message, Reliability, ChannelCall, ack, nack, send_to_queue, rpc, intercept, retry_queue_name,
  dlq_name,
}
use text.Mathlib.Text.{◌==◌}

-- A queue is declared with its time to live, and with the exchange and the routing key to which it
-- dead-letters.
pub record Expiry : Type 0 where
  pub ttl_ms : ℕ
  pub exchange : String
  pub routing_key : String

pub data Declaration : Type 0 where
  queue : String → Option Expiry → Declaration
  direct_exchange : String → Declaration
  bind_queue : (queue exchange routing_key : String) → Declaration

-- 'hl.requeue'
abbrev pub requeue_exchange : String
requeue_exchange = "hl.requeue"

-- What `assertRetryTopology` declares, in its order.
unfoldable pub retry_topology : String → ℕ → List Declaration
retry_topology main_queue backoff_ms =
    queue main_queue none
    ∷ direct_exchange requeue_exchange
    ∷ bind_queue main_queue requeue_exchange main_queue
    ∷ queue (retry_queue_name main_queue) (
        some
          (record { ttl_ms = backoff_ms; exchange = requeue_exchange; routing_key = main_queue }))
    ∷ queue (dlq_name main_queue) none
    ∷ []

expiry_of : List Declaration → String → Option Expiry
expiry_of [] q = none
expiry_of (queue j expiry ∷ ds) q =
    let rest = expiry_of ds q in
    elim expiry [ none ↦ rest | some x ↦ if j == q then some x else rest ]
expiry_of (_ ∷ ds) q = expiry_of ds q

is_bound : List Declaration → String → String → String → Bool
is_bound [] q exchange key = false
is_bound (bind_queue j x k ∷ ds) q exchange key =
    let rest = is_bound ds q exchange key in
    if j == q && x == exchange && k == key then true else rest
is_bound (_ ∷ ds) q exchange key = is_bound ds q exchange key

-- The declarations send what expires in queue `q` to `main_queue`: `q` dead-letters to an exchange
-- under a routing key by which `main_queue` is bound to that exchange.
unfoldable pub routes_back : List Declaration → String → String → Bool
unfolding expiry_of is_bound
routes_back ds main_queue q = elim (expiry_of ds q) [
  | none ↦ false
  | some x ↦ is_bound ds main_queue x.exchange x.routing_key
]

pub data Fate (C : Type 0) : Type 0 where
  consumed : Fate C
  parked : String → Message C → Fate C
  dropped : Fate C
  waiting : Message C → Fate C

-- The copy that was sent on, if any: an event, since no `replyTo` is set on it.
pub copy_sent : {C : Type 0} → List (ChannelCall C) → Option (String × Message C)
copy_sent [] = none
copy_sent (send_to_queue q content headers ∷ _) =
    some (q, record { reply_to = none; headers = some headers; content = content })
copy_sent (_ ∷ calls) = copy_sent calls

-- How the message is settled: `true` where it is acked, `false` where it is nacked without a requeue.
unfoldable pub settled : {C : Type 0} → List (ChannelCall C) → Option Bool
settled [] = none
settled (ack ∷ _) = some true
settled (nack ∷ _) = some false
settled (send_to_queue _ _ _ ∷ calls) = settled calls

-- `returns q`: what is put into queue `q` comes back to the main queue.
module _ {C : Type 0} (to_number : String → ℕ) (returns : String → Bool) (r : Reliability) where
  -- The list says which deliveries succeed; the message waits when the list is at its end. A message
  -- that is not settled is delivered again. One that is acked lives on as the copy that was sent.
  unfoldable pub deliver : List Bool → Message C → Fate C
  unfolding copy_sent settled
  deliver [] m = waiting m
  deliver (done ∷ later) m = elim (settled (intercept to_number r rpc m done)) [
    | none ↦ deliver later m
    | some false ↦ dropped
    | some true ↦ elim (copy_sent (intercept to_number r rpc m done)) [
      | none ↦ consumed
      | some (q, m') ↦ elim (returns q) [ true ↦ deliver later m' | false ↦ parked q m' ]
    ]
  ]
