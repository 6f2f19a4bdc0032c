-- ===== src/Rmq/Laws.antt =====
-- What the interceptor guarantees about a message.
use Prim.Native.String.append
use harvestledger.Base.{
  ℕ, ◌+◌, ◌≤◌, ◌<◌, zero, suc, ◌≡◌, refl, ◌∙◌, String, Bool, true, false, none, some, List, [], ◌∷◌,
  ◌++◌, replicate, arith, or_else,
}
use harvestledger.Base.Assoc.{insert, lookup-insert}
use harvestledger.Rmq.{
  Headers, Message, Reliability, ChannelCall, ack, nack, send_to_queue, rpc, intercept, retry_count,
  number, retry_count_header, is_truthy, truthy, reliability, retry_queue_name, dlq_name,
}
use harvestledger.Rmq.Delivery.{retry_topology, routes_back, Fate, consumed, parked, deliver}
use harvestledger.Rmq.Topology.{retry_queue-routes_back, dlq-routes_back}

-- How many calls settle the message: an unsettled one is redelivered, and to settle one twice is an
-- error of the channel.
abbrev pub settlements : {C : Type 0} → List (ChannelCall C) → ℕ
settlements [] = 0
settlements (ack ∷ calls) = suc (settlements calls)
settlements (nack ∷ calls) = suc (settlements calls)
settlements (send_to_queue _ _ _ ∷ calls) = settlements calls

module _ {C : Type 0} (to_number : String → ℕ) where
  -- Every message of the rpc context is settled exactly once, whatever the configuration, the kind
  -- of message and the outcome of the handler.
  pub settlements-intercept :
      (r : Reliability) (m : Message C) (done : Bool)
      → settlements (intercept to_number r rpc m done) ≡ 1
  unfolding intercept
  settlements-intercept r m true = refl
  settlements-intercept r m false = ground arith

  -- A message that was republished counts one more retry.
  retry_count-insert :
      (c : C) (n : ℕ) (hs : Headers)
      → retry_count to_number (record {
        reply_to = none;
        headers = some (insert retry_count_header (number n) hs);
        content = c;
      })
        ≡ n
  unfolding retry_count
  retry_count-insert c n hs = rw (lookup-insert retry_count_header retry_count_header (number n) hs)

-- A delivery, as it is read in the statements below: the fate of an event that was parked.
abbrev pub IsParked : {C : Type 0} → String → C → Headers → Fate C → Type 0
IsParked q c hs f = f ≡ parked q (record { reply_to = none; headers = some hs; content = c })

module _ {C : Type 0} (to_number : String → ℕ) (returns : String → Bool) where
  module _ (retry dlq : String) (r : Reliability) (retries : truthy r.retry_queue ≡ some retry)
      (parks : truthy r.dead_letter_queue ≡ some dlq) (comes_back : returns retry ≡ true)
      (stays : returns dlq ≡ false) where
    retry_step :
        (m : Message C) (later : List Bool)
        → is_truthy m.reply_to ≡ false
        → retry_count to_number m < r.max_retries
        → (m' : Message C) × (deliver to_number returns r (false ∷ later) m
            ≡ deliver to_number returns r later m')
          × (m'.content ≡ m.content)
          × (is_truthy m'.reply_to ≡ false)
          × (retry_count to_number m' ≡ suc (retry_count to_number m))
    unfolding deliver intercept
    retry_step m later event below =
        let hs : Headers =
          insert retry_count_header (number (retry_count to_number m + 1)) (or_else m.headers []) in
        (
          record { reply_to = none; headers = some hs; content = m.content },
          ground arith,
          refl,
          refl,
          ground (
            arith,
            retry_count-insert to_number m.content (retry_count to_number m + 1)
                (or_else m.headers []),
          ),
        )

    park_step :
        (m : Message C) (later : List Bool)
        → is_truthy m.reply_to ≡ false
        → retry_count to_number m ≡ r.max_retries
        → IsParked dlq m.content
            (or_else m.headers [])
            (deliver to_number returns r (false ∷ later) m)
    unfolding deliver intercept
    park_step m later event spent = ground arith

    -- An event that has `k` retries left and fails `j` times before a delivery would succeed: it is
    -- consumed if `j ≤ k`, and else it ends in the dead-letter queue, with its content unchanged
    -- and its counter at the maximum.
    deliver_fate :
        (k j : ℕ) (m : Message C) (later : List Bool)
        → is_truthy m.reply_to ≡ false
        → retry_count to_number m + k ≡ r.max_retries
        → (j ≤ k → deliver to_number returns r (replicate j false ++ true ∷ later) m ≡ consumed)
          × (k < j
              → (m' : Message C) × (deliver to_number returns r
                    (replicate j false ++ true ∷ later)
                    m
                  ≡ parked dlq m')
                × (m'.content ≡ m.content)
                × (retry_count to_number m' ≡ r.max_retries))
    deliver_fate k zero m later event left =
        (λ h. unfold deliver intercept in refl, λ h. absurd (omega arith))
    deliver_fate zero (suc j) m later event left = (
      λ h. absurd (omega arith),
      λ h. (
        record { reply_to = none; headers = some (or_else m.headers []); content = m.content },
        park_step m (replicate j false ++ true ∷ later) event (omega arith),
        refl,
        unfold retry_count in (ground arith),
      ),
    )
    deliver_fate (suc k) (suc j) m later event left =
        let (m', same, content, event', counted) =
          retry_step m (replicate j false ++ true ∷ later) event (omega arith) in
        let (early, late) = deliver_fate k j m' later event' (omega arith) in
        (
          λ h. same ∙ early (omega arith),
          λ h.
              let (m'', end, content', max) = late (omega arith) in
              (m'', same ∙ end, content' ∙ content, max),
        )

truthy-retry_queue_name :
    (q : String) → truthy (some (retry_queue_name q)) ≡ some (retry_queue_name q)
unfolding truthy retry_queue_name
truthy-retry_queue_name String.[] = refl
truthy-retry_queue_name (String.◌∷◌ c q) = rw (append.cons c q ".retry") refl

truthy-dlq_name : (q : String) → truthy (some (dlq_name q)) ≡ some (dlq_name q)
unfolding truthy dlq_name
truthy-dlq_name String.[] = refl
truthy-dlq_name (String.◌∷◌ c q) = rw (append.cons c q ".dlq") refl

-- With the queues that `assertRetryTopology` declares and the options of the consumers tracing and
-- notifications, where what is put into a queue comes back exactly if the declarations route it
-- back: an event that fails `j` times, on its first delivery with no counter, is consumed if
-- `j ≤ max_retries`, and ends in the dead-letter queue, unchanged, if it fails more often.
pub deliver-retry_topology :
    {C : Type 0} (to_number : String → ℕ) (returns : String → Bool) (main_queue : String)
    (backoff_ms max_retries : ℕ)
    → ((q : String) → returns q ≡ routes_back (retry_topology main_queue backoff_ms) main_queue q)
    → (m : Message C) (j : ℕ) (later : List Bool) → is_truthy m.reply_to ≡ false
    → retry_count to_number m ≡ 0
    → let r = reliability (record {
      max_retries = some max_retries;
      retry_queue = some (retry_queue_name main_queue);
      dead_letter_queue = some (dlq_name main_queue);
    }) in
      let fate = deliver to_number returns r (replicate j false ++ true ∷ later) m in
      (j ≤ max_retries → fate ≡ consumed)
      × (max_retries < j
          → (m' : Message C) × (fate ≡ parked (dlq_name main_queue) m')
            × (m'.content ≡ m.content)
            × (retry_count to_number m' ≡ max_retries))
unfolding reliability
deliver-retry_topology to_number returns main_queue backoff_ms max_retries routed m j later event
      fresh =
    deliver_fate to_number returns (retry_queue_name main_queue) (dlq_name main_queue) _
      (truthy-retry_queue_name main_queue) (truthy-dlq_name main_queue)
      (routed (retry_queue_name main_queue) ∙ retry_queue-routes_back main_queue backoff_ms)
      (routed (dlq_name main_queue) ∙ dlq-routes_back main_queue backoff_ms) max_retries j m later
      event (omega arith)
