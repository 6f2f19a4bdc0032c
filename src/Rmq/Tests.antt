-- ===== src/Rmq/Tests.antt =====
-- Events and requests at given inputs.
use harvestledger.Base.{
  ℕ, ◌≤◌, ◌<◌, String, true, false, none, some, [], ◌∷◌, ◌++◌, replicate, ◌≡◌, refl,
}
use harvestledger.Base.Assoc.{lookup}
use harvestledger.Rmq.{
  Message, Reliability, reliability, no_options, rpc, intercept, retry_count, retry_queue_name,
  dlq_name, is_truthy,
}
use harvestledger.Rmq.Delivery.{retry_topology, routes_back, Fate, consumed, parked, deliver}
use harvestledger.Rmq.Laws.{settlements, settlements-intercept, deliver-retry_topology}

abbrev to_number : String → ℕ
to_number _ = 0

abbrev event : Message ℕ
event = record { reply_to = none; headers = none; content = 5 }

settlements-intercept_example :
    settlements (intercept to_number (reliability no_options) rpc event false) ≡ 1
settlements-intercept_example = settlements-intercept to_number (reliability no_options) event false

abbrev tracing : Reliability
tracing = reliability (record {
  max_retries = some 2;
  retry_queue = some (retry_queue_name "q");
  dead_letter_queue = some (dlq_name "q");
})

abbrev three_failures : Fate ℕ
three_failures =
    deliver to_number (routes_back (retry_topology "q" 5000) "q") tracing
      (replicate 3 false ++ true ∷ []) event

deliver-retry_topology_example :
    (3 ≤ 2 → three_failures ≡ consumed)
    × (2 < 3
        → (m' : Message ℕ) × (three_failures ≡ parked (dlq_name "q") m')
          × (m'.content ≡ 5)
          × (retry_count to_number m' ≡ 2))
unfolding is_truthy retry_count lookup
deliver-retry_topology_example =
    deliver-retry_topology to_number (routes_back (retry_topology "q" 5000) "q") "q" 5000 2
      (λ q. refl) event 3 [] refl refl
