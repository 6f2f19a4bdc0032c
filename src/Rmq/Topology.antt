-- ===== src/Rmq/Topology.antt =====
-- The queues that libs/common/src/rmq/retry-topology.ts declares: what expires in the retry queue
-- goes back to the main queue, and what is dead-lettered stays where it is.
use Prim.Native.String
use Prim.Native.String.append
use harvestledger.Base.{ℕ, String, ◌≡◌, ◌≢◌, true, false, arith, Bool-cases, inl, inr}
use harvestledger.Rmq.{retry_queue_name, dlq_name}
use harvestledger.Rmq.Delivery.{requeue_exchange, retry_topology, routes_back}
use text.Mathlib.Text.{◌==◌}
use text.Mathlib.TextEquality.{eq_iff}
use text.Mathlib.TextPositions.{eq_refl}

suffix_ne : (s : String) → String.◌++◌ s ".retry" ≢ String.◌++◌ s ".dlq"
suffix_ne String.[] = λ e. cc e
suffix_ne (String.◌∷◌ c s) =
    λ e. suffix_ne s (cc (append.cons c s ".retry", append.cons c s ".dlq", e))

retry_queue_name-ne-dlq_name : (q : String) → (retry_queue_name q == dlq_name q) ≡ false
unfolding retry_queue_name dlq_name
retry_queue_name-ne-dlq_name q =
    elim (Bool-cases (String.◌++◌ q ".retry" == String.◌++◌ q ".dlq")) [
      | inl same ↦ absurd (suffix_ne q ((eq_iff _ _).0 same))
      | inr differ ↦ differ
    ]

pub retry_queue-routes_back :
    (q : String) (backoff_ms : ℕ)
    → routes_back (retry_topology q backoff_ms) q (retry_queue_name q) ≡ true
unfolding routes_back retry_topology
retry_queue-routes_back q backoff_ms =
    ground (arith, eq_refl (retry_queue_name q), eq_refl q, eq_refl requeue_exchange)

pub dlq-routes_back :
    (q : String) (backoff_ms : ℕ) → routes_back (retry_topology q backoff_ms) q (dlq_name q) ≡ false
unfolding routes_back retry_topology
dlq-routes_back q backoff_ms = ground (arith, retry_queue_name-ne-dlq_name q)
