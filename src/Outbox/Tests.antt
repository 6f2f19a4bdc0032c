-- ===== src/Outbox/Tests.antt =====
-- Runs of the relay at given inputs: the broker is the log of what was emitted to it.
use harvestledger.Base.{
  ℕ, zero, suc, ◌+◌, ◌≤◌, All, ◌-◌, ◌*◌, String, Bool, true, false, none, List, [], ◌∷◌, ◌++◌, ◌≡◌,
  ◌⊎◌, inl, inr, refl, arith,
}
use harvestledger.Base.Assoc.{lookup}
use harvestledger.Outbox.{Row, Payload, Carrier, enqueue}
use harvestledger.Outbox.Relay.{batch_size, is_pending, Targets, routes, clients_for, Relay, drain}
use harvestledger.Outbox.Relay.Rows.{AllEvolve, Distinct, pending}
use harvestledger.Outbox.Relay.Laws.{drain-AllEvolve, events, events-enqueue}
use harvestledger.Outbox.Relay.Delivered.{IsSound, drain-IsSound}
use harvestledger.Outbox.Relay.Progress.{unlocked, ticks, pending-ticks}
use harvestledger.Outbox.Relay.Progress.Stuck.{
  Turn, tick, enqueues, turns, enqueued, IsBlocked, turns-stuck,
}

abbrev Emission : Type 0
Emission = ℕ × String × Payload ℕ

abbrev emit : ℕ → String → Payload ℕ → List Emission → Bool × List Emission
emit client pattern payload log = (true, (client, pattern, payload) ∷ log)

-- In the log.
abbrev IsLogged : ℕ → String → Payload ℕ → List Emission → Type 0
IsLogged client pattern payload [] = ⊥
IsLogged client pattern payload (e ∷ log) =
    ((client, pattern, payload) ≡ e) ⊎ IsLogged client pattern payload log

abbrev targets : Targets ℕ
targets = routes (("crop.initialized", 1 ∷ 2 ∷ []) ∷ [])

abbrev row : ℕ → String → Row ℕ
row id pattern = record {
  id = id;
  pattern = pattern;
  payload = ("cropId", id) ∷ [];
  published_at = none;
  attempts = 0;
}

abbrev relay : Relay emit
relay = record {
  draining = false;
  rows = row 1 "crop.initialized" ∷ row 2 "crop.initialized" ∷ [];
  broker = [];
}

drain-AllEvolve_example :
    AllEvolve relay.rows (drain emit targets true true 9 unlocked relay).rows
    × ((drain emit targets true true 9 unlocked relay).draining ≡ false)
drain-AllEvolve_example = drain-AllEvolve emit targets true true 9 unlocked relay

events-enqueue_example :
    events (
      enqueue
        (λ (c : Carrier). 0)
        3
        (("traceparent", "00") ∷ [])
        "crop.initialized"
        (("cropId", 3) ∷ [])
        relay.rows)
    ≡ events relay.rows ++ ("crop.initialized", ("cropId", 3) ∷ []) ∷ []
unfolding lookup
events-enqueue_example =
    events-enqueue (λ c. 0) 3 (("traceparent", "00") ∷ []) "crop.initialized" (("cropId", 3) ∷ [])
      relay.rows refl

emit_accepted :
    (c : ℕ) (pattern : String) (payload : Payload ℕ) (b : List Emission)
    → (emit c pattern payload b).0 ≡ true
    → IsLogged c pattern payload (emit c pattern payload b).1
emit_accepted c pattern payload b done = inl refl

emit_kept :
    (c c' : ℕ) (pattern pattern' : String) (payload payload' : Payload ℕ) (b : List Emission)
    → IsLogged c pattern payload b
    → IsLogged c pattern payload (emit c' pattern' payload' b).1
emit_kept c c' pattern pattern' payload payload' b logged = inr logged

emit_reachable :
    (c : ℕ) (pattern : String) (payload : Payload ℕ) (b : List Emission)
    → (emit c pattern payload b).0 ≡ true
emit_reachable c pattern payload b = refl

relay-Distinct : Distinct relay.rows
relay-Distinct = ((λ e. ground arith, tt), (tt, tt))

drain-IsSound_example :
    let s' = drain emit targets true true 9 unlocked relay in
    IsSound emit targets IsLogged emit_accepted emit_kept s'.broker s'.rows
drain-IsSound_example =
    drain-IsSound emit targets IsLogged emit_accepted emit_kept true true 9 unlocked relay
      relay-Distinct (λ e. absurd (cc e), (λ e. absurd (cc e), tt))

pending-ticks_example :
    pending (ticks emit targets emit_reachable (9 ∷ 10 ∷ []) relay).rows
    ≡ pending relay.rows - batch_size * 2
unfolding clients_for lookup
pending-ticks_example =
    pending-ticks emit targets emit_reachable (9 ∷ 10 ∷ []) relay refl relay-Distinct
      (λ e. absurd (cc e), (λ e. absurd (cc e), tt))

-- The rows with the ids from `n` down to 1, of a pattern for which no target is registered.
abbrev removed : ℕ → List (Row ℕ)
removed zero = []
removed (suc n) = row (suc n) "crop.removed" ∷ removed n

removed-unroutable :
    (n : ℕ)
    → All
        (λ (r : Row ℕ). is_pending r ≡ true → r.id ≤ 20 → clients_for targets r.pattern ≡ [])
        (removed n)
unfolding clients_for lookup
removed-unroutable zero = tt
removed-unroutable (suc n) = ((λ e small. refl), removed-unroutable n)

-- Behind 20 such rows there is one that could be published.
abbrev stuck : Relay emit
stuck = record { draining = false; rows = row 21 "crop.initialized" ∷ removed 20; broker = [] }

stuck-IsBlocked : IsBlocked targets 20 stuck.rows
stuck-IsBlocked = record {
  unroutable = ((λ e small. absurd (omega (arith, small))), removed-unroutable 20);
  full = omega arith;
}

abbrev later : List (Turn ℕ)
later = tick 9 true ∷ enqueues 22 [] "crop.initialized" [] ∷ tick 10 false ∷ tick 11 true ∷ []

turns-stuck_example :
    (turns emit targets (λ _. 0) later stuck
      ≡ record stuck { rows = enqueued (λ _. 0) later stuck.rows })
    × (pending (turns emit targets (λ _. 0) later stuck).rows ≡ pending stuck.rows + 1)
turns-stuck_example =
    turns-stuck emit targets (λ _. 0) 20 later stuck refl stuck-IsBlocked
      (tt, (ground arith, (tt, (tt, tt))))
