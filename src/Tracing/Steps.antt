-- ===== src/Tracing/Steps.antt =====
-- `recordEvent` of apps/tracing/src/tracing.service.ts as its consumers run it: a delivery claims its
-- key, and saves its document in a later step, and the steps of all deliveries and consumers
-- interleave. A consumer that stops in between is a delivery that makes no second step.
use harvestledger.Base.{
  ℕ, zero, suc, Bool, true, false, Option, none, some, List, [], ◌∷◌, ◌++◌, String,
}
use harvestledger.Tracing.{EventType, TracingEventPayloadDto, Store, idem_key, claim, save_event}

-- A delivery of an event, and the time of its claim.
pub record Delivery (V : Type 0) : Type 0 where
  pub type : EventType
  pub body : TracingEventPayloadDto V
  pub now : ℕ

-- The store, and the deliveries that hold a claim and have not saved yet.
pub record System (V : Type 0) : Type 0 where
  pub store : Store V
  pub in_flight : List (Delivery V)

pub data Step (V : Type 0) : Type 0 where
  -- A delivery reaches `setIfAbsent`.
  begins : Delivery V → Step V
  -- The delivery in flight at this place reaches `save` at this time, and MongoDB takes the document or
  -- refuses it.
  finishes : (place now : ℕ) (saves : Bool) → Step V

-- The element at a place, and the others.
unfoldable pub pick : {A : Type 0} → ℕ → List A → Option (A × List A)
pick i [] = none
pick zero (x ∷ xs) = some (x, xs)
pick (suc i) (x ∷ xs) = elim (pick i xs) [ none ↦ none | some (y, rest) ↦ some (y, x ∷ rest) ]

module _ {V : Type 0} (id : V → Option ℕ) (to_string : ℕ → String) where
  abbrev pub key_of : Delivery V → String
  key_of d = idem_key id to_string d.type d.body.payload

  -- After the claim: only the first delivery goes on.
  unfoldable pub begun : Delivery V → Bool × Store V → List (Delivery V) → System V
  begun d (true, st) flying = record { store = st; in_flight = flying ++ d ∷ [] }
  begun d (false, st) flying = record { store = st; in_flight = flying }

  unfoldable pub finished : Option (Delivery V × List (Delivery V)) → ℕ → Bool → System V → System V
  finished none now saves s = s
  finished (some (d, rest)) now saves s = record {
    store = (save_event id to_string saves now d.type d.body s.store).1;
    in_flight = rest;
  }

  unfoldable pub step : Step V → System V → System V
  unfolding begun finished pick
  step (begins d) s = begun d (claim id to_string d.now d.type d.body s.store) s.in_flight
  step (finishes place now saves) s = finished (pick place s.in_flight) now saves s

  unfoldable pub run_steps : List (Step V) → System V → System V
  run_steps [] s = s
  run_steps (x ∷ xs) s = run_steps xs (step x s)
