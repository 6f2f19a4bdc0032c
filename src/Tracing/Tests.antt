-- ===== src/Tracing/Tests.antt =====
-- Deliveries at given inputs: the payload of an event is the id of its entity.
use harvestledger.Base.{
  ℕ, ◌+◌, String, true, false, Option, some, List, [], ◌∷◌, ◌≡◌, refl, All, arith,
}
use harvestledger.Store.{bit}
use harvestledger.Tracing.{crop_initialized, TracingEventPayloadDto, claim, has}
use harvestledger.Tracing.Steps.{Delivery, System, Step, begins, finishes, key_of, run_steps}
use harvestledger.Tracing.Keys.{is_set, ttl_ms}
use harvestledger.Tracing.Once.{stored, flying, IsOnce, InWindow, is_wanted, stored-run_steps}
use harvestledger.Tracing.Once.Lost.{IsBefore, claim_lost}

abbrev id : ℕ → Option ℕ
id n = some n

abbrev to_string : ℕ → String
to_string n = "7"

abbrev sown : TracingEventPayloadDto ℕ
sown = record { crop_id = 7; farm_id = 1; user_id = 2; payload = 7 }

abbrev delivery : ℕ → Delivery ℕ
delivery now = record { type = crop_initialized; body = sown; now = now }

abbrev empty : System ℕ
empty = record { store = record { keys = []; events = [] }; in_flight = [] }

-- The second delivery meets the claim of the first, whose save is refused; the third is taken, and
-- the fourth is a repetition.
abbrev steps : List (Step ℕ)
steps =
    begins (delivery 5)
    ∷ begins (delivery 6)
    ∷ finishes 0 8 false
    ∷ begins (delivery 9)
    ∷ finishes 0 11 true
    ∷ begins (delivery 12)
    ∷ []

empty-IsOnce : IsOnce id to_string (0 + ttl_ms) empty
unfolding stored flying is_set
empty-IsOnce = record { outlast = tt; once = λ k. refl }

steps-InWindow : All (InWindow 0) steps
steps-InWindow = ground arith

stored-run_steps_example :
    IsOnce id to_string (0 + ttl_ms) (run_steps id to_string steps empty)
    × ((k : String)
        → stored id to_string k (run_steps id to_string steps empty).store
            + flying id to_string k (run_steps id to_string steps empty).in_flight
          ≡ bit (is_wanted id to_string k steps empty (is_set k [])))
stored-run_steps_example = stored-run_steps id to_string 0 steps empty steps-InWindow empty-IsOnce

steps-IsBefore : All (IsBefore (5 + ttl_ms)) steps
steps-IsBefore = ground arith

none_set : has 5 (key_of id to_string (delivery 5)) [] ≡ false
unfolding has
none_set = refl

none_flying : flying id to_string (key_of id to_string (delivery 5)) [] ≡ 0
unfolding flying
none_flying = refl

claim_lost_example :
    stored id to_string
      (key_of id to_string (delivery 5))
      (run_steps id to_string steps
        (record empty { store = (claim id to_string 5 crop_initialized sown empty.store).1 })).store
    ≡ stored id to_string (key_of id to_string (delivery 5)) empty.store
claim_lost_example =
    claim_lost id to_string (delivery 5) steps empty none_set none_flying steps-IsBefore
