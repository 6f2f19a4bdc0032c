-- ===== src/Outbox/Relay/Laws.antt =====
-- The relay loses and alters no event, and how a run ends.
use harvestledger.Base.{
  ℕ, String, Bool, true, false, ◌≡◌, refl, ap, ◌∙◌, ◌++◌, none, List, [], ◌∷◌, Bool-cases, inl, inr,
}
use harvestledger.Base.Assoc.{lookup, erase, erase-insert_self, erase_of_absent}
use harvestledger.Outbox.{Row, Payload, Carrier, trace_carrier_key, enqueue, stored_payload}
use harvestledger.Outbox.Relay.{
  Targets, clients_for, Work, Relay, emit_all, process_row, process_batch, drain_once, drain,
  emitted_payload,
}
use harvestledger.Outbox.Relay.Rows.{
  AllEvolve, AllEvolve-refl, AllEvolve-trans, mark_published-AllEvolve, bump_attempts-AllEvolve,
}

module _ {V Client Broker : Type 0} (emit : Client → String → Payload V → Broker → Bool × Broker)
    (targets : Targets Client) where
  pub process_row-AllEvolve :
      (now : ℕ) (r : Row V) (clients : List Client) (w : Work emit)
      → AllEvolve w.rows (process_row emit now r clients w).rows
  unfolding process_row
  process_row-AllEvolve now r [] w = AllEvolve-refl w.rows
  process_row-AllEvolve now r (c ∷ cs) w =
      elim (Bool-cases (emit_all emit (c ∷ cs) r.pattern (emitted_payload r) w.broker).0) [
        | inl done ↦ rw done (mark_published-AllEvolve now r.id w.rows)
        | inr failed ↦ rw failed (bump_attempts-AllEvolve r.id w.rows)
      ]

  process_batch-AllEvolve :
      (now : ℕ) (rs : List (Row V)) (w : Work emit)
      → AllEvolve w.rows (process_batch emit targets now rs w).rows
  unfolding process_batch
  process_batch-AllEvolve now [] w = AllEvolve-refl w.rows
  process_batch-AllEvolve now (r ∷ rs) w =
      let w' = process_row emit now r (clients_for targets r.pattern) w in
      AllEvolve-trans w.rows w'.rows (process_batch emit targets now rs w').rows
        (process_row-AllEvolve now r (clients_for targets r.pattern) w)
        (process_batch-AllEvolve now rs w')

  -- A run of the relay loses, adds, moves and alters no event, and takes back no publication: the
  -- rows after it are the rows before it one by one, whatever the clients and the transaction do,
  -- and it leaves its guard as free as it found it.
  pub drain-AllEvolve :
      (enabled commits : Bool) (now : ℕ) (locked : ℕ → Bool) (s : Relay emit)
      → AllEvolve s.rows (drain emit targets enabled commits now locked s).rows
        × ((drain emit targets enabled commits now locked s).draining ≡ s.draining)
  unfolding drain
  drain-AllEvolve false commits now locked s = (AllEvolve-refl s.rows, refl)
  drain-AllEvolve true commits now locked s = elim (Bool-cases s.draining) [
    | inl busy ↦ rw busy (AllEvolve-refl s.rows, refl)
    | inr idle ↦ elim (Bool-cases commits) [
      | inl committed ↦
          rw (idle, committed) (unfold drain_once in process_batch-AllEvolve now _ _, refl)
      | inr aborted ↦ rw (idle, aborted) (AllEvolve-refl s.rows, refl)
    ]
  ]

-- What consumers will see of the rows of an outbox: patterns and payloads.
abbrev pub events : {V : Type 0} → List (Row V) → List (String × Payload V)
events [] = []
events (r ∷ rs) = (r.pattern, emitted_payload r) ∷ events rs

events-append : {V : Type 0} (rs ss : List (Row V)) → events (rs ++ ss) ≡ events rs ++ events ss
events-append [] ss = refl
events-append (r ∷ rs) ss = rw (events-append rs ss)

emitted-stored_payload :
    {V : Type 0} (carrier_value : Carrier → V) (carrier : Carrier) (payload : Payload V)
    → lookup trace_carrier_key payload ≡ none
    → erase trace_carrier_key (stored_payload carrier_value carrier payload) ≡ payload
unfolding stored_payload
emitted-stored_payload carrier_value [] payload absent =
    erase_of_absent trace_carrier_key payload absent
emitted-stored_payload carrier_value (h ∷ hs) payload absent =
    erase-insert_self trace_carrier_key (carrier_value (h ∷ hs)) payload
    ∙ erase_of_absent trace_carrier_key payload absent

-- What the relay will emit for an enqueued event is the given pattern and exactly the given payload,
-- whatever trace context travels with it; the events enqueued before stand unchanged before it.
pub events-enqueue :
    {V : Type 0} (carrier_value : Carrier → V) (id : ℕ) (carrier : Carrier) (pattern : String)
    (payload : Payload V) (rows : List (Row V))
    → lookup trace_carrier_key payload ≡ none
    → events (enqueue carrier_value id carrier pattern payload rows)
      ≡ events rows ++ (pattern, payload) ∷ []
unfolding enqueue emitted_payload
events-enqueue carrier_value id carrier pattern payload rows absent =
    events-append rows _
    ∙ ap (λ p. events rows ++ (pattern, p) ∷ [])
        (emitted-stored_payload carrier_value carrier payload absent)
