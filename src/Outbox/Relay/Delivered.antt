-- ===== src/Outbox/Relay/Delivered.antt =====
-- A row that is marked as published has been delivered to each of its targets.
mod Emissions
use harvestledger.Base.{
  ℕ, ◌+◌, String, Bool, true, false, ◌≡◌, refl, sym, List, [], ◌∷◌, arith, All, All-map, All-map₂,
  Bool-cases, inl, inr, if◌then◌else◌, is_some, ◌==◌, ==_iff,
}
use mathlib.Core.Path.{subst}
use harvestledger.Outbox.{Row, Payload}
use harvestledger.Outbox.Relay.{
  Targets, clients_for, Work, Relay, emit_all, process_row, process_batch, drain_once, drain,
  select_batch, mark_published, bump_attempts, emitted_payload,
}
use harvestledger.Outbox.Relay.Rows.{AllEvolve, Distinct, All-select_batch}
use harvestledger.Outbox.Relay.Laws.{process_row-AllEvolve}
use harvestledger.Outbox.Relay.Delivered.Emissions.{
  Agrees, Agrees-AllEvolve, Agrees-Distinct, emit_all_kept, emit_all-cons, emit_all-fails,
  emit_all_accepted,
}

-- `Delivered c pattern payload b`: in the broker's state `b`, client `c` has taken over the event.
-- An `emit` that completes has delivered (`accepted`), and what is delivered stays so (`kept`).
module _ {V Client Broker : Type 0} (emit : Client → String → Payload V → Broker → Bool × Broker)
    (targets : Targets Client) (Delivered : Client → String → Payload V → Broker → Type 0)
    (accepted : (c : Client) (pattern : String) (payload : Payload V) (b : Broker)
      → (emit c pattern payload b).0 ≡ true
      → Delivered c pattern payload (emit c pattern payload b).1)
    (kept : (c c' : Client) (pattern pattern' : String) (payload payload' : Payload V) (b : Broker)
      → Delivered c pattern payload b
      → Delivered c pattern payload (emit c' pattern' payload' b).1) where
  -- Row `r` has been delivered to all its targets.
  abbrev pub Reached : Broker → Row V → Type 0
  Reached b r =
      All (λ c. Delivered c r.pattern (emitted_payload r) b) (clients_for targets r.pattern)

  -- Every published row has been.
  abbrev pub IsSound : Broker → List (Row V) → Type 0
  IsSound b = All (λ r. is_some r.published_at ≡ true → Reached b r)

  Reached-same :
      (b : Broker) (r x : Row V)
      → x.pattern ≡ r.pattern
      → x.payload ≡ r.payload
      → Reached b r
      → Reached b x
  unfolding emitted_payload
  Reached-same b r x p q h = rw (p, q) h

  IsSound-mark_published :
      (now : ℕ) (b : Broker) (r : Row V) (rs : List (Row V))
      → Reached b r
      → Agrees rs r
      → IsSound b rs
      → IsSound b (mark_published now r.id rs)
  unfolding mark_published
  IsSound-mark_published now b r [] h a s = tt
  IsSound-mark_published now b r (x ∷ xs) h a s = elim (Bool-cases (x.id == r.id)) [
    | inl same ↦ rw same (
      λ _. let (p, q) = a.0 ((==_iff x.id r.id).0 same) in Reached-same b r _ p q h,
      IsSound-mark_published now b r xs h a.1 s.1,
    )
    | inr other ↦ rw other (s.0, IsSound-mark_published now b r xs h a.1 s.1)
  ]

  IsSound-bump_attempts :
      (b : Broker) (id : ℕ) (rs : List (Row V)) → IsSound b rs → IsSound b (bump_attempts id rs)
  unfolding bump_attempts
  IsSound-bump_attempts b id [] s = tt
  IsSound-bump_attempts b id (x ∷ xs) s = elim (Bool-cases (x.id == id)) [
    | inl same ↦
        rw same (λ e. Reached-same b x _ refl refl (s.0 e), IsSound-bump_attempts b id xs s.1)
    | inr other ↦ rw other (s.0, IsSound-bump_attempts b id xs s.1)
  ]

  -- What was delivered stays so while the clients of another row are served.
  IsSound-emit_all :
      (cs : List Client) (pattern : String) (payload : Payload V) (b : Broker) (rs : List (Row V))
      → IsSound b rs
      → IsSound (emit_all emit cs pattern payload b).1 rs
  IsSound-emit_all cs pattern payload b rs = All-map rs (λ x h e.
      All-map (clients_for targets x.pattern)
        (λ c.
          (emit_all_kept emit targets Delivered accepted kept) c cs x.pattern pattern
            (emitted_payload x) payload b)
        (h e))

  process_row_done :
      (now : ℕ) (r : Row V) (c : Client) (cs : List Client) (w : Work emit)
      → (emit_all emit (c ∷ cs) r.pattern (emitted_payload r) w.broker).0 ≡ true
      → process_row emit now r (c ∷ cs) w ≡ record {
        rows = mark_published now r.id w.rows;
        broker = (emit_all emit (c ∷ cs) r.pattern (emitted_payload r) w.broker).1;
        published = w.published + 1;
      }
  unfolding process_row
  process_row_done now r c cs w done = rw done

  process_row_failed :
      (now : ℕ) (r : Row V) (c : Client) (cs : List Client) (w : Work emit)
      → (emit_all emit (c ∷ cs) r.pattern (emitted_payload r) w.broker).0 ≡ false
      → process_row emit now r (c ∷ cs) w ≡ record w {
        rows = bump_attempts r.id w.rows;
        broker = (emit_all emit (c ∷ cs) r.pattern (emitted_payload r) w.broker).1;
      }
  unfolding process_row
  process_row_failed now r c cs w failed = rw failed

  abbrev IsSoundWork : Work emit → Type 0
  IsSoundWork w = IsSound w.broker w.rows

  serve-IsSound :
      (now : ℕ) (r : Row V) (w : Work emit) (cs : List Client)
      → clients_for targets r.pattern ≡ cs
      → Agrees w.rows r
      → IsSoundWork w
      → IsSoundWork (process_row emit now r cs w)
  serve-IsSound now r w [] same a s = unfold process_row in s
  serve-IsSound now r w (c ∷ cs) same a s =
      let pattern : String = r.pattern in
      let payload : Payload V = emitted_payload r in
      let kept_rows = IsSound-emit_all (c ∷ cs) pattern payload w.broker w.rows s in
      elim (Bool-cases (emit_all emit (c ∷ cs) pattern payload w.broker).0) [
        | inl done ↦
            let reached : Reached (emit_all emit (c ∷ cs) pattern payload w.broker).1 r = rw same (
              (emit_all_accepted emit targets Delivered accepted kept) (c ∷ cs) pattern payload
                w.broker done) in
            subst IsSoundWork (sym (process_row_done now r c cs w done))
              (IsSound-mark_published now _ r w.rows reached a kept_rows)
        | inr failed ↦
            subst IsSoundWork (sym (process_row_failed now r c cs w failed))
              (IsSound-bump_attempts _ r.id w.rows kept_rows)
      ]

  process_batch-IsSound :
      (now : ℕ) (rs : List (Row V)) (w : Work emit)
      → All (Agrees w.rows) rs
      → IsSoundWork w
      → IsSoundWork (process_batch emit targets now rs w)
  unfolding process_batch
  process_batch-IsSound now [] w a s = s
  process_batch-IsSound now (r ∷ rs) w a s =
      let cs = clients_for targets r.pattern in
      let w' = process_row emit now r cs w in
      let evolved = process_row-AllEvolve emit targets now r cs w in
      process_batch-IsSound now rs w'
        (All-map rs (λ x. Agrees-AllEvolve w.rows w'.rows x evolved) a.1)
        (serve-IsSound now r w cs refl a.0 s)

  process_row_kept :
      (c : Client) (pattern : String) (payload : Payload V) (now : ℕ) (r : Row V) (cs : List Client)
      (w : Work emit)
      → Delivered c pattern payload w.broker
      → Delivered c pattern payload (process_row emit now r cs w).broker
  process_row_kept c pattern payload now r [] w d = unfold process_row in d
  process_row_kept c pattern payload now r (c' ∷ cs) w d =
      let later =
        (emit_all_kept emit targets Delivered accepted kept) c (c' ∷ cs) pattern r.pattern payload
          (emitted_payload r) w.broker d in
      elim (Bool-cases (emit_all emit (c' ∷ cs) r.pattern (emitted_payload r) w.broker).0) [
        | inl done ↦ rw (process_row_done now r c' cs w done) later
        | inr failed ↦ rw (process_row_failed now r c' cs w failed) later
      ]

  process_batch_kept :
      (c : Client) (pattern : String) (payload : Payload V) (now : ℕ) (rs : List (Row V))
      (w : Work emit)
      → Delivered c pattern payload w.broker
      → Delivered c pattern payload (process_batch emit targets now rs w).broker
  unfolding process_batch
  process_batch_kept c pattern payload now [] w d = d
  process_batch_kept c pattern payload now (r ∷ rs) w d =
      let cs = clients_for targets r.pattern in
      process_batch_kept c pattern payload now rs (process_row emit now r cs w)
        (process_row_kept c pattern payload now r cs w d)

  drain_once-IsSound :
      (now : ℕ) (locked : ℕ → Bool) (rs : List (Row V)) (b : Broker)
      → Distinct rs
      → IsSound b rs
      → let w = drain_once emit targets now locked rs b in
        IsSound w.broker w.rows × IsSound w.broker rs
  unfolding drain_once
  drain_once-IsSound now locked rs b d h =
      let agree = All-map rs (λ x a _. a) (Agrees-Distinct rs d) in
      (
        process_batch-IsSound now (select_batch locked rs) _
            (All-select_batch (Agrees rs) locked rs agree) h,
        All-map rs
            (λ x reached e.
              All-map (clients_for targets x.pattern)
                (λ c.
                  process_batch_kept c x.pattern (emitted_payload x) now (select_batch locked rs) _)
                (reached e))
            h,
      )

  abbrev IsSoundRelay : Relay emit → Type 0
  IsSoundRelay s = IsSound s.broker s.rows

  -- A run that was not refused.
  abbrev ran : Bool → ℕ → (ℕ → Bool) → Relay emit → Relay emit
  ran commits now locked s =
      let w = drain_once emit targets now locked s.rows s.broker in
      record { draining = false; rows = if commits then w.rows else s.rows; broker = w.broker }

  ran-IsSound :
      (commits : Bool) (now : ℕ) (locked : ℕ → Bool) (s : Relay emit)
      → Distinct s.rows
      → IsSoundRelay s
      → IsSoundRelay (ran commits now locked s)
  ran-IsSound true now locked s d h = (drain_once-IsSound now locked s.rows s.broker d h).0
  ran-IsSound false now locked s d h = (drain_once-IsSound now locked s.rows s.broker d h).1

  -- At-least-once: where every published row has been delivered to each target registered for its
  -- pattern, without the trace context, this still holds after a run of the relay, whichever emits
  -- fail and whether or not the transaction commits.
  pub drain-IsSound :
      (enabled commits : Bool) (now : ℕ) (locked : ℕ → Bool) (s : Relay emit)
      → Distinct s.rows
      → IsSound s.broker s.rows
      → let s' = drain emit targets enabled commits now locked s in IsSound s'.broker s'.rows
  unfolding drain
  drain-IsSound false commits now locked s d h = h
  drain-IsSound true commits now locked s d h = elim (Bool-cases s.draining) [
    | inl busy ↦
        subst (λ (x : Bool). IsSoundRelay (if x then s else ran commits now locked s)) (sym busy) h
    | inr idle ↦
        subst (λ (x : Bool). IsSoundRelay (if x then s else ran commits now locked s)) (sym idle)
          (ran-IsSound commits now locked s d h)
  ]
