-- ===== src/Tracing/Once.antt =====
-- An event that is delivered several times is recorded once: `recordEvent` of
-- apps/tracing/src/tracing.service.ts.
pub mod Lost
use harvestledger.Base.{
  ℕ, ◌+◌, ◌*◌, ◌≤◌, ◌<◌, zero, suc, String, Bool, true, false, not, ◌&&◌, ◌||◌, List, [], ◌∷◌, ◌++◌,
  Option, none, some, ◌≡◌, refl, sym, ap, ◌∙◌, arith, any, count, count-append, All, ltb, leb,
  Bool-cases, Option-cases, inl, inr,
}
use text.Mathlib.Text.{◌==◌ as str_eq}
use text.Mathlib.TextEquality.{eq_iff}
use harvestledger.Store.{bit}
use harvestledger.Tracing.{
  EventType, TracingEventPayloadDto, Store, has, del, set_if_absent, idem_key, idem_ttl_seconds,
  claim, save_event, record_event, document,
}
use harvestledger.Tracing.Steps.{
  Delivery, System, Step, begins, finishes, pick, key_of, begun, finished, step, run_steps,
}
use harvestledger.Tracing.Keys.{
  is_set, Outlast, ttl_ms, is_set-del, has-Outlast, del-Outlast, count-pick,
}

-- The claims of a step lie in the 24 hours from `start` on.
abbrev pub InWindow : {V : Type 0} → ℕ → Step V → Type 0
InWindow start (begins d) = (start ≤ d.now) × (d.now < start + ttl_ms)
InWindow start (finishes _ _ _) = Unit

module _ {V : Type 0} (id : V → Option ℕ) (to_string : ℕ → String) where
  -- How many documents have the key `k`, and how many deliveries in flight.
  unfoldable pub stored : String → Store V → ℕ
  stored k s = count (λ e. str_eq (idem_key id to_string e.event_type e.payload) k) s.events

  unfoldable pub flying : String → List (Delivery V) → ℕ
  flying k ds = count (λ d. str_eq (key_of id to_string d) k) ds

  -- No key expires before `horizon`, and a key is set exactly while one document or one delivery in
  -- flight has it.
  pub record IsOnce (horizon : ℕ) (s : System V) : Type 0 where
    pub outlast : Outlast horizon s.store.keys
    pub once : (k : String) → stored k s.store + flying k s.in_flight ≡ bit (is_set k s.store.keys)

  -- A save of key `k` is refused.
  abbrev pub refuses : String → Bool → Option (Delivery V × List (Delivery V)) → Bool
  refuses k saves none = false
  refuses k saves (some (d, rest)) = not saves && str_eq (key_of id to_string d) k

  -- Whether a delivery of the key began after the last refused save of the key; `before` is what held at
  -- the start.
  abbrev pub wanted_after : String → Step V → System V → Bool → Bool
  wanted_after k (begins d) s before = before || str_eq (key_of id to_string d) k
  wanted_after k (finishes place now saves) s before =
      before && not (refuses k saves (pick place s.in_flight))

  unfoldable pub is_wanted : String → List (Step V) → System V → Bool → Bool
  is_wanted k [] s before = before
  is_wanted k (x ∷ xs) s before = is_wanted k xs (step id to_string x s) (wanted_after k x s before)

  claim-seen :
      (d : Delivery V) (s : Store V)
      → has d.now (key_of id to_string d) s.keys ≡ true
      → claim id to_string d.now d.type d.body s ≡ (false, s)
  unfolding claim set_if_absent
  claim-seen d s seen = ground arith

  claim-new :
      (d : Delivery V) (s : Store V)
      → has d.now (key_of id to_string d) s.keys ≡ false
      → claim id to_string d.now d.type d.body s ≡ (
        true,
        record s {
          keys = (key_of id to_string d, d.now + ttl_ms) ∷ del (key_of id to_string d) s.keys;
        },
      )
  unfolding claim set_if_absent
  claim-new d s new = ground arith

  stored-save_event :
      (k : String) (saves : Bool) (now : ℕ) (d : Delivery V) (s : Store V)
      → stored k (save_event id to_string saves now d.type d.body s).1
        ≡ stored k s + bit (saves && str_eq (key_of id to_string d) k)
  unfolding stored save_event
  stored-save_event k true now d s = ground (
    arith,
    count-append (λ e. str_eq (idem_key id to_string e.event_type e.payload) k) s.events
        (document id to_string d.type d.body now ∷ []),
  )
  stored-save_event k false now d s = ground arith

  is_set-save_event :
      (k : String) (saves : Bool) (now : ℕ) (d : Delivery V) (s : Store V)
      → is_set k (save_event id to_string saves now d.type d.body s).1.keys
        ≡ (is_set k s.keys && not (not saves && str_eq (key_of id to_string d) k))
  unfolding save_event
  is_set-save_event k true now d s = ground arith
  is_set-save_event k false now d s = is_set-del k (key_of id to_string d) s.keys

  save_event-Outlast :
      (horizon : ℕ) (saves : Bool) (now : ℕ) (d : Delivery V) (s : Store V)
      → Outlast horizon s.keys
      → Outlast horizon (save_event id to_string saves now d.type d.body s).1.keys
  unfolding save_event
  save_event-Outlast horizon true now d s h = h
  save_event-Outlast horizon false now d s h = del-Outlast horizon (key_of id to_string d) s.keys h

  -- The state after the claim of a first delivery.
  abbrev claimed : Delivery V → System V → System V
  claimed d s = record {
    store = record s.store {
      keys = (key_of id to_string d, d.now + ttl_ms) ∷ del (key_of id to_string d) s.store.keys;
    };
    in_flight = s.in_flight ++ d ∷ [];
  }

  is_set-claimed :
      (k : String) (d : Delivery V) (s : System V)
      → is_set k (claimed d s).store.keys
        ≡ (is_set k s.store.keys || str_eq (key_of id to_string d) k)
  unfolding is_set
  is_set-claimed k d s =
      ground
        (arith, is_set-del k (key_of id to_string d) s.store.keys, eq_iff (key_of id to_string d) k)

  claimed-IsOnce :
      (horizon : ℕ) (d : Delivery V) (s : System V)
      → horizon ≤ d.now + ttl_ms
      → is_set (key_of id to_string d) s.store.keys ≡ false
      → IsOnce horizon s
      → IsOnce horizon (claimed d s)
  unfolding stored flying
  claimed-IsOnce horizon d s late new h = record {
    outlast = (late, del-Outlast horizon (key_of id to_string d) s.store.keys h.outlast);
    once = λ k. ground (
      arith,
      h.once k,
      is_set-claimed k d s,
      count-append (λ x. str_eq (key_of id to_string x) k) s.in_flight (d ∷ []),
      new,
      eq_iff (key_of id to_string d) k,
    );
  }

  begins-IsOnce :
      (start : ℕ) (d : Delivery V) (s : System V)
      → InWindow start (begins d)
      → IsOnce (start + ttl_ms) s
      → IsOnce (start + ttl_ms) (step id to_string (begins d) s)
        × ((k : String)
            → is_set k (step id to_string (begins d) s).store.keys
              ≡ (is_set k s.store.keys || str_eq (key_of id to_string d) k))
  unfolding step begun
  begins-IsOnce start d s now h =
      let key = key_of id to_string d in
      let known = has-Outlast (start + ttl_ms) d.now key s.store.keys now.1 h.outlast in
      elim (Bool-cases (is_set key s.store.keys)) [
        | inl seen ↦
            rw (claim-seen d s.store (known ∙ seen)) (h, λ k. ground (arith, seen, eq_iff key k))
        | inr new ↦ rw (claim-new d s.store (known ∙ new)) (
          claimed-IsOnce (start + ttl_ms) d s (omega (arith, now.0)) new h,
          λ k. is_set-claimed k d s,
        )
      ]

  finished-IsOnce :
      (horizon now : ℕ) (saves : Bool) (o : Option (Delivery V × List (Delivery V))) (s : System V)
      → ((k : String) (x : Delivery V) (rest : List (Delivery V))
          → o ≡ some (x, rest)
          → flying k s.in_flight ≡ bit (str_eq (key_of id to_string x) k) + flying k rest)
      → IsOnce horizon s
      → IsOnce horizon (finished id to_string o now saves s)
        × ((k : String)
            → is_set k (finished id to_string o now saves s).store.keys
              ≡ (is_set k s.store.keys && not (refuses k saves o)))
  unfolding finished
  finished-IsOnce horizon now saves none s picked h = (h, λ k. ground arith)
  finished-IsOnce horizon now saves (some (d, rest)) s picked h = (
    record {
      outlast = save_event-Outlast horizon saves now d s.store h.outlast;
      once = λ k. ground (
        arith,
        h.once k,
        picked k d rest refl,
        stored-save_event k saves now d s.store,
        is_set-save_event k saves now d s.store,
      );
    },
    λ k. is_set-save_event k saves now d s.store,
  )

  step-IsOnce :
      (start : ℕ) (x : Step V) (s : System V)
      → InWindow start x
      → IsOnce (start + ttl_ms) s
      → IsOnce (start + ttl_ms) (step id to_string x s)
        × ((k : String)
            → is_set k (step id to_string x s).store.keys
              ≡ wanted_after k x s (is_set k s.store.keys))
  unfolding step flying
  step-IsOnce start (begins d) s now h = begins-IsOnce start d s now h
  step-IsOnce start (finishes place now saves) s _ h =
      finished-IsOnce (start + ttl_ms) now saves (pick place s.in_flight) s
        (λ k. count-pick (λ d. str_eq (key_of id to_string d) k) place s.in_flight) h

  run_steps-IsOnce :
      (start : ℕ) (xs : List (Step V)) (s : System V)
      → All (InWindow start) xs
      → IsOnce (start + ttl_ms) s
      → IsOnce (start + ttl_ms) (run_steps id to_string xs s)
        × ((k : String)
            → is_set k (run_steps id to_string xs s).store.keys
              ≡ is_wanted k xs s (is_set k s.store.keys))
  unfolding run_steps is_wanted
  run_steps-IsOnce start [] s now h = (h, λ k. refl)
  run_steps-IsOnce start (x ∷ xs) s now h =
      let (h', set) = step-IsOnce start x s now.0 h in
      let (end, sets) = run_steps-IsOnce start xs (step id to_string x s) now.1 h' in
      (end, λ k. sets k ∙ ap (is_wanted k xs (step id to_string x s)) (set k))

  record_event-seen :
      (d : Delivery V) (now : ℕ) (saves : Bool) (st : Store V)
      → has d.now (key_of id to_string d) st.keys ≡ true
      → (record_event id to_string saves d.now now d.type d.body st).1 ≡ st
  unfolding record_event
  record_event-seen d now saves st seen = ground arith

  record_event-new :
      (d : Delivery V) (now : ℕ) (saves : Bool) (st : Store V)
      → has d.now (key_of id to_string d) st.keys ≡ false
      → record_event id to_string saves d.now now d.type d.body st
        ≡ save_event id to_string saves now d.type d.body
            (claimed d (record { store = st; in_flight = [] })).store
  unfolding record_event
  record_event-new d now saves st new = ground arith

  -- A delivery whose two steps no other step divides is `record_event`.
  run_steps-record_event :
      (d : Delivery V) (now : ℕ) (saves : Bool) (st : Store V)
      → (run_steps id to_string
          (begins d ∷ finishes 0 now saves ∷ [])
          (record { store = st; in_flight = [] })).store
        ≡ (record_event id to_string saves d.now now d.type d.body st).1
  unfolding run_steps step begun finished pick
  run_steps-record_event d now saves st =
      elim (Bool-cases (has d.now (key_of id to_string d) st.keys)) [
        | inl seen ↦ rw (claim-seen d st seen, record_event-seen d now saves st seen) refl
        | inr new ↦ rw (claim-new d st new, record_event-new d now saves st new) refl
      ]

  -- Exactly once for 24 hours: deliveries claim and save in steps that interleave in any way, a
  -- delivery may meet the claim of one that has not saved yet or stop after its claim, and MongoDB may
  -- refuse saves. If a key is set at first exactly while one document or one delivery in flight has
  -- it, no key expires within the 24 hours from `start`, and all claims lie in them, then this still
  -- holds after the steps; and a key has exactly one document or delivery in flight if a delivery of
  -- it began after its last refused save, or it was set at first and no save of it was refused, and
  -- none otherwise.
  pub stored-run_steps :
      (start : ℕ) (xs : List (Step V)) (s : System V)
      → All (InWindow start) xs
      → IsOnce (start + ttl_ms) s
      → IsOnce (start + ttl_ms) (run_steps id to_string xs s)
        × ((k : String)
            → stored k (run_steps id to_string xs s).store
                + flying k (run_steps id to_string xs s).in_flight
              ≡ bit (is_wanted k xs s (is_set k s.store.keys)))
  stored-run_steps start xs s now h =
      let (end, sets) = run_steps-IsOnce start xs s now h in
      (end, λ k. end.once k ∙ ap bit (sets k))
