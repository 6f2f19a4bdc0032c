-- ===== src/Tracing/Once/Lost.antt =====
-- A claim whose delivery does not go on: `recordEvent` of apps/tracing/src/tracing.service.ts.
use harvestledger.Base.{
  ℕ, ◌+◌, ◌<◌, String, Bool, true, false, ◌&&◌, List, [], ◌∷◌, Option, none, some, ◌≡◌, refl, ◌∙◌,
  arith, any, count-append, All, leb, Bool-cases, inl, inr,
}
use text.Mathlib.Text.{◌==◌ as str_eq}
use text.Mathlib.TextEquality.{eq_iff}
use harvestledger.Store.{bit}
use harvestledger.Tracing.{Store, has, del, claim, save_event}
use harvestledger.Tracing.Steps.{
  Delivery, System, Step, begins, finishes, pick, key_of, begun, finished, step, run_steps,
}
use harvestledger.Tracing.Once.{
  stored, flying, ttl_ms, count-pick, claim-seen, claim-new, stored-save_event,
}

-- The key is set, and does not expire before `horizon`.
unfoldable pub is_set_until : ℕ → String → List (String × ℕ) → Bool
is_set_until horizon k keys = any (λ e. str_eq e.0 k && leb horizon e.1) keys

has-is_set_until :
    (horizon now : ℕ) (k : String) (keys : List (String × ℕ))
    → now < horizon
    → is_set_until horizon k keys ≡ true
    → has now k keys ≡ true
unfolding has is_set_until
has-is_set_until horizon now k [] early h = absurd (cc h)
has-is_set_until horizon now k (x ∷ keys) early h =
    ground (arith, has-is_set_until horizon now k keys early, h)

is_set_until-del :
    (horizon : ℕ) (k j : String) (keys : List (String × ℕ))
    → str_eq j k ≡ false
    → is_set_until horizon k (del j keys) ≡ is_set_until horizon k keys
unfolding is_set_until del
is_set_until-del horizon k j [] differ = refl
is_set_until-del horizon k j (x ∷ keys) differ =
    ground (arith, is_set_until-del horizon k j keys differ, eq_iff x.0 k, eq_iff x.0 j, eq_iff j k)

-- The claims of a step come before `horizon`.
abbrev pub IsBefore : {V : Type 0} → ℕ → Step V → Type 0
IsBefore horizon (begins d) = d.now < horizon
IsBefore horizon (finishes _ _ _) = Unit

module _ {V : Type 0} (id : V → Option ℕ) (to_string : ℕ → String) where
  -- The key is claimed for good, and no delivery in flight has it.
  record IsLost (horizon : ℕ) (k : String) (s : System V) : Type 0 where
    pub claimed : is_set_until horizon k s.store.keys ≡ true
    pub grounded : flying id to_string k s.in_flight ≡ 0

  begins-IsLost :
      (horizon : ℕ) (k : String) (d : Delivery V) (s : System V)
      → d.now < horizon
      → IsLost horizon k s
      → IsLost horizon k (step id to_string (begins d) s)
        × (stored id to_string k (step id to_string (begins d) s).store
            ≡ stored id to_string k s.store)
  unfolding step begun
  begins-IsLost horizon k d s early h =
      let key = key_of id to_string d in
      elim (Bool-cases (has d.now key s.store.keys)) [
        | inl seen ↦ rw (claim-seen id to_string d s.store seen) (h, refl)
        | inr new ↦
            let live = has-is_set_until horizon d.now k s.store.keys early h.claimed in
            let differ : str_eq key k ≡ false = ground (arith, live, new, eq_iff key k) in
            rw (claim-new id to_string d s.store new) (
              record {
                claimed =
                    unfold is_set_until in
                    ground (
                      arith,
                      is_set_until-del horizon k key s.store.keys differ,
                      h.claimed,
                      differ,
                    );
                grounded =
                    unfold flying in
                    ground (
                      arith,
                      count-append (λ x. str_eq (key_of id to_string x) k) s.in_flight (d ∷ []),
                      h.grounded,
                      differ,
                    );
              },
              unfold stored in refl,
            )
      ]

  is_set_until-save_event :
      (horizon : ℕ) (k : String) (saves : Bool) (now : ℕ) (d : Delivery V) (s : Store V)
      → str_eq (key_of id to_string d) k ≡ false
      → is_set_until horizon k (save_event id to_string saves now d.type d.body s).1.keys
        ≡ is_set_until horizon k s.keys
  unfolding save_event
  is_set_until-save_event horizon k true now d s differ = refl
  is_set_until-save_event horizon k false now d s differ =
      is_set_until-del horizon k (key_of id to_string d) s.keys differ

  finished-IsLost :
      (horizon now : ℕ) (k : String) (saves : Bool) (o : Option (Delivery V × List (Delivery V)))
      (s : System V)
      → ((x : Delivery V) (rest : List (Delivery V))
          → o ≡ some (x, rest)
          → flying id to_string k s.in_flight
            ≡ bit (str_eq (key_of id to_string x) k) + flying id to_string k rest)
      → IsLost horizon k s
      → IsLost horizon k (finished id to_string o now saves s)
        × (stored id to_string k (finished id to_string o now saves s).store
            ≡ stored id to_string k s.store)
  unfolding finished
  finished-IsLost horizon now k saves none s picked h = (h, refl)
  finished-IsLost horizon now k saves (some (d, rest)) s picked h =
      let split = picked d rest refl in
      let differ : str_eq (key_of id to_string d) k ≡ false = ground (arith, split, h.grounded) in
      (
        record {
          claimed = is_set_until-save_event horizon k saves now d s.store differ ∙ h.claimed;
          grounded = ground (arith, split, h.grounded);
        },
        ground (arith, stored-save_event id to_string k saves now d s.store, differ),
      )

  step-IsLost :
      (horizon : ℕ) (k : String) (x : Step V) (s : System V)
      → IsBefore horizon x
      → IsLost horizon k s
      → IsLost horizon k (step id to_string x s)
        × (stored id to_string k (step id to_string x s).store ≡ stored id to_string k s.store)
  unfolding step flying
  step-IsLost horizon k (begins d) s early h = begins-IsLost horizon k d s early h
  step-IsLost horizon k (finishes place now saves) s _ h =
      finished-IsLost horizon now k saves (pick place s.in_flight) s
        (count-pick (λ d. str_eq (key_of id to_string d) k) place s.in_flight) h

  run_steps-IsLost :
      (horizon : ℕ) (k : String) (xs : List (Step V)) (s : System V)
      → All (IsBefore horizon) xs
      → IsLost horizon k s
      → stored id to_string k (run_steps id to_string xs s).store ≡ stored id to_string k s.store
  unfolding run_steps
  run_steps-IsLost horizon k [] s early h = refl
  run_steps-IsLost horizon k (x ∷ xs) s early h =
      let (h', same) = step-IsLost horizon k x s early.0 h in
      run_steps-IsLost horizon k xs (step id to_string x s) early.1 h' ∙ same

  -- The state after the claim of a first delivery that goes no further.
  abbrev stopped : Delivery V → System V → System V
  stopped d s = record s {
    store = record s.store {
      keys = (key_of id to_string d, d.now + ttl_ms) ∷ del (key_of id to_string d) s.store.keys;
    };
  }

  -- A consumer that stops between the claim and the document's save loses the event: after the claim
  -- of a first delivery that makes no further step, no document with its key is added, whatever
  -- other deliveries begin in the 24 hours in which the key is set, and whatever those in flight, of
  -- other keys, do.
  pub claim_lost :
      (d : Delivery V) (xs : List (Step V)) (s : System V)
      → has d.now (key_of id to_string d) s.store.keys ≡ false
      → flying id to_string (key_of id to_string d) s.in_flight ≡ 0
      → All (IsBefore (d.now + ttl_ms)) xs
      → stored id to_string
          (key_of id to_string d)
          (run_steps id to_string xs
            (record s { store = (claim id to_string d.now d.type d.body s.store).1 })).store
        ≡ stored id to_string (key_of id to_string d) s.store
  claim_lost d xs s new grounded early =
      let key = key_of id to_string d in
      rw (claim-new id to_string d s.store new) (
        run_steps-IsLost (d.now + ttl_ms) key xs (stopped d s) early (record {
          claimed = unfold is_set_until in ground (arith, eq_iff key key);
          grounded = grounded;
        })
        ∙ unfold stored in refl)
