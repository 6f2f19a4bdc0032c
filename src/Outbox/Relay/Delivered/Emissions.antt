-- ===== src/Outbox/Relay/Delivered/Emissions.antt =====
-- What the emits of one row deliver, and rows that hold the same event.
use harvestledger.Base.{
  String, Bool, true, false, ◌≡◌, refl, sym, List, [], ◌∷◌, arith, All, All-map, All-map₂,
  Bool-cases, inl, inr,
}
use mathlib.Core.Path.{subst}
use harvestledger.Outbox.{Row, Payload}
use harvestledger.Outbox.Relay.{Targets, emit_all}
use harvestledger.Outbox.Relay.Rows.{AllEvolve, Distinct}

module _ {V : Type 0} where
  -- Rows with the id of `r` hold the event of `r`.
  abbrev pub Agrees : List (Row V) → Row V → Type 0
  Agrees rows r = All (λ x. x.id ≡ r.id → (x.pattern ≡ r.pattern) × (x.payload ≡ r.payload)) rows

  pub Agrees-AllEvolve :
      (rs rs' : List (Row V)) (r : Row V) → AllEvolve rs rs' → Agrees rs r → Agrees rs' r
  Agrees-AllEvolve [] [] r h a = tt
  Agrees-AllEvolve (x ∷ rs) (x' ∷ rs') r h a =
      (λ e. ground (arith, a.0, h.0), Agrees-AllEvolve rs rs' r h.1 a.1)
  Agrees-AllEvolve [] (_ ∷ _) r h a = absurd h
  Agrees-AllEvolve (_ ∷ _) [] r h a = absurd h

  pub Agrees-Distinct : (rs : List (Row V)) → Distinct rs → All (Agrees rs) rs
  Agrees-Distinct [] d = tt
  Agrees-Distinct (x ∷ xs) d = (
    (λ _. (refl, refl), All-map xs (λ y fresh e. absurd (fresh e)) d.0),
    All-map₂ xs (λ y fresh agrees. (λ e. absurd (fresh (sym e)), agrees)) d.0
        (Agrees-Distinct xs d.1),
  )

-- `Delivered c pattern payload b`: in the broker's state `b`, client `c` has taken over the event.
-- An `emit` that completes has delivered (`accepted`), and what is delivered stays so (`kept`).
module _ {V Client Broker : Type 0} (emit : Client → String → Payload V → Broker → Bool × Broker)
    (targets : Targets Client) (Delivered : Client → String → Payload V → Broker → Type 0)
    (accepted : (c : Client) (pattern : String) (payload : Payload V) (b : Broker)
      → (emit c pattern payload b).0 ≡ true
      → Delivered c pattern payload (emit c pattern payload b).1)
    (kept : (c c' : Client) (pattern pattern' : String) (payload payload' : Payload V) (b : Broker)
      → Delivered c pattern payload b
      → Delivered c pattern payload (emit c' pattern' payload' b).1) where
  pub emit_all_kept :
      (c : Client) (cs : List Client) (pattern pattern' : String) (payload payload' : Payload V)
      (b : Broker)
      → Delivered c pattern payload b
      → Delivered c pattern payload (emit_all emit cs pattern' payload' b).1
  unfolding emit_all
  emit_all_kept c [] pattern pattern' payload payload' b d = d
  emit_all_kept c (c' ∷ cs) pattern pattern' payload payload' b d =
      elim (Bool-cases (emit c' pattern' payload' b).0) [
        | inl done ↦ rw done (
            emit_all_kept c cs pattern pattern' payload payload' (emit c' pattern' payload' b).1
              (kept c c' pattern pattern' payload payload' b d))
        | inr failed ↦ rw failed (kept c c' pattern pattern' payload payload' b d)
      ]

  pub emit_all-cons :
      (c : Client) (cs : List Client) (pattern : String) (payload : Payload V) (b : Broker)
      → (emit c pattern payload b).0 ≡ true
      → emit_all emit (c ∷ cs) pattern payload b
        ≡ emit_all emit cs pattern payload (emit c pattern payload b).1
  unfolding emit_all
  emit_all-cons c cs pattern payload b done = rw done

  pub emit_all-fails :
      (c : Client) (cs : List Client) (pattern : String) (payload : Payload V) (b : Broker)
      → (emit c pattern payload b).0 ≡ false
      → (emit_all emit (c ∷ cs) pattern payload b).0 ≡ false
  unfolding emit_all
  emit_all-fails c cs pattern payload b failed = rw failed

  pub emit_all_accepted :
      (cs : List Client) (pattern : String) (payload : Payload V) (b : Broker)
      → (emit_all emit cs pattern payload b).0 ≡ true
      → All (λ c. Delivered c pattern payload (emit_all emit cs pattern payload b).1) cs
  emit_all_accepted [] pattern payload b e = tt
  emit_all_accepted (c ∷ cs) pattern payload b e = elim (Bool-cases (emit c pattern payload b).0) [
    | inl done ↦
        let b' : Broker = (emit c pattern payload b).1 in
        let same : emit_all emit (c ∷ cs) pattern payload b ≡ emit_all emit cs pattern payload b' =
          emit_all-cons c cs pattern payload b done in
        subst (λ (r : Bool × Broker). All (λ c'. Delivered c' pattern payload r.1) (c ∷ cs))
          (sym same)
          (
            emit_all_kept c cs pattern pattern payload payload b'
                (accepted c pattern payload b done),
            emit_all_accepted cs pattern payload b' (rw same at e),
          )
    | inr failed ↦ absurd (cc (emit_all-fails c cs pattern payload b failed))
  ]
