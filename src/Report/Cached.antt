-- ===== src/Report/Cached.antt =====
-- Who gets the report of a farmer, and how long: apps/farms/src/report/report.service.ts.
use harvestledger.Base.{
  ℕ, String, some, ◌≡◌, ◌≢◌, refl, ap, ◌∙◌, arith, ◌==◌, ==_iff, Bool-cases, Option-cases, inl, inr,
  if◌then◌else◌, List,
}
use text.Mathlib.TextPositions.{eq_refl}
use harvestledger.Base.Assoc.{lookup, insert, lookup-insert}
use harvestledger.Http.{forbidden}
use harvestledger.Farms.World.{ok, err, present}
use harvestledger.Report.{
  Report, FarmTree, farmer_report, Cache, through_cache, generate_farmer_report,
}

module _ (parse : String → Report) (stringify : Report → String) (to_string : ℕ → String) where
  -- JSON gives back the report, and its text is not empty.
  abbrev pub IsStored : Report → Type 0
  IsStored r = (parse (stringify r) ≡ r) × (present (some (stringify r)) ≡ some (stringify r))

  through_cache-twice :
      (key : String) (r r' report : Report) (cache cache' : Cache)
      → IsStored r
      → through_cache parse stringify key r cache ≡ (ok report, cache')
      → through_cache parse stringify key r' cache' ≡ (ok report, cache')
  unfolding through_cache
  through_cache-twice key r r' report cache cache' is_stored h =
      elim (Option-cases (present (lookup key cache))) [
        | inl miss ↦
            let stored : cache' ≡ insert key (stringify r) cache = ground arith in
            let same : r ≡ report = ground arith in
            let found : lookup key cache' ≡ some (stringify r) =
              ap (lookup key) stored
              ∙ lookup-insert key key (stringify r) cache
              ∙ ap (λ b. if b then some (stringify r) else lookup key cache) (eq_refl key) in
            let hit : present (lookup key cache') ≡ some (stringify r) =
              ap present found ∙ is_stored.1 in
            ground (arith, is_stored.0)
        | inr (text, hit) ↦ ground arith
      ]

  -- The report of a farmer is refused to everybody else, and nothing is cached for them. Where
  -- JSON gives back the report and its text is not empty, the farmer gets the same report again while
  -- the cache's entry lasts, whatever has become of the tables.
  pub generate_farmer_report-twice :
      (ts ts' : List FarmTree) (farmer_id req_id : ℕ) (cache : Cache)
      → IsStored (farmer_report ts farmer_id)
      → (farmer_id ≢ req_id
          → generate_farmer_report parse stringify to_string ts farmer_id req_id cache
            ≡ (err (forbidden "You can only access your own report"), cache))
        × ((report : Report) (cache' : Cache)
            → generate_farmer_report parse stringify to_string ts farmer_id req_id cache
              ≡ (ok report, cache')
            → generate_farmer_report parse stringify to_string ts' farmer_id req_id cache'
              ≡ (ok report, cache'))
  unfolding generate_farmer_report
  generate_farmer_report-twice ts ts' farmer_id req_id cache is_stored =
      elim (Bool-cases (farmer_id == req_id)) [
        | inl own ↦ (
          λ other. absurd (other ((==_iff farmer_id req_id).0 own)),
          λ report cache' h.
              rw own (through_cache-twice _ _ _ report cache cache' is_stored (rw own at h)),
        )
        | inr foreign ↦ (λ other. rw foreign refl, λ report cache' h. absurd (ground arith))
      ]
