-- ===== src/Report/Groups.antt =====
-- `groupByOwner` of apps/farms/src/report/report.service.ts.
use harvestledger.Base.{
  ℕ, ◌+◌, Bool, List, [], ◌∷◌, ◌++◌, ◌≡◌, refl, sym, arith, map, keep, any, count, All, ◌==◌,
  Bool-cases, inl, inr, if◌then◌else◌,
}
use mathlib.Core.List.{append_assoc, append-nil}
use harvestledger.Store.{bit}
use harvestledger.UserProjection.{Projection, find_user}
use harvestledger.Report.{
  FarmTree, FarmReport, Group, summary, shape_farm, add_farm, add_farms, group_by_owner,
}

-- The farms that are reported under user `k`.
unfoldable pub reported : ℕ → List Group → List FarmReport
reported k [] = []
reported k (g ∷ gs) = let rest = reported k gs in if g.user_id == k then g.farms else rest

-- How many groups user `k` has.
unfoldable pub groups_of : ℕ → List Group → ℕ
groups_of k gs = count (λ g. g.user_id == k) gs

abbrev pub is_of : ℕ → FarmTree → Bool
is_of k t = t.farm.user_id == k

abbrev own : ℕ → FarmTree → List FarmReport
own k t = if is_of k t then shape_farm t ∷ [] else []

module _ (owners : List Projection) where
  -- Each group's owner is the one that its key names.
  abbrev pub AreOwned : List Group → Type 0
  AreOwned = All (λ g. g.owner ≡ summary g.user_id (find_user g.user_id owners))

  reported-add_farm :
      (k : ℕ) (t : FarmTree) (gs : List Group)
      → reported k (add_farm owners t gs) ≡ reported k gs ++ own k t
  unfolding reported add_farm
  reported-add_farm k t [] = ground arith
  reported-add_farm k t (g ∷ gs) =
      ground (arith, reported-add_farm k t gs, append-nil g.farms, append-nil (reported k gs))

  groups_of-add_farm :
      (k : ℕ) (t : FarmTree) (gs : List Group)
      → groups_of k (add_farm owners t gs)
        ≡ (if is_of k t then groups_of k gs + bit (groups_of k gs == 0) else groups_of k gs)
  unfolding groups_of add_farm
  groups_of-add_farm k t [] = ground arith
  groups_of-add_farm k t (g ∷ gs) = ground (arith, groups_of-add_farm k t gs)

  AreOwned-add_farm :
      (t : FarmTree) (gs : List Group) → AreOwned gs → AreOwned (add_farm owners t gs)
  unfolding add_farm
  AreOwned-add_farm t [] h = (refl, tt)
  AreOwned-add_farm t (g ∷ gs) h = elim (Bool-cases (g.user_id == t.farm.user_id)) [
    | inl same ↦ rw same h
    | inr differ ↦ rw differ (h.0, AreOwned-add_farm t gs h.1)
  ]

  reported-add_farms :
      (k : ℕ) (ts : List FarmTree) (gs : List Group)
      → reported k (add_farms owners ts gs) ≡ reported k gs ++ map shape_farm (keep (is_of k) ts)
  unfolding add_farms
  reported-add_farms k [] gs = sym (append-nil (reported k gs))
  reported-add_farms k (t ∷ ts) gs = ground (
    arith,
    reported-add_farms k ts (add_farm owners t gs),
    reported-add_farm k t gs,
    append_assoc (reported k gs) (own k t) (map shape_farm (keep (is_of k) ts)),
    append-nil (reported k gs),
  )

  groups_of-add_farms :
      (k : ℕ) (ts : List FarmTree) (gs : List Group)
      → groups_of k (add_farms owners ts gs)
        ≡ (if any (is_of k) ts then groups_of k gs + bit (groups_of k gs == 0) else groups_of k gs)
  unfolding add_farms
  groups_of-add_farms k [] gs = refl
  groups_of-add_farms k (t ∷ ts) gs =
      ground (arith, groups_of-add_farms k ts (add_farm owners t gs), groups_of-add_farm k t gs)

  AreOwned-add_farms :
      (ts : List FarmTree) (gs : List Group) → AreOwned gs → AreOwned (add_farms owners ts gs)
  unfolding add_farms
  AreOwned-add_farms [] gs h = h
  AreOwned-add_farms (t ∷ ts) gs h =
      AreOwned-add_farms ts (add_farm owners t gs) (AreOwned-add_farm t gs h)

  -- The report of the admin partitions the farms by owner: a user has one group if the user has a
  -- farm and none otherwise, the farms reported under a user are exactly the user's, in their order,
  -- and each group's owner is the user of its key, by the projection or by the bare id.
  pub group_by_owner-AreOwned :
      (ts : List FarmTree)
      → AreOwned (group_by_owner owners ts)
        × ((k : ℕ)
            → (groups_of k (group_by_owner owners ts) ≡ bit (any (is_of k) ts))
              × (reported k (group_by_owner owners ts) ≡ map shape_farm (keep (is_of k) ts)))
  unfolding group_by_owner reported groups_of
  group_by_owner-AreOwned ts = (
    AreOwned-add_farms ts [] tt,
    λ k. (ground (arith, groups_of-add_farms k ts []), reported-add_farms k ts []),
  )
