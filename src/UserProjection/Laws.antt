-- ===== src/UserProjection/Laws.antt =====
-- The copy converges to the last event of each user: apps/farms/src/user-projection.
use harvestledger.Base.{
  ℕ, Option, some, List, [], ◌∷◌, ◌++◌, ◌≡◌, refl, sym, ◌∙◌, ap, arith, ◌==◌, ◌⊎◌, inl, inr,
  Bool-cases, if◌then◌else◌,
}
use harvestledger.UserProjection.{
  Projection, UserProjectionEventDto, UserEvent, user_created, user_updated, projected, handle_user,
}

abbrev pub body_of : UserEvent → UserProjectionEventDto
body_of (user_created d) = d
body_of (user_updated d) = d

-- The row with the id, the names, the email and the role of the last event for user `k`, or else the
-- one that was there.
abbrev pub last_of : ℕ → List UserEvent → Option Projection → Option Projection
last_of k [] before = before
last_of k (e ∷ es) before = last_of k es (
    if (body_of e).id == k
    then some (record {
      id = k;
      first_name = (body_of e).first_name;
      last_name = (body_of e).last_name;
      email = (body_of e).email;
      rol = (body_of e).rol;
    })
    else before)

last_of-constant :
    (k : ℕ) (es : List UserEvent)
    → ((a b : Option Projection) → last_of k es a ≡ last_of k es b)
      ⊎ ((a : Option Projection) → last_of k es a ≡ a)
last_of-constant k [] = inr (λ a. refl)
last_of-constant k (e ∷ es) = elim (Bool-cases ((body_of e).id == k)) [
  | inl same ↦ inl (λ a b. rw same refl)
  | inr other ↦ rw other (last_of-constant k es)
]

last_of-last_of :
    (k : ℕ) (es : List UserEvent) (a : Option Projection)
    → last_of k es (last_of k es a) ≡ last_of k es a
last_of-last_of k es a = elim (last_of-constant k es) [
  | inl constant ↦ constant (last_of k es a) a
  | inr kept ↦ kept (last_of k es a)
]

module _ {S : Type 0} (repository_upsert : Projection → S → S) where
  unfoldable pub handle_users : List UserEvent → S → S
  handle_users [] s = s
  handle_users (e ∷ es) s = handle_users es (handle_user repository_upsert e s)

  handle_users-append :
      (es fs : List UserEvent) (s : S)
      → handle_users (es ++ fs) s ≡ handle_users fs (handle_users es s)
  unfolding handle_users
  handle_users-append [] fs s = refl
  handle_users-append (e ∷ es) fs s = handle_users-append es fs (handle_user repository_upsert e s)

-- `conflict` is what an upsert by the primary key `id` does: the row of that id is the given one, and
-- the others are as they were.
module _ {S : Type 0} (repository_upsert : Projection → S → S)
    (find_one : ℕ → S → Option Projection)
    (conflict : (p : Projection) (s : S) (k : ℕ)
      → find_one k (repository_upsert p s) ≡ (if p.id == k then some p else find_one k s)) where
  find_one-handle_user :
      (k : ℕ) (e : UserEvent) (s : S)
      → find_one k (handle_user repository_upsert e s) ≡ last_of k (e ∷ []) (find_one k s)
  unfolding handle_user projected
  find_one-handle_user k (user_created d) s = ground (arith, conflict (projected d) s k)
  find_one-handle_user k (user_updated d) s = ground (arith, conflict (projected d) s k)

  find_one-all :
      (k : ℕ) (es : List UserEvent) (s : S)
      → find_one k (handle_users repository_upsert es s) ≡ last_of k es (find_one k s)
  unfolding handle_users
  find_one-all k [] s = refl
  find_one-all k (e ∷ es) s =
      find_one-all k es (handle_user repository_upsert e s)
      ∙ ap (last_of k es) (find_one-handle_user k e s)

  -- With a repository whose upsert replaces the row of its id: after any deliveries of user.created
  -- and user.updated, in whatever order and however often, a user's row has the id, both names, the
  -- email and the role of the last delivered event for the user, and is as it was if there is none;
  -- and the same deliveries once more leave every user's row as it is.
  pub find_one-handle_users :
      (k : ℕ) (es : List UserEvent) (s : S)
      → (find_one k (handle_users repository_upsert es s) ≡ last_of k es (find_one k s))
        × (find_one k (handle_users repository_upsert (es ++ es) s)
            ≡ find_one k (handle_users repository_upsert es s))
  find_one-handle_users k es s =
      let once = find_one-all k es s in
      (
        once,
        ap (find_one k) (handle_users-append repository_upsert es es s)
            ∙ find_one-all k es (handle_users repository_upsert es s)
            ∙ ap (last_of k es) once
            ∙ last_of-last_of k es (find_one k s)
            ∙ sym once,
      )
