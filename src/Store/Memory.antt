-- ===== src/Store/Memory.antt =====
-- A table in memory, in place of PostgreSQL's: the rows in a list, the newest first. A row whose key
-- occurs before it in the list is not seen.
use harvestledger.Base.{
  ℕ, suc, ◌+◌, Bool, true, false, not, Option, none, some, ◌≡◌, ◌≢◌, refl, sym, ap, ◌∙◌, arith,
  List, [], ◌∷◌, length, keep, All, All-map, ◌==◌, ==_iff, Bool-cases, Option-cases, inl, inr,
  if◌then◌else◌,
}
use mathlib.Core.Option
use mathlib.Core.Path.{subst}
use Prim.Native.Nat.{max}
use harvestledger.Store.{Table, IsTable, bit}

module _ {E : Type 0} (key : E → ℕ) where
  unfoldable pub first : ℕ → List E → Option E
  first k [] = none
  first k (x ∷ xs) = let rest = first k xs in if k == key x then some x else rest

  unfoldable pub without : ℕ → List E → List E
  without k xs = keep (λ x. not (k == key x)) xs

  unfoldable pub visible : List E → List E
  unfolding without
  visible [] = []
  visible (x ∷ xs) = x ∷ without (key x) (visible xs)

  unfoldable pub next_key : List E → ℕ
  next_key [] = 1
  next_key (x ∷ xs) = max (suc (key x)) (next_key xs)

  -- The keys of a table are generated: another key than the next one is refused.
  abbrev insert_at : ℕ → (ℕ → E) → List E → Option (E × List E)
  insert_at n mk xs = elim (first n xs) [
    | none ↦ if n == key (mk n) then some (mk n, mk n ∷ xs) else none
    | some _ ↦ none
  ]

  abbrev put : E → List E → List E
  put x xs = x ∷ xs

  abbrev update_with : ℕ → (E → E) → List E → Option E → Option (List E)
  update_with k f xs none = some xs
  update_with k f xs (some x) = if k == key (f x) then some (put (f x) xs) else none

  unfoldable pub memory : Table (List E) E
  unfolding first visible next_key without
  memory = record {
    find_one = first;
    find = λ p xs. keep p (visible xs);
    insert = λ mk xs. insert_at (next_key xs) mk xs;
    save = λ x xs. some (put x xs);
    update = λ k f xs. update_with k f xs (first k xs);
    remove = λ x xs. some (without (key x) xs);
  }

  first-without :
      (k j : ℕ) (xs : List E) → first k (without j xs) ≡ (if k == j then none else first k xs)
  unfolding first without
  first-without k j [] = ground arith
  first-without k j (x ∷ xs) = ground (arith, first-without k j xs)

  first-visible : (k : ℕ) (xs : List E) → first k (visible xs) ≡ first k xs
  unfolding first visible
  first-visible k [] = refl
  first-visible k (x ∷ xs) =
      ground (arith, first-visible k xs, first-without k (key x) (visible xs))

  first-key : (k : ℕ) (xs : List E) (e : E) → first k xs ≡ some e → key e ≡ k
  unfolding first
  first-key k [] e h = absurd (cc h)
  first-key k (x ∷ xs) e h = ground (arith, first-key k xs e)

  without_absent : (k : ℕ) (xs : List E) → first k xs ≡ none → without k xs ≡ xs
  unfolding first without
  without_absent k [] h = refl
  without_absent k (x ∷ xs) h = ground (arith, without_absent k xs)

  keep_found :
      (p : E → Bool) (k : ℕ) (xs : List E) (e : E)
      → first k xs ≡ some e
      → p e ≡ true
      → 0 ≢ length (keep p xs)
  unfolding first
  keep_found p k [] e h hit = absurd (cc h)
  keep_found p k (x ∷ xs) e h hit = ground (arith, keep_found p k xs e)

  length-keep :
      (p : E → Bool) (x : E) (xs : List E)
      → length (keep p (x ∷ xs)) ≡ length (keep p xs) + bit (p x)
  length-keep p x xs = ground arith

  All-keep :
      (Q : E → Type 0) (p : E → Bool) (xs : List E)
      → All Q xs
      → All (λ e. (p e ≡ true) × Q e) (keep p xs)
  All-keep Q p [] h = tt
  All-keep Q p (x ∷ xs) h =
      let rest : All (λ e. (p e ≡ true) × Q e) (keep p xs) = All-keep Q p xs h.1 in
      elim (Bool-cases (p x)) [
        | inl hit ↦
            subst (λ b. All (λ e. (p e ≡ true) × Q e) (if b then x ∷ keep p xs else keep p xs))
              (sym hit) ((hit, h.0), rest)
        | inr miss ↦
            subst (λ b. All (λ e. (p e ≡ true) × Q e) (if b then x ∷ keep p xs else keep p xs))
              (sym miss) rest
      ]

  visible-found : (xs : List E) → All (λ e. first (key e) xs ≡ some e) (visible xs)
  unfolding first visible without
  visible-found [] = tt
  visible-found (x ∷ xs) = (
    ground arith,
    All-map {P = λ e. (not (key x == key e) ≡ true) × (first (key e) xs ≡ some e)}
        (without (key x) (visible xs)) (λ e h. ground arith)
        (All-keep (λ e. first (key e) xs ≡ some e) (λ e. not (key x == key e)) (visible xs)
          (visible-found xs)),
  )

  insert_at_lem :
      (n : ℕ) (mk : ℕ → E) (s s' : List E) (e : E)
      → insert_at n mk s ≡ some (e, s')
      → (first (key e) s ≡ none) × (e ≡ mk (key e)) × (s' ≡ put e s)
  insert_at_lem n mk s s' e h = elim (Option-cases (first n s)) [
    | inl free ↦ elim (Bool-cases (n == key (mk n))) [
      | inl own ↦
          let at_key : n ≡ key (mk n) = (==_iff n (key (mk n))).0 own in
          let is_new : mk n ≡ e = ground arith in
          let same_key : n ≡ key e = at_key ∙ ap key is_new in
          (subst (λ k. first k s ≡ none) same_key free, sym is_new ∙ ap mk same_key, ground arith)
      | inr other ↦ absurd (ground arith)
    ]
    | inr (x, taken) ↦ absurd (ground arith)
  ]

  -- A row put before the others is the one that is found.
  first-put :
      (e : E) (s s' : List E) (k : ℕ)
      → s' ≡ put e s
      → first k s' ≡ (if k == key e then some e else first k s)
  unfolding first
  first-put e s s' k h = ap (first k) h

  count-put :
      (p : E → Bool) (e : E) (s s' : List E)
      → first (key e) s ≡ none
      → s' ≡ put e s
      → length (keep p (visible s')) ≡ length (keep p (visible s)) + bit (p e)
  unfolding visible
  count-put p e s s' fresh h =
      let all_stay : without (key e) (visible s) ≡ visible s =
        without_absent (key e) (visible s) (first-visible (key e) s ∙ fresh) in
      ap (λ xs. length (keep p (visible xs))) h
      ∙ length-keep p e (without (key e) (visible s))
      ∙ ap (λ xs. length (keep p xs) + bit (p e)) all_stay

  find_one-update_with :
      (j : ℕ) (f : E → E) (s s' : List E) (k : ℕ) (o : Option E)
      → first j s ≡ o
      → update_with j f s o ≡ some s'
      → first k s' ≡ (if k == j then Option.map f (first k s) else first k s)
  find_one-update_with j f s s' k none found h =
      let state : s' ≡ s = sym (cc h) in
      elim (Bool-cases (k == j)) [
        | inl same ↦
            let at : first k s ≡ none = ap (λ i. first i s) ((==_iff k j).0 same) ∙ found in
            ap (first k) state ∙ rw (same, at)
        | inr differ ↦ ap (first k) state ∙ rw differ
      ]
  find_one-update_with j f s s' k (some x) found h = elim (Bool-cases (j == key (f x))) [
    | inl own ↦
        let state : s' ≡ put (f x) s = sym (ground arith) in
        let at_key : j ≡ key (f x) = (==_iff j (key (f x))).0 own in
        elim (Bool-cases (k == j)) [
          | inl same ↦
              let at : first k s ≡ some x = ap (λ i. first i s) ((==_iff k j).0 same) ∙ found in
              let hit : (k == key (f x)) ≡ true = ap (λ i. k == i) (sym at_key) ∙ same in
              first-put (f x) s s' k state ∙ rw (hit, same, at)
          | inr differ ↦
              let miss : (k == key (f x)) ≡ false = ap (λ i. k == i) (sym at_key) ∙ differ in
              first-put (f x) s s' k state ∙ rw (miss, differ)
        ]
    | inr other ↦ absurd (ground arith)
  ]

  pub memory-IsTable : IsTable key memory
  unfolding memory
  memory-IsTable = record {
    key_found = first-key;
    find_sound = λ p s. All-keep (λ e. first (key e) s ≡ some e) p (visible s) (visible-found s);
    find_complete = λ p s k e h hit. keep_found p k (visible s) e (first-visible k s ∙ h) hit;
    insert_key = λ mk s s' e h. (insert_at_lem (next_key s) mk s s' e h).1;
    insert_fresh = λ mk s s' e h. (insert_at_lem (next_key s) mk s s' e h).0;
    find_one-insert =
        λ mk s s' e h k. first-put e s s' k (insert_at_lem (next_key s) mk s s' e h).2;
    count-insert = λ mk s s' e h p.
        let (fresh, own, state) = insert_at_lem (next_key s) mk s s' e h in
        count-put p e s s' fresh state;
    find_one-save = λ e s s' h k. first-put e s s' k (sym (cc h));
    find_one-update = λ j f s s' h k. find_one-update_with j f s s' k (first j s) refl h;
    find_one-remove = λ e s s' h k. ap (first k) (sym (cc h)) ∙ first-without k (key e) s;
  }

  -- An update that keeps the key is not refused.
  pub memory-update :
      (k : ℕ) (f : E → E) (s : List E)
      → ((x : E) → key (f x) ≡ key x)
      → (s' : List E) × (memory.update k f s ≡ some s')
  unfolding memory
  memory-update k f s same = go (first k s) refl
    where
      go : (o : Option E) → first k s ≡ o → (s' : List E) × (update_with k f s o ≡ some s')
      go none e = (s, refl)
      go (some x) e = (put (f x) s, ground (arith, same x, first-key k s x e, ==_iff k (key (f x))))
