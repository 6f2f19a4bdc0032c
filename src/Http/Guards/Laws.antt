-- ===== src/Http/Guards/Laws.antt =====
-- When the guards let a request through.
use harvestledger.Base.{
  ℕ, ◌<◌, ◌*◌, ◌≡◌, refl, sym, ap, ◌∙◌, ◌≢◌, ◌↔◌, ◌⊎◌, inl, inr, true, false, String, Option, none,
  some, List, [], ◌∷◌, ◌++◌, arith, All, Bool-cases, ◌==◌,
}
use harvestledger.Http.Guards.{
  Result, ok, err, Chars, space, bearer, eq_chars, split_from, split_space, checked, on_parts,
  can_activate, includes, roles_can_activate,
}
use mathlib.Core.List.{append_assoc, append-nil}
use text.Mathlib.TextEquality.{eq_iff}

-- No space occurs in the text.
abbrev pub NoSpace : Chars → Type 0
NoSpace = All (λ c. c ≢ space)

split_from-ne-nil : (part s : Chars) → split_from part s ≢ []
unfolding split_from
split_from-ne-nil part [] = cc
split_from-ne-nil part (c ∷ s) = ground (arith, split_from-ne-nil (part ++ c ∷ []) s)

split_from-NoSpace : (part s : Chars) → NoSpace s → split_from part s ≡ (part ++ s) ∷ []
unfolding split_from
split_from-NoSpace part [] h = rw append-nil
split_from-NoSpace part (c ∷ s) h =
    ground (arith, split_from-NoSpace (part ++ c ∷ []) s h.1, append_assoc part (c ∷ []) s)

split_from-append :
    (part s t : Chars)
    → NoSpace s
    → split_from part (s ++ space ∷ t) ≡ (part ++ s) ∷ split_from [] t
unfolding split_from
split_from-append part [] t h = rw append-nil
split_from-append part (c ∷ s) t h =
    ground (arith, split_from-append (part ++ c ∷ []) s t h.1, append_assoc part (c ∷ []) s)

split_from_one : (part s b : Chars) → split_from part s ≡ b ∷ [] → (b ≡ part ++ s) × NoSpace s
unfolding split_from
split_from_one part [] b e = (rw append-nil (cc), tt)
split_from_one part (c ∷ s) b e = elim (Bool-cases (c == space)) [
  | inl at_space ↦ absurd (split_from-ne-nil [] s (ground arith))
  | inr other ↦
      let (same, none_left) = split_from_one (part ++ c ∷ []) s b (rw other at e) in
      (same ∙ append_assoc part (c ∷ []) s, (ground arith, none_left))
]

-- A text with exactly two parts is those parts with one space between them.
split_from_two :
    (part s a b : Chars)
    → split_from part s ≡ a ∷ b ∷ []
    → (s' : Chars) × (s ≡ s' ++ space ∷ b) × (a ≡ part ++ s') × NoSpace b
unfolding split_from
split_from_two part [] a b e = absurd (cc)
split_from_two part (c ∷ s) a b e = elim (Bool-cases (c == space)) [
  | inl at_space ↦
      let (same, none_left) = split_from_one [] s b (ground arith) in
      ([], ground (arith, sym same), rw append-nil (ground arith), rw same none_left)
  | inr other ↦
      let (s', same, same_part, none_left) =
        split_from_two (part ++ c ∷ []) s a b (rw other at e) in
      (c ∷ s', ap (λ l. c ∷ l) same, same_part ∙ append_assoc part (c ∷ []) s', none_left)
]

eq_chars→eq : (a b : Chars) → eq_chars a b ≡ true → a ≡ b
eq_chars→eq [] [] h = refl
eq_chars→eq [] (_ ∷ _) h = cc
eq_chars→eq (_ ∷ _) [] h = cc
eq_chars→eq (x ∷ a) (y ∷ b) h = ground (arith, eq_chars→eq a b)

module _ {U : Type 0} (verify : Chars → Result (Option ℕ × U)) where
  checked_ok :
      (r : Result (Option ℕ × U)) (now : ℕ) (u : U)
      → checked verify r now ≡ ok u
      → (exp : ℕ) × (r ≡ ok (some exp, u)) × (now < exp * 1000)
  unfolding checked
  checked_ok (ok (none, v)) now u e = absurd (cc)
  checked_ok (ok (some exp, v)) now u e = (exp, ground arith, ground arith)
  checked_ok (err x) now u e = absurd (cc)

  ok_checked :
      (exp now : ℕ) (u : U) → now < exp * 1000 → checked verify (ok (some exp, u)) now ≡ ok u
  unfolding checked
  ok_checked exp now u h = ground arith

  on_parts_ok :
      (parts : List Chars) (now : ℕ) (u : U)
      → on_parts verify parts now ≡ ok u
      → (jwt : Chars) × (parts ≡ bearer ∷ jwt ∷ []) × (checked verify (verify jwt) now ≡ ok u)
  unfolding on_parts
  on_parts_ok [] now u e = absurd (cc)
  on_parts_ok (a ∷ []) now u e = absurd (cc)
  on_parts_ok (a ∷ b ∷ []) now u e = elim (Bool-cases (eq_chars a bearer)) [
    | inl same ↦ (b, ap (λ l. l ∷ b ∷ []) (eq_chars→eq a bearer same), ground arith)
    | inr differ ↦ absurd (ground arith)
  ]
  on_parts_ok (a ∷ b ∷ c ∷ more) now u e = absurd (cc)

  -- A request is let through only with a header that reads `Bearer`, one space and a token without
  -- spaces, where the token verifies to this user and its `exp` lies in the future.
  pub can_activate_sound :
      (header : Option Chars) (now : ℕ) (u : U)
      → can_activate verify header now ≡ ok u
      → (jwt : Chars) × (exp : ℕ) × (header ≡ some (bearer ++ space ∷ jwt))
        × NoSpace jwt
        × (verify jwt ≡ ok (some exp, u))
        × (now < exp * 1000)
  unfolding can_activate
  can_activate_sound none now u e = absurd (cc)
  can_activate_sound (some []) now u e = absurd (cc)
  can_activate_sound (some (c ∷ s)) now u e =
      let (jwt, two, reply) = on_parts_ok (split_space (c ∷ s)) now u e in
      let (scheme, same, same_scheme, none_left) = split_from_two [] (c ∷ s) bearer jwt two in
      let (exp, verified, later) = checked_ok (verify jwt) now u reply in
      (jwt, exp, ap some (rw (← same_scheme) at same), none_left, verified, later)

  on_parts-bearer :
      (jwt : Chars) (exp now : ℕ) (u : U)
      → verify jwt ≡ ok (some exp, u)
      → now < exp * 1000
      → on_parts verify (bearer ∷ jwt ∷ []) now ≡ ok u
  unfolding on_parts
  on_parts-bearer jwt exp now u verified later = rw verified (ok_checked exp now u later)

  split_bearer :
      (jwt : Chars) → NoSpace jwt → split_space (bearer ++ space ∷ jwt) ≡ bearer ∷ jwt ∷ []
  unfolding split_space
  split_bearer jwt clear =
      split_from-append [] bearer jwt (ground arith)
      ∙ ap (λ l. bearer ∷ l) (split_from-NoSpace [] jwt clear)

  -- Every such request is let through, with the token's user.
  pub can_activate_complete :
      (jwt : Chars) (exp now : ℕ) (u : U)
      → NoSpace jwt
      → verify jwt ≡ ok (some exp, u)
      → now < exp * 1000
      → can_activate verify (some (bearer ++ space ∷ jwt)) now ≡ ok u
  unfolding can_activate
  can_activate_complete jwt exp now u clear verified later =
      ap (λ parts. on_parts verify parts now) (split_bearer jwt clear)
      ∙ on_parts-bearer jwt exp now u verified later

-- A role that is listed, by recursion.
abbrev pub IsListed : String → List String → Type 0
IsListed rol [] = ⊥
IsListed rol (r ∷ rs) = (r ≡ rol) ⊎ IsListed rol rs

includes_iff :
    (roles : List String) (rol : String) → (includes roles (some rol) ≡ true) ↔ IsListed rol roles
unfolding includes
includes_iff [] rol = (λ h. cc, λ h. absurd h)
includes_iff (r ∷ rs) rol = ground (arith, eq_iff r rol, includes_iff rs rol)

includes-none : (roles : List String) → includes roles none ≡ false
unfolding includes
includes-none [] = refl
includes-none (r ∷ rs) = refl

-- A route that asks for roles lets a request through exactly when its user holds one of them.
pub roles_can_activate_iff :
    (r : String) (rs : List String) (user : Option (Option String))
    → (roles_can_activate (some (r ∷ rs)) user ≡ ok true)
      ↔ ((rol : String) × (user ≡ some (some rol)) × IsListed rol (r ∷ rs))
unfolding roles_can_activate
roles_can_activate_iff r rs none = (λ h. absurd (cc), λ h. absurd (cc h.1))
roles_can_activate_iff r rs (some none) =
    (λ h. absurd (ground (arith, includes-none (r ∷ rs))), λ h. absurd (cc h.1))
roles_can_activate_iff r rs (some (some rol)) = (
  λ h. (rol, refl, ground (arith, includes_iff (r ∷ rs) rol)),
  λ h. ground (arith, includes_iff (r ∷ rs) rol),
)
