-- ===== src/Farms/FarmsService/Names.antt =====
-- The names of farms, as `createFarm` and `updateFarm` of apps/farms/src/farms/farms.service.ts
-- check them.
use harvestledger.Base.{
  is_filled-length, filled, ℕ, ◌+◌, Bool, true, false, ◌&&◌, not, some, String, ◌≡◌, ◌≢◌, refl, ap,
  ◌∙◌, arith, length, ◌==◌, ==_iff, Bool-cases, inl, inr,
}
use text.Mathlib.Text.{◌==◌ as str_eq}
use text.Mathlib.TextEquality.{eq_iff}
use harvestledger.Http.{Exception, conflict}
use harvestledger.Store.{IsTable, bit}
use harvestledger.Farms.{Farm, CreateFarmDto, UpdateFarmDto}
use harvestledger.Farms.World.{World, Env, Result, ok, err, present}
use harvestledger.Farms.Schema.{insert_farm, is_filled}
use harvestledger.Farms.Ownership.{assert_farm_owner}
use harvestledger.Farms.Ownership.Laws.{Decides, assertions-Decides}
use mathlib.Core.Path.{subst}
use harvestledger.Farms.FarmsService.{
  is_named, named, new_farm, create_farm, update_farm, is_name_taken,
}

named_same : (name : String) (user : ℕ) → (str_eq name name && user == user) ≡ true
named_same name user = rw ((eq_iff name name).1 refl, (==_iff user user).1 refl)

module _ {F C A H O File Data : Type 0} (env : Env F C A H O File Data) (w : World F C A H O) where
  insert_farm_ok :
      (mk : ℕ → Farm) (x : Farm) (v : World F C A H O)
      → insert_farm env mk w ≡ (ok x, v)
      → (s : F) × (env.farms.insert mk w.farms ≡ some (x, s)) × (v ≡ record w { farms = s })
  unfolding insert_farm
  insert_farm_ok mk x v e = (v.farms, ground arith, ground arith)

  insert_farm_err :
      (mk : ℕ → Farm) (e : Exception) (v : World F C A H O)
      → insert_farm env mk w ≡ (err e, v)
      → v ≡ w
  unfolding insert_farm
  insert_farm_err mk e v h = ground arith

  -- createFarm gives a user at most one farm of a name: on success the user had none of that name
  -- and has one now, and the row is the one that the body describes. If it throws, nothing has
  -- changed.
  pub create_farm_once :
      IsTable (λ f. f.id) env.farms
      → (user : ℕ) (dto : CreateFarmDto) (r : Result Farm) (w' : World F C A H O)
      → create_farm env user dto w ≡ (r, w')
      → ((e : Exception) → r ≡ err e → w' ≡ w)
        × ((saved : Farm)
            → r ≡ ok saved
            → (length (named env dto.name user w) ≡ 0)
              × (length (named env dto.name user w') ≡ 1)
              × (saved ≡ new_farm user dto saved.id))
  unfolding create_farm new_farm
  create_farm_once laws user dto r w' h =
      let own = named env dto.name user w in
      elim (Bool-cases (is_filled own)) [
        | inl taken ↦ (λ e same. ground arith, λ saved same. absurd (ground arith))
        | inr free ↦
            let inserted : insert_farm env (new_farm user dto) w ≡ (r, w') = ground arith in
            (
              λ e same.
                  insert_farm_err (new_farm user dto) e w' (inserted ∙ ap (λ x. (x, w')) same),
              λ saved same.
                  let (s, row, state) =
                    insert_farm_ok (new_farm user dto) saved w'
                      (inserted ∙ ap (λ x. (x, w')) same) in
                  let counted =
                    laws.count-insert (new_farm user dto) w.farms s saved row
                      (is_named dto.name user) in
                  let described = laws.insert_key (new_farm user dto) w.farms s saved row in
                  let one_more : 0 + bit (is_named dto.name user saved) ≡ 1 =
                    ap (λ f. 0 + bit (is_named dto.name user f)) described
                    ∙ ap (λ b. 0 + bit b) (named_same dto.name user) in
                  let none_yet = is_filled-length own free in
                  (
                    none_yet,
                    ap (λ u. length (named env dto.name user u)) state
                        ∙ counted
                        ∙ ap (λ n. n + bit (is_named dto.name user saved)) none_yet
                        ∙ one_more,
                    described,
                  ),
            )
      ]

  -- updateFarm refuses a new name that any other farm has, whoever owns that farm, and changes
  -- nothing.
  pub update_farm-taken :
      IsTable (λ f. f.id) env.farms
      → (user farm_id k : ℕ) (dto : UpdateFarmDto) (name : String) (farm other : Farm)
      → env.farms.find_one farm_id w.farms ≡ some farm
      → farm.user_id ≡ user
      → present dto.name ≡ some name
      → env.farms.find_one k w.farms ≡ some other
      → k ≢ farm_id
      → str_eq other.name name ≡ true
      → update_farm env user dto farm_id w ≡ (err (conflict "Farm name already exists"), w)
  unfolding update_farm is_name_taken
  update_farm-taken laws user farm_id k dto name farm other found mine text there differ same =
      let p : Farm → Bool = λ f. str_eq f.name name && not (f.id == farm_id) in
      let key = laws.key_found k w.farms other there in
      let not_it : (other.id == farm_id) ≡ false = ground (arith, ==_iff other.id farm_id) in
      let hit : p other ≡ true = ground arith in
      let hits =
        filled (env.farms.find p w.farms) (laws.find_complete p w.farms k other there hit) in
      let decided = (assertions-Decides env user farm_id w).0 in
      let asserted : assert_farm_owner env user farm_id w ≡ (ok farm, w) =
        (subst
            (λ o.
              Decides "Farm not found" user (λ f. some f.user_id) o w
                (assert_farm_owner env user farm_id w))
            found decided).0
          (ap some mine) in
      let taken : is_name_taken env farm_id (present dto.name) w ≡ true =
        ap (λ o. is_name_taken env farm_id o w) text ∙ hits in
      ground arith
