-- ===== src/Farms/Controller/Isolation/ParentWrites.antt =====
-- What the writes of farms and crops leave alone.
use harvestledger.Base.{
  ℕ, String, Option, some, ◌≡◌, inl, inr, Option-cases, Bool-cases, ◌==◌, ◌&&◌, ◌||◌, is_some,
}
use text.Mathlib.Text.{◌==◌ as str_eq}
use harvestledger.Store.Guards.{insert-Guards, save-Guards, update-Guards, remove-Guards}
use harvestledger.Farms.{Farm, Crop}
use harvestledger.Farms.World.{World, Env}
use harvestledger.Farms.Schema.{
  insert_farm, save_farm, update_farm_row, remove_farm, insert_crop, save_crop, remove_crop,
  is_filled, is_id, renamed,
}
use harvestledger.Farms.Ownership.{crop_owner}
use harvestledger.Farms.Controller.Isolation.Writes.{
  AreTables, Keeps, stored, stored-Keeps, with_farms, with_crops,
}

module _ {F C A H O File Data : Type 0} (env : Env F C A H O File Data) (user : ℕ)
    (w : World F C A H O) where
  module _ (tables : AreTables env) (o : O) where
    pub insert_farm-Keeps :
        (mk : ℕ → Farm) → Keeps env user w (insert_farm env mk (stored env user w tables o)).1
    unfolding insert_farm
    insert_farm-Keeps mk =
        elim (Bool-cases (
          is_filled (
            env.farms.find (λ f. str_eq f.name (mk 0).name && f.user_id == (mk 0).user_id)
              w.farms))) [
                | inr allowed ↦ elim (Option-cases (env.farms.insert mk w.farms)) [
                  | inl refused ↦ rw (allowed, refused) (stored-Keeps env user w tables o)
                  | inr ((x, s), done) ↦
                      rw (allowed, done)
                        ((with_farms env user w tables o) s (
                          insert-Guards env.farms (λ f. some f.user_id) user (λ f. f.id)
                            tables.farms mk x done))
                ]
                | inl refused ↦ rw refused (stored-Keeps env user w tables o)
              ]

    pub save_farm-Keeps :
        (x old : Farm)
        → env.farms.find_one x.id w.farms ≡ some old
        → some old.user_id ≡ some user
        → Keeps env user w (save_farm env x (stored env user w tables o)).1
    unfolding save_farm
    save_farm-Keeps x old before mine = elim (Option-cases (env.farms.save x w.farms)) [
      | inl refused ↦ rw refused (stored-Keeps env user w tables o)
      | inr (s, done) ↦ rw done (
          (with_farms env user w tables o) s (
            save-Guards env.farms (λ f. some f.user_id) user (λ f. f.id) tables.farms x old before
              mine done))
    ]

    pub remove_farm-Keeps :
        (x : Farm)
        → env.farms.find_one x.id w.farms ≡ some x
        → some x.user_id ≡ some user
        → Keeps env user w (remove_farm env x (stored env user w tables o)).1
    unfolding remove_farm
    remove_farm-Keeps x before mine =
        elim (Bool-cases (is_filled (env.crops.find (λ c. is_id x.id c.farm_id) w.crops))) [
          | inl referenced ↦ rw referenced (stored-Keeps env user w tables o)
          | inr free ↦ elim (Option-cases (env.farms.remove x w.farms)) [
            | inl refused ↦ rw (free, refused) (stored-Keeps env user w tables o)
            | inr (s, done) ↦
                rw (free, done)
                  ((with_farms env user w tables o) s (
                    remove-Guards env.farms (λ f. some f.user_id) user (λ f. f.id) tables.farms x
                      before mine done))
          ]
        ]

    pub insert_crop-Keeps :
        (farm_id : ℕ) (mk : ℕ → Crop)
        → Keeps env user w (insert_crop env farm_id mk (stored env user w tables o)).1
    unfolding insert_crop
    insert_crop-Keeps farm_id mk =
        elim (Bool-cases (is_some (env.farms.find_one farm_id w.farms))) [
          | inl allowed ↦ elim (Option-cases (env.crops.insert mk w.crops)) [
            | inl refused ↦ rw (allowed, refused) (stored-Keeps env user w tables o)
            | inr ((x, s), done) ↦
                rw (allowed, done)
                  ((with_crops env user w tables o) s (
                    insert-Guards env.crops (crop_owner env w) user (λ c. c.id) tables.crops mk x
                      done))
          ]
          | inr refused ↦ rw refused (stored-Keeps env user w tables o)
        ]

    pub save_crop-Keeps :
        (x old : Crop)
        → env.crops.find_one x.id w.crops ≡ some old
        → crop_owner env w old ≡ some user
        → Keeps env user w (save_crop env x (stored env user w tables o)).1
    unfolding save_crop
    save_crop-Keeps x old before mine = elim (Option-cases (env.crops.save x w.crops)) [
      | inl refused ↦ rw refused (stored-Keeps env user w tables o)
      | inr (s, done) ↦ rw done (
          (with_crops env user w tables o) s (
            save-Guards env.crops (crop_owner env w) user (λ c. c.id) tables.crops x old before mine
              done))
    ]

    pub remove_crop-Keeps :
        (x : Crop)
        → env.crops.find_one x.id w.crops ≡ some x
        → crop_owner env w x ≡ some user
        → Keeps env user w (remove_crop env x (stored env user w tables o)).1
    unfolding remove_crop
    remove_crop-Keeps x before mine =
        elim (Bool-cases (
          is_filled (env.activities.find (λ a. is_id x.id a.crop_id) w.activities)
          || is_filled (env.harvests.find (λ h. is_id x.id h.crop_id) w.harvests))) [
            | inl referenced ↦ rw referenced (stored-Keeps env user w tables o)
            | inr free ↦ elim (Option-cases (env.crops.remove x w.crops)) [
              | inl refused ↦ rw (free, refused) (stored-Keeps env user w tables o)
              | inr (s, done) ↦
                  rw (free, done)
                    ((with_crops env user w tables o) s (
                      remove-Guards env.crops (crop_owner env w) user (λ c. c.id) tables.crops x
                        before mine done))
            ]
          ]

    pub update_farm_row-Keeps :
        (id : ℕ) (name : Option String) (change : Farm → Farm) (old : Farm)
        → env.farms.find_one id w.farms ≡ some old
        → some old.user_id ≡ some user
        → Keeps env user w (update_farm_row env user id name change (stored env user w tables o)).1
    unfolding update_farm_row
    update_farm_row-Keeps id name change old before mine =
        elim (Bool-cases
          (is_filled (env.farms.find (λ f. renamed env id name f && f.user_id == user) w.farms))) [
            | inl taken ↦ rw taken (stored-Keeps env user w tables o)
            | inr free ↦ elim (Option-cases (env.farms.update id change w.farms)) [
              | inl refused ↦ rw (free, refused) (stored-Keeps env user w tables o)
              | inr (s, done) ↦
                  rw (free, done)
                    ((with_farms env user w tables o) s (
                      update-Guards env.farms (λ f. some f.user_id) user (λ f. f.id) tables.farms id
                        change old before mine done))
            ]
          ]
