-- ===== src/Farms/Controller/Isolation/ChildWrites.antt =====
-- What the writes of activities and harvests leave alone.
use harvestledger.Base.{ℕ, some, ◌≡◌, inl, inr, Option-cases, Bool-cases, is_some}
use harvestledger.Store.Guards.{insert-Guards, save-Guards, remove-Guards}
use harvestledger.Farms.{Activity, Harvest}
use harvestledger.Farms.World.{World, Env}
use harvestledger.Farms.Schema.{
  insert_activity, save_activity, remove_activity, insert_harvest, save_harvest, remove_harvest,
}
use harvestledger.Farms.Ownership.{child_owner}
use harvestledger.Farms.Controller.Isolation.Writes.{
  AreTables, Keeps, stored, stored-Keeps, with_activities, with_harvests,
}

module _ {F C A H O File Data : Type 0} (env : Env F C A H O File Data) (user : ℕ)
    (w : World F C A H O) where
  module _ (tables : AreTables env) (o : O) where
    pub insert_activity-Keeps :
        (crop_id : ℕ) (mk : ℕ → Activity)
        → Keeps env user w (insert_activity env crop_id mk (stored env user w tables o)).1
    unfolding insert_activity
    insert_activity-Keeps crop_id mk =
        elim (Bool-cases (is_some (env.crops.find_one crop_id w.crops))) [
          | inl allowed ↦ elim (Option-cases (env.activities.insert mk w.activities)) [
            | inl refused ↦ rw (allowed, refused) (stored-Keeps env user w tables o)
            | inr ((x, s), done) ↦
                rw (allowed, done)
                  ((with_activities env user w tables o) s (
                    insert-Guards env.activities (λ a. child_owner env w a.crop_id) user (λ a. a.id)
                      tables.activities mk x done))
          ]
          | inr refused ↦ rw refused (stored-Keeps env user w tables o)
        ]

    pub save_activity-Keeps :
        (x old : Activity)
        → env.activities.find_one x.id w.activities ≡ some old
        → child_owner env w old.crop_id ≡ some user
        → Keeps env user w (save_activity env x (stored env user w tables o)).1
    unfolding save_activity
    save_activity-Keeps x old before mine =
        elim (Option-cases (env.activities.save x w.activities)) [
          | inl refused ↦ rw refused (stored-Keeps env user w tables o)
          | inr (s, done) ↦ rw done (
              (with_activities env user w tables o) s (
                save-Guards env.activities (λ a. child_owner env w a.crop_id) user (λ a. a.id)
                  tables.activities x old before mine done))
        ]

    pub remove_activity-Keeps :
        (x : Activity)
        → env.activities.find_one x.id w.activities ≡ some x
        → child_owner env w x.crop_id ≡ some user
        → Keeps env user w (remove_activity env x (stored env user w tables o)).1
    unfolding remove_activity
    remove_activity-Keeps x before mine =
        elim (Option-cases (env.activities.remove x w.activities)) [
          | inl refused ↦ rw refused (stored-Keeps env user w tables o)
          | inr (s, done) ↦ rw done (
              (with_activities env user w tables o) s (
                remove-Guards env.activities (λ a. child_owner env w a.crop_id) user (λ a. a.id)
                  tables.activities x before mine done))
        ]

    pub insert_harvest-Keeps :
        (crop_id : ℕ) (mk : ℕ → Harvest)
        → Keeps env user w (insert_harvest env crop_id mk (stored env user w tables o)).1
    unfolding insert_harvest
    insert_harvest-Keeps crop_id mk =
        elim (Bool-cases (is_some (env.crops.find_one crop_id w.crops))) [
          | inl allowed ↦ elim (Option-cases (env.harvests.insert mk w.harvests)) [
            | inl refused ↦ rw (allowed, refused) (stored-Keeps env user w tables o)
            | inr ((x, s), done) ↦
                rw (allowed, done)
                  ((with_harvests env user w tables o) s (
                    insert-Guards env.harvests (λ h. child_owner env w h.crop_id) user (λ h. h.id)
                      tables.harvests mk x done))
          ]
          | inr refused ↦ rw refused (stored-Keeps env user w tables o)
        ]

    pub save_harvest-Keeps :
        (x old : Harvest)
        → env.harvests.find_one x.id w.harvests ≡ some old
        → child_owner env w old.crop_id ≡ some user
        → Keeps env user w (save_harvest env x (stored env user w tables o)).1
    unfolding save_harvest
    save_harvest-Keeps x old before mine = elim (Option-cases (env.harvests.save x w.harvests)) [
      | inl refused ↦ rw refused (stored-Keeps env user w tables o)
      | inr (s, done) ↦ rw done (
          (with_harvests env user w tables o) s (
            save-Guards env.harvests (λ h. child_owner env w h.crop_id) user (λ h. h.id)
              tables.harvests x old before mine done))
    ]

    pub remove_harvest-Keeps :
        (x : Harvest)
        → env.harvests.find_one x.id w.harvests ≡ some x
        → child_owner env w x.crop_id ≡ some user
        → Keeps env user w (remove_harvest env x (stored env user w tables o)).1
    unfolding remove_harvest
    remove_harvest-Keeps x before mine = elim (Option-cases (env.harvests.remove x w.harvests)) [
      | inl refused ↦ rw refused (stored-Keeps env user w tables o)
      | inr (s, done) ↦ rw done (
          (with_harvests env user w tables o) s (
            remove-Guards env.harvests (λ h. child_owner env w h.crop_id) user (λ h. h.id)
              tables.harvests x before mine done))
    ]
