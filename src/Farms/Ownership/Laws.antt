-- ===== src/Farms/Ownership/Laws.antt =====
-- What the four assertions decide: they change nothing, and let through exactly the owner.
use harvestledger.Base.{ℕ, String, false, Option, none, some, ◌≡◌, ◌≢◌, ◌↔◌, refl, arith}
use harvestledger.Http.{not_found, forbidden}
use harvestledger.Farms.World.{World, Env, Result, ok, err, or_throw, pure, ◌>>=◌, ◌>>◌}
use harvestledger.Farms.Ownership.{
  is_foreign, check, crop_owner, child_owner, assert_farm_owner, assert_crop_owner,
  assert_activity_owner, assert_harvest_owner,
}

-- What an assertion does with the row found and its owner: 404 for a missing row, the row for its
-- owner, and 403 for anybody else and for a row whose chain to an owner is broken.
abbrev pub Decides :
    {W X : Type 0} → String → ℕ → (X → Option ℕ) → Option X → W → Result X × W → Type 0
Decides missing user owner none w r = r ≡ (err (not_found missing), w)
Decides missing user owner (some x) w r =
    (owner x ≡ some user → r ≡ (ok x, w))
    × (owner x ≢ some user → r ≡ (err (forbidden "You do not have access to this resource"), w))

is_foreign_iff :
    (user : ℕ) (owner : Option ℕ) → (is_foreign user owner ≡ false) ↔ (owner ≡ some user)
unfolding is_foreign
is_foreign_iff user none = (λ h. cc, λ h. cc)
is_foreign_iff user (some owner) = ground arith

decide :
    {W X : Type 0} (missing : String) (user : ℕ) (owner : X → Option ℕ) (o : Option X) (w : W)
    → Decides missing user owner o w
        ((do x ← or_throw o (not_found missing); check user (owner x); pure x) w)
unfolding check
decide missing user owner none w = refl
decide missing user owner (some x) w = (
  λ mine. ground (arith, is_foreign_iff user (owner x)),
  λ other. ground (arith, is_foreign_iff user (owner x)),
)

module _ {F C A H O File Data : Type 0} (env : Env F C A H O File Data) where
  -- Each of the four assertions changes nothing, answers 404 where the resource does not exist,
  -- returns it to the user who owns it through the chain of farm and crop, and answers 403 to
  -- everybody else.
  pub assertions-Decides :
      (user id : ℕ) (w : World F C A H O)
      → Decides "Farm not found" user
          (λ f. some f.user_id)
          (env.farms.find_one id w.farms)
          w
          (assert_farm_owner env user id w)
        × Decides "Crop not found" user
            (crop_owner env w)
            (env.crops.find_one id w.crops)
            w
            (assert_crop_owner env user id w)
        × Decides "Activity not found" user
            (λ a. child_owner env w a.crop_id)
            (env.activities.find_one id w.activities)
            w
            (assert_activity_owner env user id w)
        × Decides "Harvest not found" user
            (λ h. child_owner env w h.crop_id)
            (env.harvests.find_one id w.harvests)
            w
            (assert_harvest_owner env user id w)
  unfolding assert_farm_owner assert_crop_owner assert_activity_owner assert_harvest_owner
  assertions-Decides user id w = (
    decide "Farm not found" user (λ f. some f.user_id) (env.farms.find_one id w.farms) w,
    decide "Crop not found" user (crop_owner env w) (env.crops.find_one id w.crops) w,
    decide "Activity not found" user (λ a. child_owner env w a.crop_id)
        (env.activities.find_one id w.activities) w,
    decide "Harvest not found" user (λ h. child_owner env w h.crop_id)
        (env.harvests.find_one id w.harvests) w,
  )
