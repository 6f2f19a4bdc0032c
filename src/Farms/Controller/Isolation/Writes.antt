-- ===== src/Farms/Controller/Isolation/Writes.antt =====
-- What the writes to the tables leave alone.
use harvestledger.Base.{ℕ, some}
use harvestledger.Store.{IsTable}
use harvestledger.Store.Guards.{Guards}
use harvestledger.Farms.World.{World, Env}
use harvestledger.Farms.Ownership.{crop_owner, child_owner}

-- The tables keep what their documentation promises.
pub record AreTables {F C A H O File Data : Type 0} (env : Env F C A H O File Data) : Type 0 where
  pub farms : IsTable (λ f. f.id) env.farms
  pub crops : IsTable (λ c. c.id) env.crops
  pub activities : IsTable (λ a. a.id) env.activities
  pub harvests : IsTable (λ h. h.id) env.harvests

module _ {F C A H O File Data : Type 0} (env : Env F C A H O File Data) (user : ℕ)
    (w : World F C A H O) where
  -- Between `w` and `w'` no farm, crop, activity or harvest was changed or removed that was not the
  -- user's in `w`.
  pub record Keeps (w' : World F C A H O) : Type 0 where
    pub farms : Guards env.farms (λ f. some f.user_id) user w.farms w'.farms
    pub crops : Guards env.crops (crop_owner env w) user w.crops w'.crops
    pub activities :
        Guards env.activities (λ a. child_owner env w a.crop_id) user w.activities w'.activities
    pub harvests :
        Guards env.harvests (λ h. child_owner env w h.crop_id) user w.harvests w'.harvests

  pub Keeps-refl : Keeps w
  Keeps-refl = record {
    farms = λ k e found other. found;
    crops = λ k e found other. found;
    activities = λ k e found other. found;
    harvests = λ k e found other. found;
  }

  module _ (tables : AreTables env) (o : O) where
    -- The state before the write: photos may have been stored since the beginning.
    abbrev pub stored : World F C A H O
    stored = record w { objects = o }

    pub stored-Keeps : Keeps stored
    stored-Keeps = record {
      farms = λ k e found other. found;
      crops = λ k e found other. found;
      activities = λ k e found other. found;
      harvests = λ k e found other. found;
    }

    pub with_farms :
        (s : F)
        → Guards env.farms (λ f. some f.user_id) user w.farms s
        → Keeps (record stored { farms = s })
    with_farms s guards = record {
      farms = guards;
      crops = λ k e found other. found;
      activities = λ k e found other. found;
      harvests = λ k e found other. found;
    }

    pub with_crops :
        (s : C)
        → Guards env.crops (crop_owner env w) user w.crops s
        → Keeps (record stored { crops = s })
    with_crops s guards = record {
      farms = λ k e found other. found;
      crops = guards;
      activities = λ k e found other. found;
      harvests = λ k e found other. found;
    }

    pub with_activities :
        (s : A)
        → Guards env.activities (λ a. child_owner env w a.crop_id) user w.activities s
        → Keeps (record stored { activities = s })
    with_activities s guards = record {
      farms = λ k e found other. found;
      crops = λ k e found other. found;
      activities = guards;
      harvests = λ k e found other. found;
    }

    pub with_harvests :
        (s : H)
        → Guards env.harvests (λ h. child_owner env w h.crop_id) user w.harvests s
        → Keeps (record stored { harvests = s })
    with_harvests s guards = record {
      farms = λ k e found other. found;
      crops = λ k e found other. found;
      activities = λ k e found other. found;
      harvests = guards;
    }
