-- ===== src/UserProjection.antt =====
-- The farms service's copy of the users: apps/farms/src/user-projection, with
-- libs/common/src/entities/user-projection.entity.ts. TypeORM's `upsert` is a parameter.
pub mod Laws
use harvestledger.Base.{ℕ, String, Option, none, some, List, [], ◌∷◌, ◌==◌, if◌then◌else◌}

-- `UserProjectionEntity`; `updatedAt` is not read by any code.
pub record Projection : Type 0 where
  pub id : ℕ
  pub first_name : String
  pub last_name : Option String
  pub email : String
  pub rol : Option String

-- `UserProjectionEventDto`; a field that is missing and one that is null are both `none`.
pub record UserProjectionEventDto : Type 0 where
  pub id : ℕ
  pub first_name : String
  pub last_name : Option String
  pub email : String
  pub rol : Option String

pub data UserEvent : Type 0 where
  user_created user_updated : UserProjectionEventDto → UserEvent

-- The object that `upsert` passes on.
unfoldable pub projected : UserProjectionEventDto → Projection
projected d = record {
  id = d.id;
  first_name = d.first_name;
  last_name = d.last_name;
  email = d.email;
  rol = d.rol;
}

-- `repository_upsert` is `repository.upsert(row, ['id'])`.
module _ {S : Type 0} (repository_upsert : Projection → S → S) where
  -- `UserProjectionService.upsert`
  unfoldable pub upsert : UserProjectionEventDto → S → S
  unfolding projected
  upsert d s = repository_upsert (projected d) s

  -- `handleUserCreated` and `handleUserUpdated`
  unfoldable pub handle_user : UserEvent → S → S
  unfolding upsert
  handle_user (user_created d) s = upsert d s
  handle_user (user_updated d) s = upsert d s

-- `findOne({ where: { id } })` on the rows that a report has read.
unfoldable pub find_user : ℕ → List Projection → Option Projection
find_user k [] = none
find_user k (p ∷ ps) = let rest = find_user k ps in if p.id == k then some p else rest
