-- ===== src/Gateway/Laws.antt =====
-- What the gateway lets through to the farms service, and what comes of it.
use harvestledger.Base.{
  ℕ, ◌*◌, ◌<◌, String, Option, none, some, ◌∷◌, ◌++◌, ◌≡◌, ◌⊎◌, inl, inr, refl,
}
use harvestledger.Http.{Exception}
use harvestledger.Http.Guards
use harvestledger.Http.Guards.{Chars, bearer, space, can_activate}
use harvestledger.Http.Guards.Laws.{can_activate_sound}
use harvestledger.Effect.{Result, ok, err, Action}
use harvestledger.Auth.{LoginUser}
use harvestledger.Farms.World.{World, Env}
use harvestledger.Farms.Controller.{Request, Reply, handle}
use harvestledger.Farms.Controller.Isolation.{handle-Keeps}
use harvestledger.Farms.Controller.Isolation.Writes.{AreTables, Keeps}
use harvestledger.Gateway.{Pipes, max_size, Verify, both, mapped, guarded, admitted}
use harvestledger.Gateway.Farms.{
  Route, FarmsRoute, CropsRoute, ActivitiesRoute, HarvestsRoute, Message, send, pattern_of, serve,
}

-- The guard's answers.
pub Guards-cases :
    {A : Type 0} (r : Guards.Result A)
    → ((e : Exception) × (r ≡ Guards.Result.err e)) ⊎ ((a : A) × (r ≡ Guards.Result.ok a))
Guards-cases (Guards.Result.ok a) = inr (a, refl)
Guards-cases (Guards.Result.err e) = inl (e, refl)

-- The `cmd` of a message is the pattern of the handler that serves its payload.
abbrev pub Matches : {File : Type 0} → Result (Message File) → Type 0
Matches (err e) = Unit
Matches (ok m) = m.cmd ≡ pattern_of m.payload

module _ {Upload File : Type 0} (pipes : Pipes Upload File) where
  mapped-Matches :
      (cmd : String) (payload : ℕ → Request File) (id : Result ℕ)
      → ((k : ℕ) → cmd ≡ pattern_of (payload k))
      → Matches (mapped (λ k. record { cmd = cmd; payload = payload k }) id)
  mapped-Matches cmd payload (err e) same = tt
  mapped-Matches cmd payload (ok k) same = same k

  both-Matches :
      (cmd : String) (payload : File → ℕ → Request File) (file : Result File) (id : Result ℕ)
      → ((f : File) (k : ℕ) → cmd ≡ pattern_of (payload f k))
      → Matches (both file id (λ f k. record { cmd = cmd; payload = payload f k }))
  both-Matches cmd payload (err e) id same = tt
  both-Matches cmd payload (ok f) (err e) same = tt
  both-Matches cmd payload (ok f) (ok k) same = same f k

  pub send-Matches : (route : Route Upload) → Matches (send pipes route)
  unfolding send pattern_of
  send-Matches (Route.farms (FarmsRoute.post_farms dto)) = refl
  send-Matches (Route.farms FarmsRoute.get_farms) = refl
  send-Matches (Route.farms (FarmsRoute.patch_farms id dto)) =
      mapped-Matches _ (Request.update_farm dto) (pipes.parse_int id) (λ k. refl)
  send-Matches (Route.farms (FarmsRoute.delete_farms id)) =
      mapped-Matches _ (Request.delete_farm) (pipes.parse_int id) (λ k. refl)
  send-Matches (Route.farms (FarmsRoute.post_farms_photo file id)) =
      both-Matches _ Request.upload_farm_image (pipes.image max_size "image" file)
        (pipes.parse_int id) (λ f k. refl)
  send-Matches (Route.farms (FarmsRoute.get_farms_photo id)) =
      mapped-Matches _ (Request.get_farm_image) (pipes.parse_int id) (λ k. refl)
  send-Matches (Route.crops (CropsRoute.post_crops dto)) = refl
  send-Matches (Route.crops (CropsRoute.get_crops id)) =
      mapped-Matches _ (Request.crops_by_farm) (pipes.parse_int id) (λ k. refl)
  send-Matches (Route.crops (CropsRoute.patch_crops id dto)) =
      mapped-Matches _ (Request.update_crop dto) (pipes.parse_int id) (λ k. refl)
  send-Matches (Route.crops (CropsRoute.get_crops_find_one id)) =
      mapped-Matches _ (Request.get_crop) (pipes.parse_int id) (λ k. refl)
  send-Matches (Route.crops (CropsRoute.delete_crops id)) =
      mapped-Matches _ (Request.delete_crop) (pipes.parse_int id) (λ k. refl)
  send-Matches (Route.crops (CropsRoute.post_crops_photo file id)) =
      both-Matches _ Request.upload_crop_photo (pipes.image max_size "image" file)
        (pipes.parse_int id) (λ f k. refl)
  send-Matches (Route.crops (CropsRoute.get_crops_photo id)) =
      mapped-Matches _ (Request.get_crop_photo) (pipes.parse_int id) (λ k. refl)
  send-Matches (Route.activities (ActivitiesRoute.get_activities id)) =
      mapped-Matches _ (Request.activities_by_crop) (pipes.parse_int id) (λ k. refl)
  send-Matches (Route.activities (ActivitiesRoute.post_activities dto)) = refl
  send-Matches (Route.activities (ActivitiesRoute.patch_activities id dto)) =
      mapped-Matches _ (Request.update_activity dto) (pipes.parse_int id) (λ k. refl)
  send-Matches (Route.activities (ActivitiesRoute.delete_activities id)) =
      mapped-Matches _ (Request.delete_activity) (pipes.parse_int id) (λ k. refl)
  send-Matches (Route.activities (ActivitiesRoute.post_activities_photo file id)) =
      both-Matches _ Request.upload_activity_photo (pipes.image max_size "image" file)
        (pipes.parse_int id) (λ f k. refl)
  send-Matches (Route.activities (ActivitiesRoute.get_activities_photo id)) =
      mapped-Matches _ (Request.get_activity_photo) (pipes.parse_int id) (λ k. refl)
  send-Matches (Route.harvests (HarvestsRoute.post_harvests dto)) = refl
  send-Matches (Route.harvests (HarvestsRoute.get_harvests id)) =
      mapped-Matches _ (Request.harvest_by_crop) (pipes.parse_int id) (λ k. refl)
  send-Matches (Route.harvests (HarvestsRoute.patch_harvests id dto)) =
      mapped-Matches _ (Request.update_harvest dto) (pipes.parse_int id) (λ k. refl)
  send-Matches (Route.harvests (HarvestsRoute.delete_harvests id)) =
      mapped-Matches _ (Request.delete_harvest) (pipes.parse_int id) (λ k. refl)
  send-Matches (Route.harvests (HarvestsRoute.post_harvests_photo file id)) =
      both-Matches _ Request.upload_harvest_image (pipes.image max_size "image" file)
        (pipes.parse_int id) (λ f k. refl)
  send-Matches (Route.harvests (HarvestsRoute.get_harvests_photo id)) =
      mapped-Matches _ (Request.get_harvest_image) (pipes.parse_int id) (λ k. refl)

module _ {F C A H O Upload File Data : Type 0} (pipes : Pipes Upload File)
    (env : Env F C A H O File Data) (verify : Verify) where
  -- The request comes from a user with a valid token, and the rows of others are kept.
  abbrev pub ByUser : Option Chars → ℕ → World F C A H O → World F C A H O → Type 0
  ByUser header now w w' =
      (jwt : Chars) × (exp : ℕ) × (u : LoginUser) × (header ≡ some (bearer ++ space ∷ jwt))
      × (verify jwt ≡ Guards.Result.ok (some exp, some u))
      × (now < exp * 1000)
      × Keeps env u.id w w'

  -- A request to any route of the farms service changes nothing at all, or it carries a token that
  -- verifies to a user and has not expired, and it changes and removes no farm, crop, activity or
  -- harvest that is not this user's own through the chain of crop and farm. The tables behave as
  -- documented.
  pub serve-ByUser :
      AreTables env
      → (header : Option Chars) (now : ℕ) (route : Route Upload) (w : World F C A H O)
      → ((serve pipes env verify header now route w).1 ≡ w)
        ⊎ ByUser header now w (serve pipes env verify header now route w).1
  unfolding serve guarded
  serve-ByUser tables header now route w =
      go (can_activate verify header now) refl (send pipes route)
    where
      run : ℕ → Message File → Action (World F C A H O) (Reply Data)
      run user m = handle env user m.payload

      go :
          (r : Guards.Result (Option LoginUser))
          → can_activate verify header now ≡ r
          → (m : Result (Message File))
          → ((admitted run m r w).1 ≡ w) ⊎ ByUser header now w (admitted run m r w).1
      go (Guards.Result.err e) h m = inl refl
      go (Guards.Result.ok user) h (err e) = inl refl
      go (Guards.Result.ok none) h (ok m) = inl refl
      go (Guards.Result.ok (some u)) h (ok m) =
          let (jwt, exp, shape, clear, verified, later) =
            can_activate_sound verify header now (some u) h in
          inr (jwt, exp, u, shape, verified, later, handle-Keeps env tables u.id w m.payload)
