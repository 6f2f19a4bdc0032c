-- ===== src/Gateway/Tests.antt =====
-- The theorems at the samples of the farms service.
use harvestledger.Base.{
  ℕ, String, true, false, Option, none, some, List, [], ◌∷◌, ◌++◌, ◌≡◌, ◌⊎◌, refl, arith,
}
use harvestledger.Http.Guards
use harvestledger.Http.Guards.{Chars, bearer, space}
use harvestledger.Effect.{ok, err, present}
use harvestledger.Store.{body}
use harvestledger.Store.Memory.{memory}
use harvestledger.Auth.{User, LoginUser, forgot}
use harvestledger.Auth.World.{World as AuthWorld, Env as AuthEnv}
use harvestledger.Auth.Sessions.{user_of}
use harvestledger.Farms.Controller.{Request, handle}
use harvestledger.Farms.Samples.{env, env-AreTables, rows, new_elm}
use harvestledger.Gateway.{Pipes, Verify, no_user}
use harvestledger.Gateway.Auth.{ask}
use harvestledger.Gateway.Farms.{Route, FarmsRoute, Message, send, pattern_of, serve}
use harvestledger.Gateway.Laws.{serve-ByUser, ByUser}
use harvestledger.UserProjection.{Projection}
use harvestledger.Report.{Report, farmer}
use harvestledger.Gateway.Reports.{serve_admin_report, serve_farmer_report}
use harvestledger.Gateway.Reports.Access.{Says, IsAdmin, IsFarmer, serve_reports-Says}
use harvestledger.Gateway.Tokens.{serve-user_of}

abbrev pipes : Pipes ℕ ℕ
pipes = record { parse_int = λ s. ok 2; image = λ size type file. ok 5 }

abbrev user_8 : LoginUser
user_8 = record { id = 8; rol = none }

abbrev verify : Verify
verify jwt = Guards.Result.ok (some 1000, some user_8)

abbrev jwt : Chars
jwt = b'x' ∷ []

abbrev header : Option Chars
header = some (bearer ++ space ∷ jwt)

abbrev rename : Route ℕ
rename = Route.farms (FarmsRoute.patch_farms (some "2") new_elm)

abbrev rename_message : Message ℕ
rename_message = record { cmd = "updateFarm"; payload = Request.update_farm new_elm 2 }

serve-ByUser_example :
    ((serve pipes env verify header 50 rename rows).1 ≡ rows)
    ⊎ ByUser pipes env verify header 50 rows (serve pipes env verify header 50 rename rows).1
serve-ByUser_example = serve-ByUser pipes env verify env-AreTables header 50 rename rows

-- A guard that asks an auth service with one token that resets a password.
abbrev auth : AuthEnv (List User) ℕ ℕ ℕ
auth = record {
  users = memory (λ u. u.profile.id);
  bucket = record { upload = λ key file o. (none, o); get_object = λ key o. body o };
  to_string = λ n. "1";
  uuid = λ n. "1";
  hash = λ n p. p;
  compare = λ p h. false;
  sign = λ secret now ttl claims. "token";
  verify = λ secret now t. some (forgot 1 "ann@farm" 50, 1000);
  outbox_accepts = λ w. true;
  commits = λ w. true;
  context = [];
}

abbrev idle : AuthWorld (List User) ℕ
idle = record { users = []; keys = []; draws = 0; outbox = []; outbox_seq = 1; objects = 0 }

serve-user_of_example :
    ((u : LoginUser)
      → user_of auth (forgot 1 "ann@farm" 50) ≡ some u
      → serve pipes env (ask auth (λ c. "token") 50 idle) header 50 rename rows
        ≡ handle env u.id (Request.update_farm new_elm 2) rows)
    × (user_of auth (forgot 1 "ann@farm" 50) ≡ none
        → serve pipes env (ask auth (λ c. "token") 50 idle) header 50 rename rows
          ≡ (err no_user, rows))
    × ("updateFarm" ≡ pattern_of rename_message.payload)
unfolding send present
serve-user_of_example =
    serve-user_of pipes auth env (λ c. "token") jwt 1000 50 (forgot 1 "ann@farm" 50) idle rename
      rename_message rows ((λ e. ground (arith, e)), tt) refl refl (ground arith) refl

abbrev boss : Projection
boss = record {
  id = 8;
  first_name = "Bea";
  last_name = none;
  email = "bea@farm";
  rol = some "admin";
}

abbrev verify_admin : Verify
verify_admin _ = Guards.Result.ok (some 1000, some (record { id = 8; rol = some "admin" }))

abbrev parse : String → Report
parse s = farmer []

abbrev stringify : Report → String
stringify r = "[]"

serve_reports-Says_example :
    Says
      (IsAdmin parse stringify (boss ∷ []) [] (λ n. "8") verify_admin header 50 [])
      []
      (serve_admin_report parse stringify (boss ∷ []) [] verify_admin header 50 [])
    × ((id : ℕ)
        → Says
            (IsFarmer parse stringify (boss ∷ []) [] (λ n. "8") verify_admin header 50 [] id)
            []
            (serve_farmer_report parse stringify
              (boss ∷ [])
              []
              (λ n. "8")
              verify_admin
              header
              50
              (ok id)
              []))
serve_reports-Says_example =
    serve_reports-Says parse stringify (boss ∷ []) [] (λ n. "8") verify_admin header 50 []
