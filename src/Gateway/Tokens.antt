-- ===== src/Gateway/Tokens.antt =====
-- The guard of the gateway with auth's `verify-jwt` behind it.
use harvestledger.Base.{ℕ, ◌*◌, ◌<◌, String, none, some, ◌∷◌, ◌++◌, ◌≡◌}
use harvestledger.Http.Guards
use harvestledger.Http.Guards.{Chars, bearer, space, can_activate}
use harvestledger.Http.Guards.Laws.{can_activate_complete, NoSpace}
use harvestledger.Effect.{ok, err, present}
use harvestledger.Auth.{LoginUser, Claims, jwt_secret}
use harvestledger.Auth.World.{World as AuthWorld, Env as AuthEnv}
use harvestledger.Auth.Sessions.{verify_jwt, user_of}
use harvestledger.Farms.World.{World, Env}
use harvestledger.Farms.Controller.{handle}
use harvestledger.Gateway.{Pipes, guarded, no_user}
use harvestledger.Gateway.Auth.{ask}
use harvestledger.Gateway.Farms.{Route, Message, send, pattern_of, serve}
use harvestledger.Gateway.Laws.{Matches, send-Matches}
use mathlib.Core.Path.{subst}

module _ {U B Upload File Data F C A H O Picture Image : Type 0} (pipes : Pipes Upload File)
    (auth : AuthEnv U B Picture Image) (env : Env F C A H O File Data)
    (text_of : Chars → String) where
  asked :
      (jwt : Chars) (exp now : ℕ) (claims : Claims) (s : AuthWorld U B)
      → present (some (text_of jwt)) ≡ some (text_of jwt)
      → auth.verify jwt_secret now (text_of jwt) ≡ some (claims, exp)
      → ask auth text_of now s jwt ≡ Guards.Result.ok (some exp, user_of auth claims)
  unfolding ask verify_jwt
  asked jwt exp now claims s filled verified = rw (filled, verified)

  -- The guard lets a token without spaces through that is valid for JWT_SECRET and whose `exp` lies in
  -- the future. If its claims have a user, a route whose pipes give a message is answered as the farms
  -- service answers this user. If they have none, as those of a token that resets a password, reading
  -- the user's id breaks the route's handler with an error that is no HttpException, and the farms
  -- service is not asked. The `cmd` of the message is the pattern of the handler that serves it.
  pub serve-user_of :
      (jwt : Chars) (exp now : ℕ) (claims : Claims) (s : AuthWorld U B) (route : Route Upload)
      (m : Message File) (w : World F C A H O)
      → NoSpace jwt
      → present (some (text_of jwt)) ≡ some (text_of jwt)
      → auth.verify jwt_secret now (text_of jwt) ≡ some (claims, exp)
      → now < exp * 1000
      → send pipes route ≡ ok m
      → ((u : LoginUser)
          → user_of auth claims ≡ some u
          → serve pipes env (ask auth text_of now s) (some (bearer ++ space ∷ jwt)) now route w
            ≡ handle env u.id m.payload w)
        × (user_of auth claims ≡ none
            → serve pipes env (ask auth text_of now s) (some (bearer ++ space ∷ jwt)) now route w
              ≡ (err no_user, w))
        × (m.cmd ≡ pattern_of m.payload)
  unfolding serve guarded
  serve-user_of jwt exp now claims s route m w clear filled verified later sent =
      let reply = asked jwt exp now claims s filled verified in
      let through =
        can_activate_complete (ask auth text_of now s) jwt exp now (user_of auth claims) clear reply
          later in
      (
        λ u own. rw (through, sent, own),
        λ absent. rw (through, sent, absent),
        subst Matches sent (send-Matches pipes route),
      )
