-- ===== src/Http/Tests.antt =====
-- Requests to the gateway at given inputs.
use harvestledger.Base.{ℕ, ◌*◌, ◌<◌, Option, some, [], ◌∷◌, ◌++◌, ◌≡◌, refl}
use harvestledger.Http.{HttpException, RpcError, http, rpc, not_found}
use harvestledger.Http.Filters.{rpc_catch, http_catch, raised}
use harvestledger.Http.Filters.Laws.{hop_answer}
use harvestledger.Http.Guards.{Result, ok, Chars, space, bearer, can_activate}
use harvestledger.Http.Guards.Laws.{NoSpace, can_activate_sound}

-- A token of user 7 that expires at second 100.
abbrev token : Chars
token = b'a' ∷ b'b' ∷ []

abbrev verify : Chars → Result (Option ℕ × ℕ)
verify jwt = ok (some 100, 7)

token_let_through : can_activate verify (some (bearer ++ space ∷ token)) 99999 ≡ ok 7
unfolding can_activate
token_let_through = refl

can_activate_sound_example :
    (jwt : Chars) × (exp : ℕ) × (some (bearer ++ space ∷ token) ≡ some (bearer ++ space ∷ jwt))
    × NoSpace jwt
    × (verify jwt ≡ ok (some exp, 7))
    × (99999 < exp * 1000)
can_activate_sound_example =
    can_activate_sound verify (some (bearer ++ space ∷ token)) 99999 7 token_let_through

hop_answer_example :
    ((e : HttpException)
      → not_found "Farm not found" ≡ http e
      → http_catch (raised (rpc_catch (not_found "Farm not found")))
        ≡ http_catch (not_found "Farm not found"))
    × (((e : HttpException) → ¬ (not_found "Farm not found" ≡ http e))
        → ((r : RpcError) → ¬ (not_found "Farm not found" ≡ rpc r))
        → (http_catch (raised (rpc_catch (not_found "Farm not found")))).status_code ≡ 500)
hop_answer_example = hop_answer (not_found "Farm not found")
