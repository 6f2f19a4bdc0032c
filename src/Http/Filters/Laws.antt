-- ===== src/Http/Filters/Laws.antt =====
-- What the two filters preserve across the RabbitMQ hop.
use harvestledger.Base.{◌≡◌, refl}
use harvestledger.Http.{HttpException, RpcError, Exception, http, rpc, error, reply, other}
use harvestledger.Http.Filters.{rpc_catch, http_catch, raised, error_label}

-- An exception thrown in a microservice is answered by the gateway with the status and the message
-- that the microservice's filter chose, for every kind of exception.
pub http_catch-rpc_catch : (x : Exception) → http_catch (raised (rpc_catch x)) ≡ rpc_catch x
unfolding http_catch
http_catch-rpc_catch x = refl

-- An `HttpException` gets the answer that it would have got in the gateway itself.
pub rpc_catch-http : (e : HttpException) → rpc_catch (http e) ≡ http_catch (http e)
unfolding rpc_catch http_catch
rpc_catch-http e = refl

-- An exception thrown in a microservice and answered by the gateway after the hop: an
-- `HttpException` is answered as if it had been thrown in the gateway, and anything else that is
-- not an `RpcException` is answered with status 500.
pub hop_answer :
    (x : Exception)
    → ((e : HttpException) → x ≡ http e → http_catch (raised (rpc_catch x)) ≡ http_catch x)
      × (((e : HttpException) → ¬ (x ≡ http e))
          → ((r : RpcError) → ¬ (x ≡ rpc r))
          → (http_catch (raised (rpc_catch x))).status_code ≡ 500)
unfolding rpc_catch http_catch
hop_answer (http e) = (λ _ _. refl, λ no_http _. absurd (no_http e refl))
hop_answer (rpc r) = (λ e h. cc, λ _ no_rpc. absurd (no_rpc r refl))
hop_answer (error m) = (λ e h. cc, λ _ _. refl)
hop_answer (reply c m) = (λ e h. cc, λ _ _. refl)
hop_answer other = (λ e h. cc, λ _ _. refl)

-- An `HttpException` of a microservice is answered with its own status and labelled 500.
error_label-raised :
    (e : HttpException)
    → (error_label (raised (rpc_catch (http e))) ≡ 500)
      × ((http_catch (raised (rpc_catch (http e)))).status_code ≡ e.status)
unfolding error_label http_catch rpc_catch
error_label-raised e = (refl, refl)
