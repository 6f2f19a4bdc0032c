-- ===== src/Http/Filters.antt =====
-- How a failure becomes an HTTP answer: libs/common/src/filters/rpc-exception.filter.ts (in each
-- microservice), libs/common/src/filters/http-exception.filter.ts (in the gateway), and the label
-- that libs/common/src/metrics/http-metrics.interceptor.ts gives to it.
pub mod Laws
use harvestledger.Base.{ℕ, String, Option, none, some, or_else}
use harvestledger.Http.{
  Message, text, Body, HttpException, RpcError, Exception, http, rpc, error, reply,
}

-- `{ statusCode, message }`
pub record Failure : Type 0 where
  pub status_code : ℕ
  pub message : Message

abbrev pub internal : Message
internal = text "Internal server error"

-- The ternary on `getResponse()`, which both filters have.
pub body_message : HttpException → Body → Message
body_message e (Body.plain s) = text s
body_message e (Body.object m) = or_else m (text e.message)

-- `RpcExceptionFilter.catch`
pub rpc_catch : Exception → Failure
unfolding body_message
rpc_catch (http e) = record { status_code = e.status; message = body_message e e.response }
rpc_catch (rpc (RpcError.object code m)) = record {
  status_code = or_else code 500;
  message = or_else m internal;
}
rpc_catch (rpc (RpcError.plain s)) = record { status_code = 500; message = text s }
rpc_catch (rpc RpcError.other) = record { status_code = 500; message = internal }
rpc_catch (error m) = record { status_code = 500; message = text m }
rpc_catch _ = record { status_code = 500; message = internal }

-- `HttpExceptionFilter.catch`: the status and the body's `message` (its `path` is the request's).
pub http_catch : Exception → Failure
unfolding body_message
http_catch (http e) = record { status_code = e.status; message = body_message e e.response }
http_catch (reply code m) = record { status_code = or_else code 500; message = or_else m internal }
http_catch _ = record { status_code = 500; message = internal }

-- The client of a microservice raises the serialised failure as a plain object.
abbrev pub raised : Failure → Exception
raised f = reply (some f.status_code) (some f.message)

-- The status label that `HttpMetricsInterceptor` records for a failed request.
pub error_label : Exception → ℕ
error_label (http e) = e.status
error_label _ = 500
