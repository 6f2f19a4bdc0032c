-- ===== src/Http.antt =====
-- Exceptions and replies, as NestJS carries them between a microservice, RabbitMQ and the gateway.
pub mod Filters
pub mod Guards
mod Tests
use harvestledger.Base.{ℕ, String, Option, none, some, List}

-- `string | string[]`
pub data Message : Type 0 where
  text : String → Message
  texts : List String → Message

-- What `getResponse()` gives: a string, or an object that may have a field `message`.
pub data Body : Type 0 where
  plain : String → Body
  object : Option Message → Body

-- An instance of NestJS's `HttpException`: `getStatus()`, `getResponse()` and `.message`.
pub record HttpException : Type 0 where
  pub status : ℕ
  pub response : Body
  pub message : String

-- What `getError()` of an `RpcException` gives; `other` is neither a string nor an object.
pub data RpcError : Type 0 where
  object : Option ℕ → Option Message → RpcError
  plain : String → RpcError
  other : RpcError

-- What can be thrown. `reply` is a plain object with a field `statusCode`, as the client of a
-- microservice gets it; its first field is `none` where `statusCode` is no number.
pub data Exception : Type 0 where
  http : HttpException → Exception
  rpc : RpcError → Exception
  error : String → Exception
  reply : Option ℕ → Option Message → Exception
  other : Exception

-- `new NotFoundException(m)` and its like: the response is an object with the message.
abbrev pub exception : ℕ → String → Exception
exception status m =
    http (record { status = status; response = Body.object (some (text m)); message = m })

abbrev pub bad_request : String → Exception
bad_request = exception 400

abbrev pub unauthorized : String → Exception
unauthorized = exception 401

abbrev pub forbidden : String → Exception
forbidden = exception 403

abbrev pub not_found : String → Exception
not_found = exception 404

abbrev pub conflict : String → Exception
conflict = exception 409
