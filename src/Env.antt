-- ===== src/Env.antt =====
-- The third-party functions that pkg/rpc calls (protobuf, grpc status and metadata, the NATS
-- connection), as parameters, and what the code relies on in them.
use nats_grpc.Base.{ℕ, String, ◌≡◌, ◌≢◌, Option, none, some, List}
use nats_grpc.Wire.{Bytes, Status, Request, Response, Error, status_error, Result, ok, Md}
use nats_grpc.Stats.{Log}

-- `M` is the type of the application's protobuf messages.
pub record Env (M : Type 0) : Type 0 where
  -- proto.Marshal and proto.Unmarshal, on the application's messages and on the envelopes
  pub marshal : M → Result Bytes
  pub unmarshal : Bytes → Result M
  pub marshal_request : Request → Result Bytes
  pub unmarshal_request : Bytes → Result Request
  pub marshal_response : Response → Result Bytes
  pub unmarshal_response : Bytes → Result Response
  -- status.Convert(err).Proto() of an error and of nil, and status.ErrorProto(st); a nil Status and a
  -- nil error are `none`
  pub convert : Error → Status
  pub convert_nil : Option Status
  pub error_proto : Status → Option Error
  -- err.Error() and codes.Code.String()
  pub error_text : Error → String
  pub code_text : ℕ → String
  -- metadata.Join(a, b) and md.Append(key, values...)
  pub join : Md → Md → Md
  pub append : Md → String → List String → Md
  -- the error of nc.Publish and nc.PublishRequest, which may depend on all that went before
  pub publish : Log → String → Bytes → Option Error

-- Documented behaviour of google.golang.org/grpc/status.
pub record StatusLaws {M : Type 0} (env : Env M) : Type 0 where
  -- Convert(nil) stands for OK: its message is nil or has the code OK
  pub convert_nil_ok : (s : Status) → env.convert_nil ≡ some s → s.code ≡ 0
  -- Convert gives back the status of a status error
  pub convert_status : (s : Status) → env.convert (status_error s) ≡ s
  -- ErrorProto is nil for OK, and else an error that represents the status
  pub error_proto_ok : (s : Status) → s.code ≡ 0 → env.error_proto s ≡ none
  pub error_proto_status : (s : Status) → s.code ≢ 0 → env.error_proto s ≡ some (status_error s)

-- What Marshal has written Unmarshal reads back.
pub record ProtoLaws {M : Type 0} (env : Env M) : Type 0 where
  pub unmarshal-marshal : (m : M) (b : Bytes) → env.marshal m ≡ ok b → env.unmarshal b ≡ ok m
  pub unmarshal-marshal_request :
      (r : Request) (b : Bytes) → env.marshal_request r ≡ ok b → env.unmarshal_request b ≡ ok r
  pub unmarshal-marshal_response :
      (r : Response) (b : Bytes) → env.marshal_response r ≡ ok b → env.unmarshal_response b ≡ ok r

-- status.Convert(err).Proto()
abbrev pub status_proto : {M : Type 0} → Env M → Option Error → Option Status
status_proto env none = env.convert_nil
status_proto env (some e) = some (env.convert e)
