-- ===== src/Wire.antt =====
-- The messages of pkg/protos/nrpc/nrpc.pb.go (generated from protos/nrpc/nrpc.proto), the errors
-- that pkg/rpc returns and compares with, and the third-party functions that it calls.
pub mod Code
use nats_grpc.Base.{ℕ, String, ◌≡◌, ◌⊎◌, inl, inr, refl, Option, List, [], GoMap}

abbrev pub Bytes : Type 0
Bytes = List ℕ

-- google.rpc.Status; a detail is the type and the bytes of an `Any`
pub record Status : Type 0 where
  pub code : ℕ
  pub message : String
  pub details : List (String × Bytes)

pub record Strings : Type 0 where
  pub values : List String

-- `nil` is `none` where a message holds one; the generated decoder puts no `nil` in the map
pub record Metadata : Type 0 where
  pub md : GoMap Strings

pub record UnaryRequest : Type 0 where
  pub method : String
  pub metadata : Option Metadata
  pub payload : Bytes

pub record UnaryResponse : Type 0 where
  pub header : Option Metadata
  pub trailer : Option Metadata
  pub status : Option Status
  pub payload : Bytes

pub record Call : Type 0 where
  pub method : String
  pub metadata : Option Metadata
  pub nid : String

pub record Begin : Type 0 where
  pub header : Option Metadata
  pub nid : String

pub record End : Type 0 where
  pub status : Option Status
  pub trailer : Option Metadata

-- The `oneof` of Request; `unset` is a message whose `oneof` is empty. `data` and `ping` hold the
-- one field of Data and of Ping.
pub data Request : Type 0 where
  unset : Request
  call : Call → Request
  payload : Bytes → Request
  end : End → Request
  ping : ℕ → Request
  unary : UnaryRequest → Request

pub data Response : Type 0 where
  unset : Response
  begin : Begin → Response
  payload : Bytes → Response
  end : End → Response
  pong : ℕ → Response
  unary : UnaryResponse → Response

-- A Go error: the values that the code compares with, a status error, and any other by its text.
pub data Error : Type 0 where
  eof deadline_exceeded canceled timeout no_responders illegal_header_write : Error
  status_error : Status → Error
  other : String → Error

-- A value, or a non-nil error.
pub data Result {ℓ} (A : Type ℓ) : Type ℓ where
  ok : A → Result A
  err : Error → Result A

pub Result-cases {ℓ} :
    {A : Type ℓ} (r : Result A) → ((e : Error) × (r ≡ err e)) ⊎ ((a : A) × (r ≡ ok a))
Result-cases (ok a) = inr (a, refl)
Result-cases (err e) = inl (e, refl)

-- metadata.MD
abbrev pub Md : Type 0
Md = GoMap (List String)

-- status.Error(code, message)
abbrev pub status_with : ℕ → String → Error
status_with c m = status_error (record { code = c; message = m; details = [] })

-- the fields of nats.Msg that the code reads
pub record Msg : Type 0 where
  pub subject : String
  pub reply : String
  pub payload : Bytes
