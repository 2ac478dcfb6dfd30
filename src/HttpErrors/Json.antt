-- ===== src/HttpErrors/Json.antt =====
-- The JSON of errors: WriteJSON in pkg/rpc/reflection/errors/errors.go.
use nats_grpc.Base.{ℕ, ◌≡◌, refl, ap, String, Option, some, List, [], ◌∷◌, GoMap, lookup}
use nats_grpc.Wire.{Bytes, Error}
use nats_grpc.HttpErrors.{GrpcError, ProxyError, proxy_http_status}

-- The values of a JSON object; an int is its 64-bit pattern.
pub data Json : Type 0 where
  number : ℕ → Json
  text : String → Json
  array : List (String × Bytes) → Json

-- json:"details,omitempty"
abbrev pub with_details : List (String × Bytes) → GoMap Json
with_details [] = []
with_details (d ∷ ds) = ("details", array (d ∷ ds)) ∷ []

unfoldable pub grpc_json : GrpcError → GoMap Json
grpc_json e = ("code", number e.status_code) ∷ ("message", text e.message) ∷ with_details e.details

unfoldable pub proxy_json : ProxyError → GoMap Json
proxy_json e = ("status", number (proxy_http_status e)) ∷ ("message", text e.message) ∷ []

-- WriteJSON of both errors, over the encoder, which gives the error of encoding or of the writer.
module _ (encode : GoMap Json → Option Error) where
  unfoldable pub write_grpc_json : GrpcError → Option Error
  write_grpc_json e = encode (grpc_json e)

  unfoldable pub write_proxy_json : ProxyError → Option Error
  write_proxy_json e = encode (proxy_json e)

-- a decoder of the fields, where an absent one has the zero value
abbrev pub number_of : Option Json → ℕ
number_of (some (number n)) = n
number_of _ = 0

abbrev pub text_of : Option Json → String
text_of (some (text t)) = t
text_of _ = ""

abbrev pub array_of : Option Json → List (String × Bytes)
array_of (some (array ds)) = ds
array_of _ = []

abbrev pub read_grpc : GoMap Json → GrpcError
read_grpc j = record {
  status_code = number_of (lookup "code" j);
  message = text_of (lookup "message" j);
  details = array_of (lookup "details" j);
}

array_of-with_details :
    (ds : List (String × Bytes)) → array_of (lookup "details" (with_details ds)) ≡ ds
unfolding lookup
array_of-with_details [] = refl
array_of-with_details (d ∷ ds) = refl

-- A reader that gives an absent field its zero value reads back the error that GRPCError.WriteJSON
-- writes, also where it has no details and the field is left out.
pub read_grpc-grpc_json : (e : GrpcError) → read_grpc (grpc_json e) ≡ e
unfolding grpc_json lookup
read_grpc-grpc_json e =
    ap (λ ds. record { status_code = e.status_code; message = e.message; details = ds })
      (array_of-with_details e.details)
