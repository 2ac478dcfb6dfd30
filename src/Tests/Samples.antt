-- ===== src/Tests/Samples.antt =====
-- A small environment: a message is a number, and the encodings are partial, so that their laws can
-- be proved by cases. Handlers and stats handlers to go with it.
use nats_grpc.Base.{
  ℕ, ◌≡◌, refl, sym, ap, Option, none, some, List, [], ◌∷◌, ◌++◌, arith, ◌==◌, eq_iff, nat_eq,
  if◌then◌else◌,
}
use nats_grpc.Wire.{
  Bytes, Metadata, Status, UnaryRequest, UnaryResponse, Request, Response, Error, status_error,
  Result, ok, err,
}
use nats_grpc.Stats.{StatsHandler}
use nats_grpc.Env.{Env, StatusLaws, ProtoLaws}
use nats_grpc.ServerStream.{Impl}

abbrev pub bad : {A : Type 0} → Result A
bad = err (Error.other "bad")

abbrev pub plain : ℕ → Status
plain c = record { code = c; message = ""; details = [] }

abbrev pub decode_message : Bytes → Result ℕ
decode_message (n ∷ []) = ok n
decode_message _ = bad

-- only unary requests for one method, with no metadata
abbrev pub encode_unary : UnaryRequest → Result Bytes
encode_unary u =
    if u.method == "/S/M" then elim u.metadata [ none ↦ ok u.payload | some m ↦ bad ] else bad

abbrev pub encode_request : Request → Result Bytes
encode_request (Request.unary u) = encode_unary u
encode_request _ = bad

abbrev pub decode_request : Bytes → Result Request
decode_request b = ok (Request.unary (record { method = "/S/M"; metadata = none; payload = b }))

abbrev pub encode_status : Status → Bytes → Result Bytes
encode_status s b = elim s.details [
  | [] ↦ if s.message == "" then ok (s.code ∷ b) else bad
  | d ∷ ds ↦ bad
]

-- no header, no trailer, and a status without text
abbrev pub encode_reply : UnaryResponse → Result Bytes
encode_reply u = elim u.header [
  | some m ↦ bad
  | none ↦ elim u.trailer [
    | some m ↦ bad
    | none ↦ elim u.status [ none ↦ bad | some s ↦ encode_status s u.payload ]
  ]
]

abbrev pub encode_response : Response → Result Bytes
encode_response (Response.unary u) = encode_reply u
encode_response _ = bad

abbrev pub decode_response : Bytes → Result Response
decode_response [] = bad
decode_response (c ∷ b) = ok (
    Response.unary (record { header = none; trailer = none; status = some (plain c); payload = b }))

abbrev pub status_of : Error → Status
status_of (status_error s) = s
status_of e = plain 2

abbrev pub unary_env : Env ℕ
unary_env = record {
  marshal = λ n. ok (n ∷ []);
  unmarshal = decode_message;
  marshal_request = encode_request;
  unmarshal_request = decode_request;
  marshal_response = encode_response;
  unmarshal_response = decode_response;
  convert = status_of;
  convert_nil = some (plain 0);
  error_proto = λ s. if nat_eq s.code 0 then none else some (status_error s);
  error_text = λ e. "error";
  code_text = λ c. "code";
  join = λ a b. a ++ b;
  append = λ md k vs. md ++ (k, vs) ∷ [];
  publish = λ log s b. none;
}

pub unary_env-StatusLaws : StatusLaws unary_env
unary_env-StatusLaws = record {
  convert_nil_ok = λ s e. sym (ap (λ o. elim o [ none ↦ 0 | some t ↦ t.code ]) e);
  convert_status = λ s. refl;
  error_proto_ok = λ s e. ground arith;
  error_proto_status = λ s h. ground arith;
}

encode_unary-law :
    (u : UnaryRequest) (b : Bytes) → encode_unary u ≡ ok b → decode_request b ≡ ok (Request.unary u)
encode_unary-law u b e = ground (arith, eq_iff u.method "/S/M")

encode_request-law : (r : Request) (b : Bytes) → encode_request r ≡ ok b → decode_request b ≡ ok r
encode_request-law (Request.unary u) b e = encode_unary-law u b e
encode_request-law _ b e = absurd (cc)

encode_status-law :
    (s : Status) (p b : Bytes) → encode_status s p ≡ ok b → (b ≡ s.code ∷ p) × (s ≡ plain s.code)
encode_status-law s p b e = ground (arith, eq_iff s.message "")

encode_reply_parts-law :
    (h t : Option Metadata) (st : Option Status) (p b : Bytes)
    → let u : UnaryResponse = record { header = h; trailer = t; status = st; payload = p } in
      encode_reply u ≡ ok b → decode_response b ≡ ok (Response.unary u)
encode_reply_parts-law (some h) t st p b e = absurd (cc)
encode_reply_parts-law none (some t) st p b e = absurd (cc)
encode_reply_parts-law none none none p b e = absurd (cc)
encode_reply_parts-law none none (some s) p b e =
    let (coded, same) = encode_status-law s p b e in
    rw coded (
      ap
        (λ x.
          ok (
            Response.unary
              (record { header = none; trailer = none; status = some x; payload = p })))
        (sym same))

encode_reply-law :
    (u : UnaryResponse) (b : Bytes)
    → encode_reply u ≡ ok b
    → decode_response b ≡ ok (Response.unary u)
encode_reply-law u b e = encode_reply_parts-law u.header u.trailer u.status u.payload b e

encode_response-law :
    (r : Response) (b : Bytes) → encode_response r ≡ ok b → decode_response b ≡ ok r
encode_response-law (Response.unary u) b e = encode_reply-law u b e
encode_response-law _ b e = absurd (cc)

pub unary_env-ProtoLaws : ProtoLaws unary_env
unary_env-ProtoLaws = record {
  unmarshal-marshal = λ m b e. ground arith;
  unmarshal-marshal_request = encode_request-law;
  unmarshal-marshal_response = encode_response-law;
}

-- the frames of a stream: Call, Data, End and Ping
abbrev pub decode_frame : Bytes → Result Request
decode_frame [] = bad
decode_frame (k ∷ b) =
    if nat_eq k 0
    then ok (Request.call (record { method = "/S/M"; metadata = none; nid = "c" }))
    else (if nat_eq k 1
        then ok (Request.payload b)
        else (if nat_eq k 2
            then ok (Request.end (record { status = none; trailer = none }))
            else (if nat_eq k 3
                then ok (Request.end (record { status = some (plain 1); trailer = none }))
                else ok (Request.ping 7))))

abbrev pub stream_env : Env ℕ
stream_env = record unary_env { unmarshal_request = decode_frame; marshal_response = λ r. ok [] }

abbrev pub sample_impl : Impl
sample_impl = record { service = "S"; method = "M" }

abbrev pub stats : List StatsHandler
stats = record { name = "otel"; tag = λ ctx m. ctx } ∷ []
