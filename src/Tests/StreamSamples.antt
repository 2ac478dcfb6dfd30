-- ===== src/Tests/StreamSamples.antt =====
-- An environment for streams: the frames of one method, with lawful partial encodings.
use nats_grpc.Base.{
  ℕ, ◌≡◌, refl, ap, ◌∙◌, Option, none, some, [], ◌∷◌, arith, ◌==◌, eq_iff, nat_eq, String,
  if◌then◌else◌,
}
use nats_grpc.Wire.{Bytes, Metadata, Status, Call, Begin, End, Request, Response, Result, ok, err}
use nats_grpc.Env.{Env, ProtoLaws}
use nats_grpc.Tests.Samples.{unary_env, unary_env-ProtoLaws, bad, plain, encode_status}

abbrev none_of : Option Metadata → Result Bytes → Result Bytes
none_of none r = r
none_of (some m) r = bad

abbrev only : String → String → Result Bytes → Result Bytes
only given wanted r = if given == wanted then r else bad

abbrev tagged : ℕ → Result Bytes → Result Bytes
tagged k (ok b) = ok (k ∷ b)
tagged k (err e) = bad

abbrev status_bytes : Option Status → Result Bytes
status_bytes none = bad
status_bytes (some s) = encode_status s []

abbrev encode_call : Call → Result Bytes
encode_call c = only c.method "/S/M" (only c.nid "c" (none_of c.metadata (ok (0 ∷ []))))

abbrev encode_begin : Begin → Result Bytes
encode_begin b = only b.nid "n1" (none_of b.header (ok (0 ∷ [])))

abbrev encode_end : End → Result Bytes
encode_end e = none_of e.trailer (tagged 2 (status_bytes e.status))

abbrev encode_request : Request → Result Bytes
encode_request (Request.call c) = encode_call c
encode_request (Request.payload b) = ok (1 ∷ b)
encode_request (Request.end e) = encode_end e
encode_request _ = bad

abbrev encode_response : Response → Result Bytes
encode_response (Response.begin b) = encode_begin b
encode_response (Response.payload b) = ok (1 ∷ b)
encode_response (Response.end e) = encode_end e
encode_response (Response.pong t) = ok (3 ∷ t ∷ [])
encode_response _ = bad

abbrev decode_end : Bytes → Result End
decode_end (c ∷ []) = ok (record { status = some (plain c); trailer = none })
decode_end _ = bad

abbrev end_of : {R : Type 0} → (End → R) → Result End → Result R
end_of f (ok e) = ok (f e)
end_of f (err x) = bad

abbrev decode_request : Bytes → Result Request
decode_request [] = bad
decode_request (k ∷ b) =
    if nat_eq k 0
    then ok (Request.call (record { method = "/S/M"; metadata = none; nid = "c" }))
    else (if nat_eq k 1 then ok (Request.payload b) else end_of Request.end (decode_end b))

abbrev pong_of : Bytes → Result Response
pong_of (t ∷ []) = ok (Response.pong t)
pong_of _ = bad

abbrev decode_response : Bytes → Result Response
decode_response [] = bad
decode_response (k ∷ b) =
    if nat_eq k 0
    then ok (Response.begin (record { header = none; nid = "n1" }))
    else (if nat_eq k 1
        then ok (Response.payload b)
        else (if nat_eq k 3 then pong_of b else end_of Response.end (decode_end b)))

abbrev pub wire_env : Env ℕ
wire_env = record unary_env {
  marshal_request = encode_request;
  unmarshal_request = decode_request;
  marshal_response = encode_response;
  unmarshal_response = decode_response;
}

call-law : (c : Call) (b : Bytes) → encode_call c ≡ ok b → decode_request b ≡ ok (Request.call c)
call-law c b e = ground (arith, eq_iff c.method "/S/M", eq_iff c.nid "c")

begin-law :
    (x : Begin) (b : Bytes) → encode_begin x ≡ ok b → decode_response b ≡ ok (Response.begin x)
begin-law x b e = ground (arith, eq_iff x.nid "n1")

status-law :
    (o : Option Status) (b : Bytes)
    → status_bytes o ≡ ok b
    → decode_end b ≡ ok (record { status = o; trailer = none })
status-law none b e = absurd (cc)
status-law (some s) b e = ground (arith, eq_iff s.message "")

end_parts-law :
    (t : Option Metadata) (o : Option Status) (r : Result Bytes) (b : Bytes)
    → status_bytes o ≡ r
    → none_of t (tagged 2 r) ≡ ok b
    → (c : Bytes) × (b ≡ 2 ∷ c) × (decode_end c ≡ ok (record { status = o; trailer = t }))
end_parts-law (some m) o r b q e = absurd (cc)
end_parts-law none o (err x) b q e = absurd (cc)
end_parts-law none o (ok c) b q e = (c, cc, status-law o c q)

end-law :
    (x : End) (b : Bytes) → encode_end x ≡ ok b → (c : Bytes) × (b ≡ 2 ∷ c) × (decode_end c ≡ ok x)
end-law x b e = end_parts-law x.trailer x.status (status_bytes x.status) b refl e

request-law : (r : Request) (b : Bytes) → encode_request r ≡ ok b → decode_request b ≡ ok r
request-law (Request.call c) b e = call-law c b e
request-law (Request.payload p) b e = ground arith
request-law (Request.end x) b e =
    let (c, q, k) = end-law x b e in ap decode_request q ∙ ap (end_of Request.end) k
request-law _ b e = absurd (cc)

response-law : (r : Response) (b : Bytes) → encode_response r ≡ ok b → decode_response b ≡ ok r
response-law (Response.begin x) b e = begin-law x b e
response-law (Response.payload p) b e = ground arith
response-law (Response.pong t) b e = ground arith
response-law (Response.end x) b e =
    let (c, q, k) = end-law x b e in ap decode_response q ∙ ap (end_of Response.end) k
response-law _ b e = absurd (cc)

pub wire_env-ProtoLaws : ProtoLaws wire_env
wire_env-ProtoLaws = record {
  unmarshal-marshal = λ m b e. unary_env-ProtoLaws.unmarshal-marshal m b e;
  unmarshal-marshal_request = request-law;
  unmarshal-marshal_response = response-law;
}
