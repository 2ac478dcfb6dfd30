-- ===== src/Codec.antt =====
-- RawCodec of pkg/rpc/codec.go: a *Frame passes through as its bytes, any other value goes to the
-- parent codec. `protoCodec` is the parent that marshals messages.
use nats_grpc.Base.{String, ◌≡◌, refl}
use nats_grpc.Base.Text.{◌+++◌}
use nats_grpc.Wire.{Bytes, Result, ok, err}
use nats_grpc.Env.{Env, ProtoLaws}
use nats_grpc.Client.{Body, raw, message}

-- grpc.Codec. Unmarshal writes to its second argument: it takes what was there and returns what is.
pub record Codec (V : Type 0) : Type 0 where
  pub marshal : V → Result Bytes
  pub unmarshal : Bytes → V → Result V
  pub string : String

unfoldable pub proto_codec : {M : Type 0} → Env M → Codec M
proto_codec env = record {
  marshal = env.marshal;
  unmarshal = λ b old. env.unmarshal b;
  string = "proto";
}

module _ {M : Type 0} (parent : Codec M) where
  unfoldable pub raw_marshal : Body M → Result Bytes
  raw_marshal (raw b) = ok b
  raw_marshal (message m) = parent.marshal m

  unfoldable pub to_body : Result M → Result (Body M)
  to_body (ok m) = ok (message m)
  to_body (err e) = err e

  unfoldable pub raw_unmarshal : Bytes → Body M → Result (Body M)
  raw_unmarshal b (raw old) = ok (raw b)
  raw_unmarshal b (message old) = to_body (parent.unmarshal b old)

  unfoldable pub codec_with_parent : Codec (Body M)
  codec_with_parent = record {
    marshal = raw_marshal;
    unmarshal = raw_unmarshal;
    string = "proxy>" +++ parent.string;
  }

-- What holds a value of the same kind: a frame or a message.
abbrev pub SameKind : {M : Type 0} → Body M → Body M → Type 0
SameKind (raw a) (raw b) = Unit
SameKind (message m) (message n) = Unit
SameKind _ _ = ⊥

-- What the codec over protobuf has marshalled it reads back into a destination of the same kind, a
-- frame or a message, whatever that held before.
pub codec-roundtrip :
    {M : Type 0} (env : Env M) (proto : ProtoLaws env) (v old : Body M) (b : Bytes)
    → SameKind v old
    → (codec_with_parent (proto_codec env)).marshal v ≡ ok b
    → (codec_with_parent (proto_codec env)).unmarshal b old ≡ ok v
unfolding codec_with_parent raw_marshal raw_unmarshal proto_codec to_body
codec-roundtrip env proto (raw a) (raw old) b k e = cc (e)
codec-roundtrip env proto (message m) (message old) b k e = rw (proto.unmarshal-marshal m b e) refl
codec-roundtrip env proto (raw a) (message old) b k e = absurd k
codec-roundtrip env proto (message m) (raw old) b k e = absurd k
