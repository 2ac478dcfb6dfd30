-- ===== src/ClientStream/Calls.antt =====
-- Header, Trailer and Invoke of clientStream in pkg/rpc/client.go.
use nats_grpc.Base.{String, Option, none, some, []}
use nats_grpc.Wire.{Bytes, Request, Result, ok, err, Md}
use nats_grpc.Env.{Env}
use nats_grpc.Metadata.{make_metadata}
use nats_grpc.ClientStream.{ClientFocus, write_request, close_send}

-- a nil pointer is allocated first
abbrev pub allocated : Option Md → Md
allocated none = []
allocated (some md) = md

unfoldable pub header : ClientFocus → ClientFocus × Md
header f = (
  record f { stream = record f.stream { header = some (allocated f.header) } },
  allocated f.header,
)

unfoldable pub trailer : ClientFocus → ClientFocus × Md
trailer f = (
  record f { stream = record f.stream { trailer = some (allocated f.trailer) } },
  allocated f.trailer,
)

module _ {M : Type 0} (env : Env M) where
  -- Invoke up to its RecvMsg, for a message that has been encoded; the errors of the two writes are
  -- dropped. An encoding error ends the process, by Fatalf.
  unfoldable pub invoke_request : String → Bytes → ClientFocus → ClientFocus
  invoke_request method b f =
      let call =
        Request.call (record { method = method; metadata = make_metadata f.md; nid = "" }) in
      (write_request env (Request.payload b) (write_request env call f).0).0

  unfoldable pub invoke_sends : String → Result Bytes → ClientFocus → Option ClientFocus
  unfolding invoke_request
  invoke_sends method (err e) f = none
  invoke_sends method (ok b) f = some (invoke_request method b f)

  -- Invoke after its RecvMsg, whose error it returns
  unfoldable pub invoke_ends : ClientFocus → ClientFocus
  invoke_ends f = (close_send env f).0
