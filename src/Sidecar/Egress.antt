-- ===== src/Sidecar/Egress.antt =====
-- Calls of the local application, pkg/sidecar/egress.go: the routing by the x-nats- headers, the
-- unary path and the streaming path. pumpBidi is in Pump.antt.
use nats_grpc.Base.{String, Option, none, some, List, [], ◌∷◌, ◌==◌, if◌then◌else◌}
use nats_grpc.Base.Text.{◌+++◌}
use nats_grpc.Wire.{Bytes, Error, Result, ok, err, Md, status_with}
use nats_grpc.Wire.Code
use nats_grpc.Stats.{Context, Log}
use nats_grpc.Env.{Env}
use nats_grpc.Client.{Client, Body, raw, message, Outcome, invoke_with_svcid}
use nats_grpc.ClientStream.{stream_subject}
use nats_grpc.Pump.{PumpEvent, Pumped, pump_bidi}
use nats_grpc.Sidecar.Headers.{first_header, strip_reserved_headers}

-- The inbound call: its method, the metadata of its context, and what RecvMsg and SendMsg return.
pub record LocalCall : Type 0 where
  pub method : Option String
  pub metadata : Option Md
  pub recv_msg : Result Bytes
  pub send_msg : Bytes → Option Error

-- What handleEgress makes of a call. A streaming call is on its NATS subject.
pub data Egress : Type 0 where
  -- it returned, after the frames that it sent to the application
  answered : Option Error → List Bytes → Log → Egress
  streaming : String → Md → Pumped → Egress

-- The way of a call: unary, or streaming to a replica.
pub data Route : Type 0 where
  refused : Error → Route
  to_service : String → String → Route
  to_replica : String → String → String → Route

abbrev pub forwarded_md : Option Md → Md
forwarded_md none = []
forwarded_md (some md) = strip_reserved_headers md

-- `get` is metadata.MD.Get, and `quote` the %q of fmt.
module _ (get : Md → String → List String) (quote : String → String) where
  abbrev pub invalid : String → Error
  invalid text = status_with Code.invalid_argument text

  unfoldable pub route_stream : String → String → String → Route
  route_stream svcid nid method =
      if nid == ""
      then refused (
          invalid
            ("x-nats-target-nid header is required when x-nats-mode is " +++ quote "streaming"))
      else to_replica svcid nid method

  unfoldable pub route_mode : String → String → String → String → Route
  route_mode mode svcid nid method =
      if mode == "unary"
      then to_service svcid method
      else (if mode == "streaming"
          then route_stream svcid nid method
          else refused (
              invalid (
                "x-nats-mode value "
                +++ quote mode
                +++ " invalid (want "
                +++ quote "unary"
                +++ " or "
                +++ quote "streaming"
                +++ ")")))

  unfoldable pub route_method : String → Option Md → Route
  route_method method md =
      let svcid = first_header get md "x-nats-svcid" in
      let mode = first_header get md "x-nats-mode" in
      if svcid == ""
      then refused (invalid "x-nats-svcid header is required")
      else route_mode (if mode == "" then "unary" else mode) svcid
          (first_header get md "x-nats-target-nid") method

  unfoldable pub route : LocalCall → Route
  route call = elim call.method [
    | none ↦ refused (status_with Code.internal "could not resolve method from server stream")
    | some method ↦ route_method method call.metadata
  ]

  -- NewOutgoingContext of the stream's context
  abbrev pub egress_context : LocalCall → Context
  egress_context call = record {
    incoming = call.metadata;
    outgoing = some (forwarded_md call.metadata);
    values = [];
  }

  module _ {M : Type 0} (env : Env M) (request : String → Bytes → Result Bytes) (cli : Client) where
    abbrev pub sent_frames : Option Error → Bytes → List Bytes
    sent_frames none b = b ∷ []
    sent_frames (some e) b = []

    abbrev pub body_frame : Body M → Bytes
    body_frame (raw b) = b
    body_frame (message m) = []

    -- after InvokeWithSvcID
    unfoldable pub reply_local : LocalCall → Outcome M → Egress
    reply_local call o = elim o.error [
      | some e ↦ answered (some e) [] o.log
      | none ↦
          answered (call.send_msg (body_frame o.reply))
            (sent_frames (call.send_msg (body_frame o.reply)) (body_frame o.reply)) o.log
    ]

    unfoldable pub invoke_local : LocalCall → String → String → Log → Result Bytes → Egress
    invoke_local call svcid method log (err e) = answered (some e) [] log
    invoke_local call svcid method log (ok b) = reply_local call (
        invoke_with_svcid env request cli (egress_context call) svcid method (raw b) (raw []) [] []
          log)

    unfoldable pub dispatch_unary_egress : LocalCall → String → String → Log → Egress
    dispatch_unary_egress call svcid method log = invoke_local call svcid method log call.recv_msg

    -- `events` are the results of the goroutines of pumpBidi
    unfoldable pub on_stream : LocalCall → List PumpEvent → Log → Result String → Egress
    on_stream call events log (err e) = answered (some e) [] log
    on_stream call events log (ok subject) =
        streaming subject (forwarded_md call.metadata) (pump_bidi events)

    unfoldable pub dispatch_streaming_egress :
        LocalCall → String → String → String → List PumpEvent → Log → Egress
    dispatch_streaming_egress call svcid nid method events log =
        on_stream call events log (stream_subject svcid nid method)

    unfoldable pub on_route : LocalCall → List PumpEvent → Log → Route → Egress
    on_route call events log (refused e) = answered (some e) [] log
    on_route call events log (to_service svcid method) = dispatch_unary_egress call svcid method log
    on_route call events log (to_replica svcid nid method) =
        dispatch_streaming_egress call svcid nid method events log

    unfoldable pub handle_egress : LocalCall → List PumpEvent → Log → Egress
    handle_egress call events log = on_route call events log (route call)
