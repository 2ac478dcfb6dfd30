-- ===== src/Client.antt =====
-- The unary side of Client in pkg/rpc/client.go: Invoke, InvokeWithSvcID, invokeOnSubject.
pub mod Events
pub mod EndToEnd
pub mod Answered
pub mod Options
pub mod Interceptors
use nats_grpc.Base.{
  ℕ, String, Bool, true, false, not, Option, none, some, List, [], ◌∷◌, ◌==◌, length, GoMap, insert,
  if◌then◌else◌,
}
use nats_grpc.Wire.{
  Bytes, Status, Metadata, UnaryRequest, UnaryResponse, Request, Response, Error, deadline_exceeded,
  timeout, canceled, no_responders, Result, ok, err, Md, status_with,
}
use nats_grpc.Wire.Code
use nats_grpc.Stats.{Context, RpcStats, StatsHandler, Log, tag_rpc, handle_rpc}
use nats_grpc.Env.{Env}
use nats_grpc.Metadata.{make_metadata, append_all}
use nats_grpc.Subjects.{legacy_subject, modern_unary_subject}
use nats_grpc.ServerStream.Frames.{is_error}

pub record Client : Type 0 where
  pub svcid : String
  pub nid : String
  -- durations, where 0 stands for any that is not positive
  pub ping_interval : ℕ
  pub pong_timeout : ℕ
  pub stats_handlers : List StatsHandler

-- An `interface{}` argument or reply: a *Frame of codec.go, which passes bytes through, or a message.
pub data Body (M : Type 0) : Type 0 where
  raw : Bytes → Body M
  message : M → Body M

-- A call option; an address is named by a text, and `none` is a nil address.
pub data CallOption : Type 0 where
  header trailer : Option String → CallOption
  other_option : CallOption

-- What a call returns and leaves behind: the error, the variable rpcErr that the deferred function
-- reads, the reply, the variables behind the addresses, and the log.
pub record Outcome (M : Type 0) : Type 0 where
  pub error : Option Error
  pub rpc_err : Option Error
  pub reply : Body M
  pub vars : GoMap Md
  pub log : Log

module _ {M : Type 0} (env : Env M) where
  unfoldable pub body_bytes : Body M → Result Bytes
  body_bytes (raw b) = ok b
  body_bytes (message m) = env.marshal m

  -- the switch on the error of RequestWithContext
  unfoldable pub request_error : Error → Error
  request_error deadline_exceeded = status_with Code.deadline_exceeded "deadline exceeded"
  request_error timeout = status_with Code.deadline_exceeded "deadline exceeded"
  request_error canceled = status_with Code.canceled "context canceled"
  request_error no_responders = status_with Code.unavailable "no responders"
  request_error e = status_with Code.unavailable (env.error_text e)

  -- a fresh MD with the metadata of the response
  unfoldable pub fresh_md : Option Metadata → Md
  fresh_md none = []
  fresh_md (some m) = append_all env [] m.md

  unfoldable pub set_options : List CallOption → UnaryResponse → GoMap Md → GoMap Md
  set_options [] u vars = vars
  set_options (CallOption.header (some a) ∷ opts) u vars =
      set_options opts u (insert a (fresh_md u.header) vars)
  set_options (CallOption.trailer (some a) ∷ opts) u vars =
      set_options opts u (insert a (fresh_md u.trailer) vars)
  set_options (_ ∷ opts) u vars = set_options opts u vars

  -- `*Frame` replies take the bytes as they are
  unfoldable pub read_body : Body M → Bytes → Result (Body M)
  read_body (raw old) b = ok (raw b)
  read_body (message old) b = elim (env.unmarshal b) [ ok m ↦ ok (message m) | err e ↦ err e ]

  -- the reply after a response: it is written only for an OK status and a body that is not empty
  unfoldable pub read_reply : Option Status → Bytes → Body M → Result (Body M)
  read_reply st [] old = ok old
  read_reply st (x ∷ b) old = if is_error st then ok old else read_body old (x ∷ b)

  unfoldable pub status_error_of : Option Status → Option Error
  status_error_of none = none
  status_error_of (some s) = if is_error (some s) then env.error_proto s else none

  module _ (hs : List StatsHandler) (ctx : Context) where
    -- InPayload, where bytes were on the wire
    unfoldable pub body_stats : Bytes → Log → Log
    body_stats [] log = log
    body_stats (x ∷ b) log = handle_rpc hs ctx (RpcStats.in_payload (length (x ∷ b))) log

    unfoldable pub finish_reply :
        Option Status → Bytes → Body M → GoMap Md → Log → Result (Body M) → Outcome M
    finish_reply st b old vars log (err e) = record {
      error = some e;
      rpc_err = some e;
      reply = old;
      vars = vars;
      log = log;
    }
    finish_reply st b old vars log (ok reply) = record {
      error = status_error_of st;
      rpc_err = status_error_of st;
      reply = reply;
      vars = vars;
      log = body_stats b log;
    }

    unfoldable pub on_response :
        List CallOption → Body M → GoMap Md → Log → Result Response → Outcome M
    on_response opts old vars log (ok (Response.unary u)) =
        finish_reply u.status u.payload old (set_options opts u vars) log
          (read_reply u.status u.payload old)
    on_response opts old vars log (err e) = record {
      error = some e;
      rpc_err = some e;
      reply = old;
      vars = vars;
      log = log;
    }
    on_response opts old vars log _ = record {
      error = some (status_with Code.internal "expected unary response");
      rpc_err = some (status_with Code.internal "expected unary response");
      reply = old;
      vars = vars;
      log = log;
    }

    unfoldable pub on_answer : List CallOption → Body M → GoMap Md → Log → Result Bytes → Outcome M
    on_answer opts old vars log (err e) = record {
      error = some (request_error e);
      rpc_err = some (request_error e);
      reply = old;
      vars = vars;
      log = log;
    }
    on_answer opts old vars log (ok b) = on_response opts old vars log (env.unmarshal_response b)

    abbrev pub unary_request : String → Bytes → Request
    unary_request method b =
        Request.unary
          (record { method = method; metadata = make_metadata ctx.outgoing; payload = b })

    -- `request` is nc.RequestWithContext, with the deadline of the context
    unfoldable pub send_request :
        (String → Bytes → Result Bytes)
        → String
        → List CallOption
        → Body M
        → GoMap Md
        → Log
        → Result Bytes
        → Outcome M
    send_request request subject opts old vars log (err e) = record {
      error = some e;
      rpc_err = some e;
      reply = old;
      vars = vars;
      log = log;
    }
    send_request request subject opts old vars log (ok b) =
        on_answer opts old vars log (request subject b)

    unfoldable pub send_body :
        (String → Bytes → Result Bytes)
        → String
        → String
        → List CallOption
        → Body M
        → GoMap Md
        → Log
        → Result Bytes
        → Outcome M
    send_body request subject method opts old vars log (err e) = record {
      error = some e;
      rpc_err = some e;
      reply = old;
      vars = vars;
      log = log;
    }
    send_body request subject method opts old vars log (ok b) =
        send_request request subject opts old vars
          (handle_rpc hs ctx (RpcStats.out_payload (length b)) log)
          (env.marshal_request (unary_request method b))

    -- the deferred function
    unfoldable pub with_end : Outcome M → Outcome M
    with_end o = record o { log = handle_rpc hs ctx (RpcStats.end o.rpc_err) o.log }

  module _ (request : String → Bytes → Result Bytes) where
    unfoldable pub invoke_on_subject :
        List StatsHandler
        → Context
        → String
        → String
        → Body M
        → Body M
        → List CallOption
        → GoMap Md
        → Log
        → Outcome M
    invoke_on_subject hs ctx subject method args reply opts vars log =
        let tagged = tag_rpc hs ctx method in
        with_end hs tagged (
          send_body hs tagged request subject method opts reply vars
            (handle_rpc hs tagged RpcStats.begin log) (body_bytes args))

    -- the invoker, which Invoke calls where no interceptor is set
    unfoldable pub invoke :
        Client → Context → String → Body M → Body M → List CallOption → GoMap Md → Log → Outcome M
    invoke c ctx method =
        invoke_on_subject c.stats_handlers ctx (legacy_subject c.svcid method) method

    unfoldable pub invoke_with_svcid :
        Client
        → Context
        → String
        → String
        → Body M
        → Body M
        → List CallOption
        → GoMap Md
        → Log
        → Outcome M
    invoke_with_svcid c ctx svcid method args reply opts vars log =
        if svcid == ""
        then record {
          error = some (status_with Code.invalid_argument "svcid is required");
          rpc_err = none;
          reply = reply;
          vars = vars;
          log = log;
        }
        else invoke_on_subject c.stats_handlers ctx (modern_unary_subject svcid method) method args
            reply opts vars log
