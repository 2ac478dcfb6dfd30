-- ===== src/ClientStream.antt =====
-- clientStream of pkg/rpc/client.go: one streaming RPC on the client. An operation takes and returns
-- a `ClientFocus`: the stream, with what it shares, Client.streams and the log. A time is a number,
-- and the clock's is an argument. The variables behind the addresses of the options are the stream's
-- own: that two addresses may be equal is left out.
pub mod Frames
pub mod Run
pub mod Closing
pub mod Calls
pub mod Opening
use nats_grpc.Base.{
  ℕ, String, Bool, true, false, not, Option, none, some, List, [], ◌∷◌, GoMap, insert, delete, ltb,
  ◌==◌, if◌then◌else◌,
}
use nats_grpc.Wire.{Bytes, Request, Call, Error, other, Result, ok, err, Md, status_with}
use nats_grpc.Wire.Code
use nats_grpc.Stats.{Context, RpcStats, Frame, Effect, Log, tag_rpc, handle_rpc}
use nats_grpc.Env.{status_proto, Env}
use nats_grpc.Metadata.{make_metadata}
use nats_grpc.Subjects.{modern_stream_subject}
use nats_grpc.Client.{Client}

pub record ClientStream : Type 0 where
  pub client : Client
  pub method : String
  pub subject : String
  pub reply : String
  pub pnid : String
  pub md : Option Md
  -- what the pointer points to, `none` for a nil pointer
  pub header : Option Md
  pub trailer : Option Md
  pub last_err : Option Error
  -- the error that ReadMsg is about to record
  pub failed : Option Error
  -- ctx.Err()
  pub ctx_err : Option Error
  pub closed : Bool
  pub has_begun : Bool
  -- msgCh, which is closed with the stream, and whether ReadMsg still runs
  pub msgs : List Bytes
  pub reading : Bool
  -- recvWrite is not nil; the channel behind it holds one payload
  pub recv_open : Bool
  pub recv : List Bytes
  -- the payload that ReadMsg waits to send on the full channel
  pub blocked : Option Bytes
  pub last_pong : ℕ
  -- whether pingLoop and pongMonitor run
  pub pinging : Bool
  pub monitoring : Bool
  pub stats_ctx : Context
  pub end_err : Option Error
  -- endOnce has fired
  pub ended : Bool

pub record ClientFocus : Type 0 where
  pub stream : ClientStream
  pub open stream use *
  -- Client.streams: a number stands for the pointer
  pub streams : GoMap ℕ
  pub log : Log

-- newClientStream. `inbox` is the reply subject that NewInBox made; `header` and `trailer` are what
-- the last options of their kind point to. The stream's goroutines run from here on.
abbrev pub new_client_stream :
    Client
    → Context
    → String
    → String
    → String
    → ℕ
    → Option Md
    → Option Md
    → GoMap ℕ
    → Log
    → ClientFocus
new_client_stream c ctx subject method inbox now header trailer streams log =
    let tagged = tag_rpc c.stats_handlers ctx method in
    record {
      stream = record {
        client = c;
        method = method;
        subject = subject;
        reply = inbox;
        pnid = "";
        md = ctx.outgoing;
        header = header;
        trailer = trailer;
        last_err = none;
        failed = none;
        ctx_err = none;
        closed = false;
        has_begun = false;
        msgs = [];
        reading = true;
        recv_open = true;
        recv = [];
        blocked = none;
        last_pong = now;
        pinging = ltb 0 c.ping_interval;
        monitoring = ltb 0 c.ping_interval;
        stats_ctx = tagged;
        end_err = none;
        ended = false;
      };
      streams = streams;
      log = handle_rpc c.stats_handlers tagged RpcStats.begin log;
    }

-- the insertion into Client.streams, where `id` is the new pointer
abbrev pub keep_stream : ℕ → ClientFocus → ClientFocus
keep_stream id f = record f { streams = insert f.reply id f.streams }

-- streamOnSubject, where none of the stream's goroutines takes a step before the insertion.
unfoldable pub stream_on_subject :
    Client
    → Context
    → String
    → String
    → String
    → ℕ
    → ℕ
    → Option Md
    → Option Md
    → GoMap ℕ
    → Log
    → ClientFocus
stream_on_subject c ctx subject method inbox id now header trailer streams log =
    keep_stream id (new_client_stream c ctx subject method inbox now header trailer streams log)

-- the checks of NewStreamWithSvcID, and the subject that it opens the stream on
unfoldable pub stream_subject : String → String → String → Result String
stream_subject svcid target_nid method =
    if svcid == ""
    then err (status_with Code.invalid_argument "svcid is required")
    else (if target_nid == ""
        then err (status_with Code.invalid_argument "targetNid is required for streaming")
        else ok (modern_stream_subject svcid target_nid method))

-- the body that endOnce guards
unfoldable pub report_end : ClientFocus → ClientFocus
report_end f = if f.ended then f else record f {
  stream = record f.stream { ended = true };
  log = handle_rpc f.client.stats_handlers f.stats_ctx (RpcStats.end f.end_err) f.log;
}

-- A cancelled context keeps its first error.
unfoldable pub first_error : Option Error → Error → Error
first_error (some old) e = old
first_error none e = e

-- the part of done that the swap of `closed` guards
unfoldable pub tear_down : ClientFocus → ClientFocus
tear_down f =
    let g = report_end (record f { stream = record f.stream { closed = true } }) in
    record g {
      stream = record g.stream { ctx_err = some (first_error g.ctx_err Error.canceled) };
      streams = delete g.reply g.streams;
      log = Effect.unsubscribed g.reply ∷ g.log;
    }

-- The error of done is only logged or dropped by its callers.
unfoldable pub done : ClientFocus → ClientFocus
done f = if f.closed then f else tear_down f

module _ {M : Type 0} (env : Env M) where
  abbrev pub publish_request_bytes : Request → Bytes → ClientFocus → ClientFocus × Option Error
  publish_request_bytes r b f = elim (env.publish f.log f.subject b) [
    | some e ↦ (f, some e)
    | none ↦
        (record f { log = Effect.published f.subject f.reply (Frame.request r) b ∷ f.log }, none)
  ]

  unfoldable pub write_request : Request → ClientFocus → ClientFocus × Option Error
  write_request r f = elim (env.marshal_request r) [
    | err e ↦ (f, some e)
    | ok b ↦ publish_request_bytes r b f
  ]

  abbrev pub end_request : Option Error → Request
  end_request e = Request.end (record { status = status_proto env e; trailer = none })

  unfoldable pub close_send : ClientFocus → ClientFocus × Option Error
  close_send f = write_request (end_request none) f

  unfoldable pub close : Error → ClientFocus → ClientFocus
  close e f =
      done
        (write_request (end_request (some e))
          (record f { stream = record f.stream { end_err = some e } })).0
