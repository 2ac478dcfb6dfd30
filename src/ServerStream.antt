-- ===== src/ServerStream.antt =====
-- serverStream of pkg/rpc/server.go: one streaming RPC on the server. An operation takes and returns
-- a `Focus`: the stream, with what it shares with the server, Server.streams and the log.
-- Times are left out of the stats events, and log messages of the logger are not modelled.
pub mod Frames
pub mod Handler
pub mod Run
use Prim.Native.Char.{code}
use nats_grpc.Base.{
  ℕ, zero, suc, String, Bool, true, false, Option, Option-cases, ◌≡◌, ◌⊎◌, inl, inr, none, some,
  List, [], ◌∷◌, GoMap, delete, nat_eq, if◌then◌else◌,
}
use nats_grpc.Wire.{
  Bytes, Begin, End, Request, Response, Status, Metadata, Error, status_error, illegal_header_write,
  Result, ok, err, Result-cases, Md,
}
use nats_grpc.Stats.{Context, RpcStats, StatsHandler, Frame, Effect, Log, tag_rpc, handle_rpc}
use nats_grpc.Env.{status_proto, Env}
use nats_grpc.Metadata.{make_metadata}

-- The user's code for a method of a registered service.
pub record Impl : Type 0 where
  pub service : String
  pub method : String

-- What serverUnaryHandler and serverStreamHandler make of it.
pub data HandlerFunc : Type 0 where
  unary_func stream_func : Impl → HandlerFunc

-- The fields of Server that a stream reads.
pub record ServerConf : Type 0 where
  pub nid : String
  pub handlers : GoMap HandlerFunc
  pub stats_handlers : List StatsHandler

pub record ServerStream : Type 0 where
  -- the NATS subject, and the gRPC path
  pub method : String
  pub full_method : String
  pub reply : String
  pub pnid : String
  -- ctx is cancelled
  pub cancelled : Bool
  pub has_begun : Bool
  pub md : Option Md
  pub header : Option Md
  pub trailer : Option Md
  -- recvWrite is not nil; the channel behind it holds one payload
  pub recv_open : Bool
  pub recv : List Bytes
  -- the payload that the worker waits to send on the full channel
  pub blocked : Option Bytes
  -- the frames that the worker has not taken, and whether the worker still runs
  pub inbox : List Bytes
  pub working : Bool
  pub stats_ctx : Context
  -- beginOnce has fired (statsBegun is set with it); endOnce has fired
  pub stats_begun : Bool
  pub ended : Bool
  pub end_err : Option Error
  -- the handler goroutines in flight
  pub running : List HandlerFunc

pub record Focus : Type 0 where
  pub stream : ServerStream
  pub open stream use *
  -- Server.streams: a number stands for the pointer
  pub streams : GoMap ℕ
  pub log : Log

abbrev pub background : Context
background = record { incoming = none; outgoing = none; values = [] }

-- newServerStream, on a server that has not been stopped: its context is not cancelled.
unfoldable pub new_server_stream : String → String → ServerStream
new_server_stream method reply = record {
  method = method;
  full_method = method;
  reply = reply;
  pnid = "";
  cancelled = false;
  has_begun = false;
  md = none;
  header = none;
  trailer = none;
  recv_open = true;
  recv = [];
  blocked = none;
  inbox = [];
  working = true;
  stats_ctx = background;
  stats_begun = false;
  ended = false;
  end_err = none;
  running = [];
}

-- The focus on a stream that onMessage has just made.
abbrev pub fresh : String → String → GoMap ℕ → Focus
fresh method reply streams = record {
  stream = new_server_stream method reply;
  streams = streams;
  log = [];
}

abbrev pub set_begun : Focus → Focus
set_begun f = record f { stream = record f.stream { has_begun = true } }

-- Begin is sent also where no header was set: it carries the nid.
abbrev pub begin_response : ServerConf → Focus → Response
begin_response srv f = Response.begin (record { header = make_metadata f.header; nid = srv.nid })

abbrev pub end_response : Option Status → Option Metadata → Response
end_response st trailer = Response.end (record { status = st; trailer = trailer })

-- metadata.NewIncomingContext(s.ctx, s.md), where there is metadata
abbrev pub incoming_context : Option Md → Context
incoming_context none = background
incoming_context (some md) = record background { incoming = some md }

-- beginOnce guards the whole body
unfoldable pub stats_begin : ServerConf → Focus → Focus
stats_begin srv f =
    let ctx = tag_rpc srv.stats_handlers (incoming_context f.md) f.full_method in
    if f.stats_begun then f else record f {
      stream = record f.stream { stats_ctx = ctx; stats_begun = true };
      log = handle_rpc srv.stats_handlers ctx RpcStats.begin f.log;
    }

-- the body that endOnce guards
unfoldable pub end_once : ServerConf → Option Error → Focus → Focus
end_once srv e f = record f {
  stream = record f.stream { ended = true; end_err = e };
  log =
      if f.stats_begun
      then handle_rpc srv.stats_handlers f.stats_ctx (RpcStats.end e) f.log
      else f.log;
}

unfoldable pub finalize : ServerConf → Option Error → Focus → Focus
finalize srv e f =
    let g = if f.ended then f else end_once srv e f in
    record g { stream = record g.stream { cancelled = true }; streams = delete g.reply g.streams }

-- done()
unfoldable pub done : ServerConf → Focus → Focus
done srv f = finalize srv f.end_err f

module _ {M : Type 0} (env : Env M) where
  abbrev pub publish_bytes : Response → Bytes → Focus → Focus × Option Error
  publish_bytes r b f = elim (env.publish f.log f.reply b) [
    | some e ↦ (f, some e)
    | none ↦ (record f { log = Effect.published f.reply "" (Frame.response r) b ∷ f.log }, none)
  ]

  unfoldable pub write_response : Response → Focus → Focus × Option Error
  write_response r f = elim (env.marshal_response r) [
    | err e ↦ (f, some e)
    | ok b ↦ publish_bytes r b f
  ]

  publish_bytes-cases :
      (r : Response) (b : Bytes) (f : Focus)
      → ((publish_bytes r b f).0 ≡ f)
        ⊎ ((publish_bytes r b f).0
            ≡ record f { log = Effect.published f.reply "" (Frame.response r) b ∷ f.log })
  publish_bytes-cases r b f = elim (Option-cases (env.publish f.log f.reply b)) [
    | inl e ↦ inr (rw (e, publish_bytes))
    | inr (x, e) ↦ inl (rw (e, publish_bytes))
  ]

  -- A response is published and logged, or nothing changes.
  pub write_response-cases :
      (r : Response) (f : Focus)
      → ((write_response r f).0 ≡ f)
        ⊎ ((b : Bytes) × ((write_response r f).0
              ≡ record f { log = Effect.published f.reply "" (Frame.response r) b ∷ f.log }))
  unfolding write_response
  write_response-cases r f = elim (Result-cases (env.marshal_response r)) [
    | inl (x, e) ↦ inl (rw (e, write_response))
    | inr (b, e) ↦ elim (publish_bytes-cases r b f) [
      | inl same ↦ inl (rw (e, write_response) same)
      | inr sent ↦ inr (b, rw (e, write_response) sent)
    ]
  ]

  -- It has no mutex in the code; here no other handler of the stream runs between its test of hasBegun
  -- and the assignment.
  unfoldable pub begin_maybe : ServerConf → Focus → Focus × Option Error
  begin_maybe srv f =
      if f.has_begun then (f, none) else write_response (begin_response srv f) (set_begun f)

  unfoldable pub write_end : Option Error → Focus → Focus × Option Error
  write_end e f = write_response (end_response (status_proto env e) (make_metadata f.trailer)) f

  -- The errors of beginMaybe and writeEnd are dropped.
  unfoldable pub close : ServerConf → Option Error → Focus → Focus
  close srv e f = finalize srv e (write_end e (begin_maybe srv f).0).0
