-- ===== src/Sidecar/Worker.antt =====
-- Streams from NATS to the upstream, pkg/sidecar/ingress.go: onStreamFrame, ensureStreamWorker, the
-- worker's run with its goroutine, and the publishers. Operations act on the worker with what it
-- shares: its registration, Sidecar.streams and the log.
pub mod Run
use nats_grpc.Base.{
  ℕ, suc, String, Bool, true, false, not, ◌&&◌, ◌||◌, Option, none, some, List, [], ◌∷◌, ◌++◌, ◌==◌,
  nat_eq, ltb, length, any, GoMap, lookup, insert, delete, if◌then◌else◌,
}
use nats_grpc.Wire.{
  Bytes, Status, Metadata, Call, Request, Response, Error, Result, ok, err, Md, Msg,
}
use nats_grpc.Wire.Code
use nats_grpc.Stats.{Frame, Effect, Log}
use nats_grpc.Env.{Env}
use nats_grpc.Pump.{is_eof, normalize_eof}
use nats_grpc.Sidecar.Ingress.{
  Registration, add_stream, remove_stream, nrpc_metadata_to_grpc, plain_status,
}

-- What the worker does to its upstream stream; the errors of these calls are dropped.
pub data UpstreamCall : Type 0 where
  send_frame : Bytes → UpstreamCall
  close_send : UpstreamCall

pub record Worker : Type 0 where
  pub reply : String
  pub method : String
  -- the channel of 64 frames, and the frame that onStreamFrame waits to put into it
  pub frames : List Bytes
  pub waiting : Option Bytes
  -- its own cancel function was called
  pub cancelled : Bool
  -- run is in its loop; it has seen End and waits for the upstream
  pub running : Bool
  pub draining : Bool
  -- the goroutine that reads the upstream, and the error that it left in upDone
  pub pumping : Bool
  pub up_done : Option Error
  pub to_upstream : List UpstreamCall

pub record WorkerFocus : Type 0 where
  pub worker : Worker
  pub open worker use *
  pub id : ℕ
  pub reg : Registration
  pub streams : GoMap ℕ
  pub log : Log

-- whether the worker's context is done
abbrev pub is_done : WorkerFocus → Bool
is_done f = f.cancelled || any (nat_eq f.id) f.reg.cancelled

unfoldable pub new_worker : String → String → Worker
new_worker reply method = record {
  reply = reply;
  method = method;
  frames = [];
  waiting = none;
  cancelled = false;
  running = true;
  draining = false;
  pumping = true;
  up_done = none;
  to_upstream = [];
}

-- What ensureStreamWorker makes of the first frame: nothing, an End for the caller, or a stream.
pub data First : Type 0 where
  dropped : First
  unopened : Error → First
  opened : String → First

-- The case that run's select takes.
pub data Ready : Type 0 where
  context frame upstream : Ready

-- One registration with the sidecar's streams; an entry of `streams` is a number in `workers`.
pub record Ingress : Type 0 where
  pub reg : Registration
  pub streams : GoMap ℕ
  pub workers : ℕ → Worker
  pub next : ℕ
  pub log : Log

abbrev pub focus : ℕ → Ingress → WorkerFocus
focus id n = record {
  worker = n.workers id;
  id = id;
  reg = n.reg;
  streams = n.streams;
  log = n.log;
}

abbrev pub unfocus : WorkerFocus → Ingress → Ingress
unfocus f n = record n {
  reg = f.reg;
  streams = f.streams;
  workers = λ k. if nat_eq k f.id then f.worker else n.workers k;
  log = f.log;
}

module _ {M : Type 0} (env : Env M) (nid : String) where
  -- an error of Marshal or of Publish is dropped
  unfoldable pub publish_to : String → Response → Log → Log
  publish_to reply r log = elim (env.marshal_response r) [
    | err e ↦ log
    | ok b ↦ elim (env.publish log reply b) [
      | some e ↦ log
      | none ↦ Effect.published reply "" (Frame.response r) b ∷ log
    ]
  ]

  abbrev pub begin_frame : Response
  begin_frame = Response.begin (record { header = none; nid = nid })

  abbrev pub end_frame : Option Error → Response
  end_frame none = Response.end (record { status = some (plain_status Code.ok ""); trailer = none })
  end_frame (some e) = Response.end (record { status = some (env.convert e); trailer = none })

  unfoldable pub publish_begin : String → Log → Log
  publish_begin reply log = publish_to reply begin_frame log

  unfoldable pub publish_data : String → Bytes → Log → Log
  publish_data reply b log = publish_to reply (Response.payload b) log

  unfoldable pub publish_pong : String → ℕ → Log → Log
  publish_pong reply timestamp log = publish_to reply (Response.pong timestamp) log

  unfoldable pub publish_stream_end : String → Option Error → Log → Log
  publish_stream_end reply e log = publish_to reply (end_frame e) log

  -- `new_stream` is the error of reg.conn.NewStream for the outgoing metadata and the method
  unfoldable pub open_upstream : (Md → String → Option Error) → Call → First
  open_upstream new_stream c =
      if c.method == ""
      then dropped
      else elim (new_stream (nrpc_metadata_to_grpc c.metadata) c.method) [
        | some e ↦ unopened e
        | none ↦ opened c.method
      ]

  unfoldable pub first_frame : (Md → String → Option Error) → Result Request → First
  first_frame new_stream (ok (Request.call c)) = open_upstream new_stream c
  first_frame new_stream _ = dropped

  -- the rest of ensureStreamWorker, up to `go w.run()`
  unfoldable pub start_worker : String → String → ℕ → Registration → GoMap ℕ → Log → WorkerFocus
  start_worker reply method id reg streams log = record {
    worker = new_worker reply method;
    id = id;
    reg = add_stream reply id reg;
    streams = insert reply id streams;
    log = publish_begin reply log;
  }

  -- the select of onStreamFrame: a full channel makes the callback wait
  unfoldable pub offer_frame : Bytes → Worker → Worker
  offer_frame b w =
      if ltb (length w.frames) 64
      then record w { frames = w.frames ++ b ∷ [] }
      else record w { waiting = some b }

  unfoldable pub deliver_on : Option Bytes → Bytes → WorkerFocus → WorkerFocus
  deliver_on (some busy) b f = f
  deliver_on none b f = record f { worker = offer_frame b f.worker }

  -- a frame that reaches a worker that is there; while the callback waits no other frame comes
  unfoldable pub deliver : Bytes → WorkerFocus → WorkerFocus
  deliver b f = deliver_on f.waiting b f

  -- a callback that waits gets through, or gives up where the context is done
  unfoldable pub unwait : Bool → Option Bytes → WorkerFocus → WorkerFocus
  unwait quit none f = f
  unwait quit (some b) f =
      if is_done f && (quit || not (ltb (length f.frames) 64))
      then record f { worker = record f.worker { waiting = none } }
      else (if ltb (length f.frames) 64
          then record f { worker = record f.worker { frames = f.frames ++ b ∷ []; waiting = none } }
          else f)

  -- the deferred function of run
  unfoldable pub finish : WorkerFocus → WorkerFocus
  finish f = record f {
    worker = record f.worker { running = false; cancelled = true };
    reg = remove_stream f.reply f.reg;
    streams = delete f.reply f.streams;
  }

  -- the error in upDone is relayed, and run returns
  unfoldable pub relay_end : Option Error → WorkerFocus → WorkerFocus
  relay_end none f = f
  relay_end (some e) f = finish (record f {
    worker = record f.worker { up_done = none };
    log = publish_stream_end f.reply (normalize_eof e) f.log;
  })

  abbrev pub call_upstream : UpstreamCall → Bool → WorkerFocus → WorkerFocus
  call_upstream c drain f = record f {
    worker = record f.worker { to_upstream = f.to_upstream ++ c ∷ []; draining = drain };
  }

  unfoldable pub on_frame : Result Request → WorkerFocus → WorkerFocus
  on_frame (ok (Request.payload b)) f = call_upstream (send_frame b) f.draining f
  on_frame (ok (Request.end e)) f = call_upstream close_send true f
  on_frame (ok (Request.ping t)) f = record f { log = publish_pong f.reply t f.log }
  on_frame _ f = f

  unfoldable pub take_frame : List Bytes → WorkerFocus → WorkerFocus
  take_frame [] f = f
  take_frame (b ∷ bs) f =
      on_frame (env.unmarshal_request b) (record f { worker = record f.worker { frames = bs } })

  -- One round of run. After End it waits for the upstream only.
  unfoldable pub round : Ready → WorkerFocus → WorkerFocus
  round context f = if is_done f && not f.draining then finish f else f
  round frame f = if f.draining then f else take_frame f.frames f
  round upstream f = relay_end f.up_done f

  unfoldable pub run_round : Ready → WorkerFocus → WorkerFocus
  run_round r f = if f.running then round r f else f

  -- what the goroutine does with a result of the upstream's RecvMsg
  unfoldable pub pump_result : Result Bytes → WorkerFocus → WorkerFocus
  pump_result (ok b) f = record f { log = publish_data f.reply b f.log }
  pump_result (err e) f = record f {
    worker = record f.worker { pumping = false; up_done = some e };
  }

  unfoldable pub pump_round : Result Bytes → WorkerFocus → WorkerFocus
  pump_round r f = if f.pumping then pump_result r f else f

  -- the worker in Sidecar.streams; without one the frame is dropped
  unfoldable pub to_worker : Option ℕ → Bytes → Ingress → Ingress
  to_worker none b n = n
  to_worker (some id) b n = unfocus (deliver b (focus id n)) n

  unfoldable pub on_first : First → Msg → Ingress → Ingress
  on_first dropped msg n = n
  on_first (unopened e) msg n = record n { log = publish_stream_end msg.reply (some e) n.log }
  on_first (opened method) msg n =
      record (unfocus
        (deliver msg.payload (start_worker msg.reply method n.next n.reg n.streams n.log)) n) {
          next = suc n.next;
        }

  unfoldable pub ensure_and_deliver :
      (Md → String → Option Error) → Option ℕ → Msg → Ingress → Ingress
  ensure_and_deliver new_stream (some id) msg n =
      to_worker (lookup msg.reply n.streams) msg.payload n
  ensure_and_deliver new_stream none msg n =
      on_first (first_frame new_stream (env.unmarshal_request msg.payload)) msg n

  unfoldable pub on_stream_frame : (Md → String → Option Error) → Msg → Ingress → Ingress
  on_stream_frame new_stream msg n =
      if msg.reply == "" || n.reg.torndown
      then n
      else ensure_and_deliver new_stream (lookup msg.reply n.reg.stream_ctxs) msg n
