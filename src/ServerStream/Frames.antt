-- ===== src/ServerStream/Frames.antt =====
-- The worker of a serverStream: enqueue, runInbox, onRequest and the process functions.
use Prim.Native.Char.{code}
use Prim.Native.String as NativeString
use nats_grpc.Base.{
  ℕ, String, Bool, false, ◌&&◌, ◌||◌, not, Option, none, some, List, [], ◌∷◌, ◌++◌, lookup, nat_eq,
  ltb, length, if◌then◌else◌,
}
use nats_grpc.Wire.{Bytes, Call, End, Status, Request, Response, Result, ok, err, Md, status_with}
use nats_grpc.Wire.Code
use nats_grpc.Stats.{RpcStats, handle_rpc}
use nats_grpc.Env.{Env}
use nats_grpc.Metadata.{read_optional}
use nats_grpc.ServerStream.{
  HandlerFunc, ServerConf, ServerStream, Focus, stats_begin, finalize, write_response, close,
}

-- `method != "" && method[0] == '/'`
abbrev pub has_slash : String → Bool
has_slash NativeString.[] = false
has_slash (NativeString.◌∷◌ c s) = nat_eq (code c) b'/'

-- The select of enqueue, over a channel of 8192 frames; `drop` chooses where both cases are ready. On a
-- live stream with a full channel the code waits for the worker; here the frame is in the queue at
-- once, behind all the others, which is also where it comes after the wait.
unfoldable pub enqueue : Bool → Bytes → Focus → Focus
enqueue drop b f =
    if f.cancelled && (drop || not (ltb (length f.inbox) 8192))
    then f
    else record f { stream = record f.stream { inbox = f.inbox ++ b ∷ [] } }

-- the send on recvWrite, a channel of one payload: on a full one the worker waits
unfoldable pub send_recv : Bytes → ServerStream → ServerStream
send_recv b s = record s {
  recv = elim s.recv [ [] ↦ b ∷ [] | c ∷ cs ↦ s.recv ];
  blocked = elim s.recv [ [] ↦ s.blocked | c ∷ cs ↦ some b ];
}

unfoldable pub is_error : Option Status → Bool
is_error none = false
is_error (some s) = not (nat_eq s.code Code.ok)

module _ {M : Type 0} (env : Env M) (srv : ServerConf) where
  -- `s.md` after a Call
  abbrev pub join_md : Option Md → Option Md → Option Md
  join_md md none = md
  join_md none (some new) = some new
  join_md (some md) (some new) = some (env.join md new)

  abbrev full_method_of : Call → ServerStream → String
  full_method_of c s = if has_slash c.method then c.method else s.full_method

  -- a Call for a registered method
  unfoldable pub start_call : Call → HandlerFunc → Focus → Focus
  start_call c h f =
      let s = record f.stream { md = join_md f.md (read_optional c.metadata); pnid = c.nid } in
      let g = stats_begin srv (record f { stream = s }) in
      record g { stream = record g.stream { running = h ∷ g.running } }

  unfoldable pub call_handler : Option HandlerFunc → Call → Focus → Focus
  call_handler (some h) c f = start_call c h f
  call_handler none c f =
      close env srv (some (status_with Code.unimplemented (env.code_text Code.unimplemented))) f

  unfoldable pub process_call : Call → Focus → Focus
  process_call c f =
      call_handler (lookup f.method srv.handlers) c
        (record f { stream = record f.stream { full_method = full_method_of c f.stream } })

  abbrev in_payload : Bytes → Focus → Focus
  in_payload b f = record f {
    log = handle_rpc srv.stats_handlers f.stats_ctx (RpcStats.in_payload (length b)) f.log;
  }

  unfoldable pub process_data : Bytes → Focus → Focus
  process_data b f =
      let g = in_payload b (stats_begin srv f) in
      if f.recv_open then record g { stream = send_recv b g.stream } else f

  -- a status other than OK is a cancellation, OK and nil are a half-close
  unfoldable pub end_status : Option Status → Focus → Focus
  end_status none f = record f { stream = record f.stream { recv_open = false } }
  end_status (some s) f =
      if is_error (some s)
      then finalize srv (env.error_proto s) f
      else record f { stream = record f.stream { recv_open = false } }

  unfoldable pub process_end : End → Focus → Focus
  process_end e f = end_status e.status f

  unfoldable pub process_ping : ℕ → Focus → Focus
  process_ping timestamp f = (write_response env (Response.pong timestamp) f).0

  unfoldable pub on_request : Request → Focus → Focus
  on_request (Request.call c) f = process_call c f
  on_request (Request.payload b) f = process_data b f
  on_request (Request.end e) f = process_end e f
  on_request (Request.ping timestamp) f = process_ping timestamp f
  on_request Request.unset f = f
  on_request (Request.unary u) f = f

  -- a frame that cannot be decoded is dropped
  unfoldable pub read_frame : Result Request → Focus → Focus
  read_frame (err e) f = f
  read_frame (ok r) f = on_request r f

  unfoldable pub work_on : Bool → Option Bytes → List Bytes → Focus → Focus
  work_on quit (some b) bs f = f
  work_on quit none [] f = record f {
    stream = record f.stream { working = f.working && not f.cancelled };
  }
  work_on quit none (b ∷ bs) f =
      if not f.working
      then f
      else if f.cancelled && quit
      then record f { stream = record f.stream { working = false } }
      else read_frame (env.unmarshal_request b)
          (record f { stream = record f.stream { inbox = bs } })

  -- One round of runInbox. `quit` chooses where the stream is cancelled and a frame is ready. A
  -- worker that waits to send makes no round.
  unfoldable pub work : Bool → Focus → Focus
  work quit f = work_on quit f.blocked f.inbox f
