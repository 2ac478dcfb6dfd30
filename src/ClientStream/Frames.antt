-- ===== src/ClientStream/Frames.antt =====
-- ReadMsg of a clientStream with the frame handlers, SendMsg and RecvMsg, and the heartbeat.
use nats_grpc.Base.{
  ℕ, ◌-◌, Bool, true, false, not, ◌&&◌, ◌||◌, Option, none, some, List, [], ◌∷◌, ◌++◌, length, ltb,
  if◌then◌else◌,
}
use nats_grpc.Wire.{
  Bytes, Status, Metadata, Begin, End, Request, Response, Error, deadline_exceeded, eof, other,
  Result, ok, err, Md, status_with,
}
use nats_grpc.Wire.Code
use nats_grpc.Stats.{RpcStats, handle_rpc}
use nats_grpc.Env.{Env}
use nats_grpc.Metadata.{make_metadata, append_all}
use nats_grpc.Client.{Body, body_bytes, read_body}
use nats_grpc.ServerStream.Frames.{is_error}
use nats_grpc.ClientStream.{ClientStream, ClientFocus, done, write_request, close}

-- the send on recvWrite: on a full channel ReadMsg waits
unfoldable pub send_recv : Bytes → ClientStream → ClientStream
send_recv b s = record s {
  recv = elim s.recv [ [] ↦ b ∷ [] | c ∷ cs ↦ s.recv ];
  blocked = elim s.recv [ [] ↦ s.blocked | c ∷ cs ↦ some b ];
}

abbrev pub is_empty : List Bytes → Bool
is_empty [] = true
is_empty (b ∷ bs) = false

-- A receive from the channel lets a waiting ReadMsg send.
unfoldable pub take_recv : List Bytes → ClientStream → ClientStream
take_recv rest s = record s {
  recv = elim s.blocked [ none ↦ rest | some c ↦ rest ++ c ∷ [] ];
  blocked = none;
}

abbrev pub heartbeat_error : Error
heartbeat_error = status_with Code.unavailable "server heartbeat timeout"

module _ {M : Type 0} (env : Env M) where
  -- a nil header is allocated first
  unfoldable pub join_begin : Option Md → Option Metadata → Option Md
  join_begin old none = old
  join_begin none (some m) = some (append_all env [] m.md)
  join_begin (some md) (some m) = some (append_all env md m.md)

  -- a nil trailer stays nil
  unfoldable pub join_end : Option Md → Option Metadata → Option Md
  join_end (some md) (some m) = some (append_all env md m.md)
  join_end old _ = old

  unfoldable pub process_begin : Begin → ClientFocus → ClientFocus
  process_begin b f = record f {
    stream = record f.stream { header = join_begin f.header b.header; pnid = b.nid };
  }

  unfoldable pub process_data : Bytes → ClientFocus → ClientFocus
  process_data b f =
      if f.recv_open
      then record f {
        stream = send_recv b f.stream;
        log = handle_rpc f.client.stats_handlers f.stats_ctx (RpcStats.in_payload (length b)) f.log;
      }
      else f

  -- a status other than OK ends the stream with an error, OK and nil without
  unfoldable pub end_status : Option Status → ClientFocus → ClientFocus × Option Error
  end_status none f = (done (record f { stream = record f.stream { recv_open = false } }), none)
  end_status (some s) f =
      if is_error (some s)
      then (
        done (record f { stream = record f.stream { end_err = env.error_proto s } }),
        some (status_with s.code s.message),
      )
      else (done (record f { stream = record f.stream { recv_open = false } }), none)

  unfoldable pub process_end : End → ClientFocus → ClientFocus × Option Error
  process_end e f =
      end_status e.status
        (record f { stream = record f.stream { trailer = join_end f.trailer e.trailer } })

  unfoldable pub process_pong : ℕ → ClientFocus → ClientFocus
  process_pong now f = record f { stream = record f.stream { last_pong = now } }

  unfoldable pub on_response_frame : ℕ → Response → ClientFocus → ClientFocus × Option Error
  on_response_frame now (Response.begin b) f = (process_begin b f, none)
  on_response_frame now (Response.payload b) f = (process_data b f, none)
  on_response_frame now (Response.end e) f = process_end e f
  on_response_frame now (Response.pong t) f = (process_pong now f, none)
  on_response_frame now Response.unset f = (f, none)
  on_response_frame now (Response.unary u) f = (f, none)

  unfoldable pub on_message : ℕ → Result Response → ClientFocus → ClientFocus × Option Error
  on_message now (err e) f = (f, some e)
  on_message now (ok r) f = on_response_frame now r f

  -- an error of onMessage ends the loop of ReadMsg, which then records it
  unfoldable pub stop_reading : ClientFocus × Option Error → ClientFocus
  stop_reading (f, none) = f
  stop_reading (f, some e) = record f {
    stream = record f.stream { failed = some e; reading = false };
  }

  unfoldable pub read_on : ℕ → List Bytes → ClientFocus → ClientFocus
  read_on now [] f = record f { stream = record f.stream { reading = f.reading && not f.closed } }
  read_on now (b ∷ more) f =
      if f.reading
      then stop_reading (
          on_message now (env.unmarshal_response b)
            (record f { stream = record f.stream { msgs = more } }))
      else f

  -- One round of ReadMsg. With a cancelled context and a message `quit` chooses.
  unfoldable pub read_live : Bool → ℕ → Option Error → ClientFocus → ClientFocus
  read_live quit now none f = read_on now f.msgs f
  read_live quit now (some e) f =
      if quit || is_empty f.msgs
      then record f { stream = record f.stream { reading = false } }
      else read_on now f.msgs f

  -- A ReadMsg that waits to send makes no round.
  unfoldable pub read_msg : Bool → ℕ → Option Bytes → ClientFocus → ClientFocus
  read_msg quit now (some b) f = f
  read_msg quit now none f = read_live quit now f.ctx_err f

  -- the setLastErr after the loop: the first error stays
  unfoldable pub set_last_err : Option Error → Option Error → ClientFocus → ClientFocus
  set_last_err none e f = record f { stream = record f.stream { last_err = e; failed = none } }
  set_last_err (some old) e f = record f { stream = record f.stream { failed = none } }

  -- the Call that goes before the first message; its error is dropped
  unfoldable pub call_maybe : ClientFocus → ClientFocus
  call_maybe f =
      if f.has_begun
      then f
      else (write_request env
          (Request.call
            (record { method = f.method; metadata = make_metadata f.md; nid = f.client.nid }))
          (record f { stream = record f.stream { has_begun = true } })).0

  unfoldable pub send_data : Result Bytes → ClientFocus → ClientFocus × Option Error
  send_data (err e) f = (f, some e)
  send_data (ok b) f = write_request env (Request.payload b) (record f {
    log = handle_rpc f.client.stats_handlers f.stats_ctx (RpcStats.out_payload (length b)) f.log;
  })

  unfoldable pub send_msg : Body M → ClientFocus → ClientFocus × Option Error
  send_msg m f =
      if f.closed
      then (f, some (other "client streaming closed=true"))
      else send_data (body_bytes env m) (call_maybe f)

  -- what RecvMsg returns for a context that is done
  unfoldable pub done_error : Option Error → Error → Error
  done_error (some last) e = last
  done_error none deadline_exceeded = status_with Code.deadline_exceeded "deadline exceeded"
  done_error none e = status_with Code.canceled "context canceled"

  unfoldable pub recv_on :
      Body M → List Bytes → ClientFocus → ClientFocus × Option (Result (Body M))
  recv_on old [] f = (f, if f.recv_open then none else some (err eof))
  recv_on old (b ∷ rest) f =
      (record f { stream = take_recv rest f.stream }, some (read_body env old b))

  -- The select of RecvMsg: `quit` chooses where both cases are ready, and `none` means that the
  -- caller waits.
  unfoldable pub recv_live :
      Bool → Body M → Option Error → ClientFocus → ClientFocus × Option (Result (Body M))
  recv_live quit old none f = recv_on old f.recv f
  recv_live quit old (some e) f =
      if quit || (f.recv_open && is_empty f.recv)
      then (f, some (err (done_error f.last_err e)))
      else recv_on old f.recv f

  unfoldable pub recv_msg : Bool → Body M → ClientFocus → ClientFocus × Option (Result (Body M))
  recv_msg quit old f = recv_live quit old f.ctx_err f

  -- one tick of pingLoop; the error of writePing is only logged
  unfoldable pub ping_tick : ℕ → ClientFocus → ClientFocus
  ping_tick now f =
      if f.closed
      then record f { stream = record f.stream { pinging = false } }
      else (write_request env (Request.ping now) f).0

  -- one tick of pongMonitor
  unfoldable pub monitor_tick : ℕ → ClientFocus → ClientFocus
  monitor_tick now f =
      if ltb f.client.pong_timeout (now - f.last_pong)
      then close env heartbeat_error (record f { stream = record f.stream { monitoring = false } })
      else f
