-- ===== src/ServerStream/Handler.antt =====
-- The handler's side of a serverStream: the grpc.ServerStream interface, and what
-- serverUnaryHandler and serverStreamHandler do around the user's code.
use nats_grpc.Base.{
  Bool, ◌&&◌, ◌||◌, Option, none, some, List, [], ◌∷◌, ◌++◌, length, if◌then◌else◌,
}
use nats_grpc.Wire.{
  Bytes, Response, Error, canceled, eof, illegal_header_write, Result, ok, err, Md,
}
use nats_grpc.Stats.{RpcStats, handle_rpc}
use nats_grpc.Env.{Env}
use nats_grpc.ServerStream.{ServerConf, ServerStream, Focus, write_response, begin_maybe, close}

-- A receive from the channel lets a waiting worker send.
unfoldable pub take_recv : List Bytes → ServerStream → ServerStream
take_recv rest s = record s {
  recv = elim s.blocked [ none ↦ rest | some c ↦ rest ++ c ∷ [] ];
  blocked = none;
}

module _ {M : Type 0} (env : Env M) (srv : ServerConf) where
  abbrev join_header : Option Md → Option Md → Option Md
  join_header none md = md
  join_header (some old) none = some old
  join_header (some old) (some md) = some (env.join old md)

  unfoldable pub set_header : Option Md → Focus → Focus × Option Error
  set_header md f =
      if f.has_begun
      then (f, some illegal_header_write)
      else (record f { stream = record f.stream { header = join_header f.header md } }, none)

  unfoldable pub begin_header : Focus × Option Error → Focus × Option Error
  begin_header (f, some e) = (f, some e)
  begin_header (f, none) = begin_maybe env srv f

  unfoldable pub send_header : Option Md → Focus → Focus × Option Error
  send_header md f = begin_header (set_header md f)

  unfoldable pub set_trailer : Option Md → Focus → Focus
  set_trailer md f = record f { stream = record f.stream { trailer = join_header f.trailer md } }

  -- The error of proto.Marshal is bound to a variable of the inner block, so SendMsg returns the
  -- outer, nil one. The error of writeData is dropped.
  unfoldable pub send_payload : M → Result Bytes → Focus → Focus
  send_payload m (err e) f = f
  send_payload m (ok b) f =
      (write_response env (Response.payload b) (record f {
        log = handle_rpc srv.stats_handlers f.stats_ctx (RpcStats.out_payload (length b)) f.log;
      })).0

  -- An error of beginMaybe closes the stream, by the deferred function.
  unfoldable pub send_begun : M → Focus × Option Error → Focus × Option Error
  send_begun m (f, some e) = (close env srv (some e) f, some e)
  send_begun m (f, none) = (send_payload m (env.marshal m) f, none)

  unfoldable pub send_msg : M → Focus → Focus × Option Error
  send_msg m f = send_begun m (begin_maybe env srv f)

  unfoldable pub recv_on : Bool → List Bytes → Focus → Focus × Option (Result M)
  recv_on quit [] f =
      if f.cancelled && (quit || f.recv_open)
      then (f, some (err canceled))
      else if f.recv_open
      then (f, none)
      else (f, some (err eof))
  recv_on quit (b ∷ rest) f =
      if f.cancelled && quit
      then (f, some (err canceled))
      else (record f { stream = take_recv rest f.stream }, some (env.unmarshal b))

  -- The select of RecvMsg: `quit` chooses where both cases are ready, and `none` means that the
  -- handler waits.
  unfoldable pub recv_msg : Bool → Focus → Focus × Option (Result M)
  recv_msg quit f = recv_on quit f.recv f

  -- after SendMsg of the response
  unfoldable pub close_sent : Focus × Option Error → Focus
  close_sent (f, none) = close env srv none f
  close_sent (f, some e) = f

  unfoldable pub respond_unary : Result M → Focus → Focus
  respond_unary (err e) f = close env srv (some e) f
  respond_unary (ok m) f = close_sent (send_msg m f)

  -- serverUnaryHandler, from the return of the user's code
  unfoldable pub return_unary : Result M → Focus → Focus
  return_unary r f = if f.cancelled then f else respond_unary r f

  -- serverStreamHandler, from the return of the interceptor or of the user's code
  unfoldable pub return_stream : Option Error → Focus → Focus
  return_stream e f = if f.cancelled then f else close env srv e f
