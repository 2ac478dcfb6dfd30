-- ===== src/Streaming/Sent/Quiet.antt =====
-- The operations of a client stream that publish no request.
use nats_grpc.Base.{
  ℕ, Bool, ◌&&◌, ◌||◌, ◌≡◌, refl, ◌∙◌, Option, none, some, List, [], ◌∷◌, if_keeps,
}
use nats_grpc.Wire.{Bytes, Status, Response, Error, Result, ok, err}
use nats_grpc.Env.{Env}
use nats_grpc.Client.{Body}
use nats_grpc.ServerStream.Frames.{is_error}
use nats_grpc.ClientStream.{ClientFocus, report_end, tear_down, done}
use nats_grpc.ClientStream.Frames.{
  is_empty, process_begin, process_data, end_status, process_end, process_pong, on_response_frame,
  on_message, stop_reading, read_on, read_live, read_msg, set_last_err, recv_on, recv_live,
}
use nats_grpc.ClientStream.Run.{watch_on}
use nats_grpc.Streaming.Wire.{requests, requests-handle_rpc}

-- a log that grew by no request
abbrev pub Quiet : ClientFocus → ClientFocus → Type 0
Quiet f g = requests g.log ≡ requests f.log

module _ {M : Type 0} (env : Env M) where
  report_end-Quiet : (f : ClientFocus) → Quiet f (report_end f)
  unfolding report_end
  report_end-Quiet f =
      if_keeps (Quiet f) f.ended _ _ refl
        (requests-handle_rpc f.client.stats_handlers f.stats_ctx _ f.log)

  pub done-Quiet : (f : ClientFocus) → Quiet f (done f)
  unfolding done tear_down requests
  done-Quiet f = if_keeps (Quiet f) f.closed _ _ refl (report_end-Quiet _)

  end_status-Quiet : (s : Option Status) (f : ClientFocus) → Quiet f (end_status env s f).0
  unfolding end_status
  end_status-Quiet none f = done-Quiet _
  end_status-Quiet (some s) f =
      if_keeps (λ (r : ClientFocus × Option Error). Quiet f r.0) (is_error (some s)) _ _
        (done-Quiet _) (done-Quiet _)

  on_message-Quiet :
      (now : ℕ) (r : Result Response) (f : ClientFocus) → Quiet f (on_message env now r f).0
  unfolding on_message on_response_frame process_begin process_data process_end process_pong
  on_message-Quiet now (err e) f = refl
  on_message-Quiet now (ok (Response.payload b)) f =
      if_keeps (Quiet f) f.recv_open _ _
        (requests-handle_rpc f.client.stats_handlers f.stats_ctx _ f.log) refl
  on_message-Quiet now (ok (Response.end e)) f = end_status-Quiet e.status _
  on_message-Quiet now (ok Response.unset) f = refl
  on_message-Quiet now (ok (Response.begin b)) f = refl
  on_message-Quiet now (ok (Response.pong t)) f = refl
  on_message-Quiet now (ok (Response.unary u)) f = refl

  stop_reading-Quiet : (r : ClientFocus × Option Error) → Quiet r.0 (stop_reading env r)
  unfolding stop_reading
  stop_reading-Quiet (f, none) = refl
  stop_reading-Quiet (f, some e) = refl

  read_on-Quiet : (now : ℕ) (bs : List Bytes) (f : ClientFocus) → Quiet f (read_on env now bs f)
  unfolding read_on
  read_on-Quiet now [] f = refl
  read_on-Quiet now (b ∷ more) f =
      if_keeps (Quiet f) f.reading _ _
        (stop_reading-Quiet (on_message env now (env.unmarshal_response b) _)
          ∙ on_message-Quiet now (env.unmarshal_response b) _)
        refl

  read_live-Quiet :
      (quit : Bool) (now : ℕ) (e : Option Error) (f : ClientFocus)
      → Quiet f (read_live env quit now e f)
  unfolding read_live
  read_live-Quiet quit now none f = read_on-Quiet now f.msgs f
  read_live-Quiet quit now (some e) f =
      if_keeps (Quiet f) (quit || is_empty f.msgs) _ _ refl (read_on-Quiet now f.msgs f)

  pub read_msg-Quiet :
      (quit : Bool) (now : ℕ) (w : Option Bytes) (f : ClientFocus)
      → Quiet f (read_msg env quit now w f)
  unfolding read_msg
  read_msg-Quiet quit now (some b) f = refl
  read_msg-Quiet quit now none f = read_live-Quiet quit now f.ctx_err f

  pub set_last_err-Quiet : (o e : Option Error) (f : ClientFocus) → Quiet f (set_last_err env o e f)
  unfolding set_last_err
  set_last_err-Quiet none e f = refl
  set_last_err-Quiet (some x) e f = refl

  recv_on-Quiet :
      (old : Body M) (bs : List Bytes) (f : ClientFocus) → Quiet f (recv_on env old bs f).0
  unfolding recv_on
  recv_on-Quiet old [] f = refl
  recv_on-Quiet old (b ∷ bs) f = refl

  pub recv_live-Quiet :
      (quit : Bool) (old : Body M) (e : Option Error) (f : ClientFocus)
      → Quiet f (recv_live env quit old e f).0
  unfolding recv_live
  recv_live-Quiet quit old none f = recv_on-Quiet old f.recv f
  recv_live-Quiet quit old (some e) f =
      if_keeps (λ (r : ClientFocus × Option (Result (Body M))). Quiet f r.0)
        (quit || (f.recv_open && is_empty f.recv)) _ _ refl (recv_on-Quiet old f.recv f)

  pub watch_on-Quiet : (e : Option Error) (f : ClientFocus) → Quiet f (watch_on e f)
  unfolding watch_on
  watch_on-Quiet none f = refl
  watch_on-Quiet (some e) f = done-Quiet f
