-- ===== src/Server/Dispatch.antt =====
-- What onMessage makes of frames for a stream that the server does not know.
use nats_grpc.Base.{
  ℕ, ◌≡◌, refl, sym, subst, inl, inr, Bool, true, false, not, ◌&&◌, ◌||◌, Option, none, some, List,
  [], ◌∷◌, arith, All, All-append, length, ltb, GoMap, lookup, insert, lookup-insert_self, nat_eq,
  if_keeps,
}
use nats_grpc.Wire.{Bytes, Msg, Request, Response, Result, ok, err, Status}
use nats_grpc.Env.{Env}
use nats_grpc.ServerStream.{
  HandlerFunc, ServerConf, Focus, new_server_stream, stats_begin, write_response,
  write_response-cases,
}
use nats_grpc.ServerStream.Frames.{
  enqueue, send_recv, is_error, process_data, end_status, process_end, process_ping, on_request,
  read_frame, work_on, work,
}
use nats_grpc.ServerStream.Run.{Action, finish_handler, while_running, step, run}
use nats_grpc.Server.{
  Node, conf, focus, new_stream, enqueue_at, to_stream, dispatch, on_decoded, on_message,
}

-- A frame that neither starts a call nor cancels one: Data, a half-close, Ping, a unary request,
-- or bytes that cannot be decoded.
abbrev pub IsLate : Result Request → Type 0
IsLate (ok (Request.call c)) = ⊥
IsLate (ok (Request.end e)) = is_error e.status ≡ false
IsLate _ = Unit

-- An action that brings no other frame, and does not stop the server or close the stream.
abbrev pub LateAction : {M : Type 0} → Env M → Action M → Type 0
LateAction env (Action.deliver drop b) = IsLate (env.unmarshal_request b)
LateAction env Action.stop = ⊥
LateAction env Action.disconnect = ⊥
LateAction env _ = Unit

module _ {M : Type 0} (env : Env M) (srv : ServerConf) (table : GoMap ℕ) where
  -- A stream with no handler, whose entry stays: its fields cancelled and running, the table of
  -- streams, and its inbox.
  pub record Orphan (cancelled : Bool) (running : List HandlerFunc) (streams : GoMap ℕ)
      (inbox : List Bytes) : Type 0 where
    pub live : cancelled ≡ false
    pub idle : running ≡ []
    pub listed : streams ≡ table
    pub late : All (λ b. IsLate (env.unmarshal_request b)) inbox

  abbrev pub IsOrphan : Focus → Type 0
  IsOrphan f = Orphan f.cancelled f.running f.streams f.inbox

  stats_begin-IsOrphan : (f : Focus) → IsOrphan f → IsOrphan (stats_begin srv f)
  unfolding stats_begin
  stats_begin-IsOrphan f v = if_keeps IsOrphan f.stats_begun _ _ v v

  process_data-IsOrphan : (b : Bytes) (f : Focus) → IsOrphan f → IsOrphan (process_data env srv b f)
  unfolding process_data send_recv
  process_data-IsOrphan b f v =
      let w = stats_begin-IsOrphan f v in if_keeps IsOrphan f.recv_open _ _ w v

  write_response-IsOrphan :
      (r : Response) (f : Focus) → IsOrphan f → IsOrphan (write_response env r f).0
  unfolding write_response
  write_response-IsOrphan r f v = elim (write_response-cases env r f) [
    | inl e ↦ subst IsOrphan (sym e) v
    | inr (b, e) ↦ subst IsOrphan (sym e) v
  ]

  end_status-IsOrphan :
      (o : Option Status) (f : Focus)
      → is_error o ≡ false
      → IsOrphan f
      → IsOrphan (end_status env srv o f)
  unfolding end_status
  end_status-IsOrphan none f h v = v
  end_status-IsOrphan (some x) f h v = rw h v

  read_frame-IsOrphan :
      (r : Result Request) (f : Focus) → IsLate r → IsOrphan f → IsOrphan (read_frame env srv r f)
  unfolding read_frame on_request process_end process_ping
  read_frame-IsOrphan (err e) f h v = v
  read_frame-IsOrphan (ok (Request.call c)) f h v = absurd h
  read_frame-IsOrphan (ok (Request.payload b)) f h v = process_data-IsOrphan b f v
  read_frame-IsOrphan (ok (Request.end e)) f h v = end_status-IsOrphan e.status f h v
  read_frame-IsOrphan (ok (Request.ping t)) f h v = write_response-IsOrphan (Response.pong t) f v
  read_frame-IsOrphan (ok Request.unset) f h v = v
  read_frame-IsOrphan (ok (Request.unary u)) f h v = v

  work_on-IsOrphan :
      (quit : Bool) (o : Option Bytes) (bs : List Bytes) (f : Focus)
      → bs ≡ f.inbox
      → IsOrphan f
      → IsOrphan (work_on env srv quit o bs f)
  unfolding work_on
  work_on-IsOrphan quit (some b) bs f e v = v
  work_on-IsOrphan quit none [] f e v = v
  work_on-IsOrphan quit none (b ∷ bs) f e v =
      let late = subst (All (λ b. IsLate (env.unmarshal_request b))) (sym e) v.late in
      if_keeps IsOrphan (not f.working) _ _ v (
        if_keeps IsOrphan (f.cancelled && quit) _ _ v (
          read_frame-IsOrphan (env.unmarshal_request b) _ late.0
            (record { live = v.live; idle = v.idle; listed = v.listed; late = late.1 })))

  enqueue-IsOrphan :
      (drop : Bool) (b : Bytes) (f : Focus)
      → IsLate (env.unmarshal_request b)
      → IsOrphan f
      → IsOrphan (enqueue drop b f)
  unfolding enqueue
  enqueue-IsOrphan drop b f h v =
      if_keeps IsOrphan (f.cancelled && (drop || not (ltb (length f.inbox) 8192))) _ _ v (record {
        live = v.live;
        idle = v.idle;
        listed = v.listed;
        late = All-append _ f.inbox (b ∷ []) v.late (h, tt);
      })

  finish-IsOrphan :
      (r : Result M) (hs : List HandlerFunc) (f : Focus)
      → hs ≡ []
      → IsOrphan f
      → IsOrphan (finish_handler env srv r hs f)
  unfolding finish_handler
  finish-IsOrphan r [] f e v = v
  finish-IsOrphan r (h ∷ hs) f e v = absurd (cc)

  while_running-IsOrphan :
      (a : Action M) (hs : List HandlerFunc) (f : Focus)
      → hs ≡ []
      → IsOrphan f
      → IsOrphan (while_running env srv a hs f)
  unfolding while_running
  while_running-IsOrphan a [] f e v = v
  while_running-IsOrphan a (h ∷ hs) f e v = absurd (cc)

  step-IsOrphan :
      (a : Action M) (f : Focus) → LateAction env a → IsOrphan f → IsOrphan (step env srv a f)
  unfolding step work
  step-IsOrphan (Action.deliver drop b) f h v = enqueue-IsOrphan drop b f h v
  step-IsOrphan (Action.work quit) f h v = work_on-IsOrphan quit f.blocked f.inbox f refl v
  step-IsOrphan (Action.finish r) f h v = finish-IsOrphan r f.running f v.idle v
  step-IsOrphan Action.stop f h v = absurd h
  step-IsOrphan Action.disconnect f h v = absurd h
  step-IsOrphan a f h v = while_running-IsOrphan a f.running f v.idle v

  run-IsOrphan :
      (actions : List (Action M)) (f : Focus)
      → All (LateAction env) actions
      → IsOrphan f
      → IsOrphan (run env srv actions f)
  unfolding run
  run-IsOrphan [] f h v = v
  run-IsOrphan (a ∷ more) f (h, hs) v = run-IsOrphan more _ hs (step-IsOrphan a f h v)

-- A unary request that no registered method handles; any other request.
abbrev pub IsUnhandled : Result Request → Msg → Node → Type 0
IsUnhandled (ok (Request.unary u)) msg n = lookup msg.subject n.unary_handlers ≡ none
IsUnhandled _ msg n = Unit

on_decoded-late :
    (drop : Bool) (r : Result Request) (msg : Msg) (n : Node)
    → IsUnhandled r msg n
    → lookup msg.reply n.streams ≡ none
    → on_decoded drop r msg n ≡ enqueue_at drop msg n.next (new_stream msg n)
unfolding on_decoded dispatch to_stream
on_decoded-late drop (ok (Request.unary u)) msg n h e = rw (h, dispatch, e, to_stream)
on_decoded-late drop (ok (Request.call c)) msg n h e = rw (e, to_stream)
on_decoded-late drop (ok (Request.payload b)) msg n h e = rw (e, to_stream)
on_decoded-late drop (ok (Request.end x)) msg n h e = rw (e, to_stream)
on_decoded-late drop (ok (Request.ping t)) msg n h e = rw (e, to_stream)
on_decoded-late drop (ok Request.unset) msg n h e = rw (e, to_stream)
on_decoded-late drop (err x) msg n h e = rw (e, to_stream)

nat_eq_self : (k : ℕ) → nat_eq k k ≡ true
nat_eq_self k = ground arith

-- The stream that onMessage makes for a message, before its frame is enqueued.
abbrev opened : Msg → Node → Focus
opened msg n = record {
  stream = new_server_stream msg.subject msg.reply;
  streams = insert msg.reply n.next n.streams;
  log = n.log;
}

focus-enqueue_at :
    (drop : Bool) (msg : Msg) (n : Node)
    → focus n.next (enqueue_at drop msg n.next (new_stream msg n))
      ≡ enqueue drop msg.payload (opened msg n)
unfolding enqueue_at new_stream
focus-enqueue_at drop msg n = rw (nat_eq_self n.next)

module _ {M : Type 0} (env : Env M) where
  -- A late frame under a reply subject that Server.streams does not hold makes a stream. However its
  -- worker and any further late frames run on, no handler ever serves that stream, its context is
  -- not cancelled, and its entry stays in Server.streams.
  pub late_frame_leaks :
      (drop : Bool) (msg : Msg) (n : Node) (actions : List (Action M))
      → lookup msg.reply n.streams ≡ none
      → IsLate (env.unmarshal_request msg.payload)
      → IsUnhandled (env.unmarshal_request msg.payload) msg n
      → All (LateAction env) actions
      → let m = on_message env drop msg n in
        let f = run env (conf m.server) actions (focus n.next m) in
        (lookup msg.reply f.streams ≡ some n.next) × (f.running ≡ []) × (f.cancelled ≡ false)
  unfolding on_message enqueue_at new_stream new_server_stream
  late_frame_leaks drop msg n actions e late un h =
      (rw last.listed (lookup-insert_self msg.reply n.next n.streams), last.idle, last.live)
    where
      Orphaned : Node → Focus → Type 0
      Orphaned m f = IsOrphan env (conf m.server) (insert msg.reply n.next n.streams) f

      made : IsOrphan env (conf n.server) (insert msg.reply n.next n.streams) (opened msg n)
      made = record { live = refl; idle = refl; listed = refl; late = tt }

      last : Orphaned (on_message env drop msg n) (
          run env
            (conf (on_message env drop msg n).server)
            actions
            (focus n.next (on_message env drop msg n)))
      last =
          subst (λ m. Orphaned m (run env (conf m.server) actions (focus n.next m)))
            (sym (on_decoded-late drop (env.unmarshal_request msg.payload) msg n un e))
            (run-IsOrphan env (conf n.server) _ actions _ h (
              subst (IsOrphan env (conf n.server) _) (sym (focus-enqueue_at drop msg n))
                (enqueue-IsOrphan env (conf n.server) _ drop msg.payload (opened msg n) late made)))
