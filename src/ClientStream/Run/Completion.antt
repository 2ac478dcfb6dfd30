-- ===== src/ClientStream/Run/Completion.antt =====
-- What RecvMsg can return once the server's End has been handled.
use nats_grpc.Base.{
  ◌≡◌, refl, ap, ◌∙◌, true, false, Option, none, some, List, [], ◌∷◌, arith, if_false, sym, subst,
  ◌&&◌,
}
use nats_grpc.Wire.{Bytes, End, Status, Error, eof, Result, err, status_with}
use nats_grpc.Wire.Code
use nats_grpc.Env.{Env}
use nats_grpc.Client.{Body, read_body}
use nats_grpc.ServerStream.Frames.{is_error}
use nats_grpc.ClientStream.{ClientFocus, report_end, first_error, tear_down, done}
use nats_grpc.ClientStream.Frames.{
  is_empty, done_error, end_status, process_end, join_end, recv_on, recv_live, recv_msg,
}

module _ {M : Type 0} (env : Env M) where
  -- the payload that waits in the channel, or io.EOF
  abbrev pub first_answer : Body M → List Bytes → Result (Body M)
  first_answer old [] = err eof
  first_answer old (b ∷ bs) = read_body env old b

  -- the fields that RecvMsg reads
  record Ended (bs : List Bytes) (f : ClientFocus) : Type 0 where
    waiting : f.recv ≡ bs
    shut : f.recv_open ≡ false
    cancelled : f.ctx_err ≡ some Error.canceled
    unfailed : f.last_err ≡ none

  done-Ended :
      (f : ClientFocus)
      → f.closed ≡ false
      → f.ctx_err ≡ none
      → f.last_err ≡ none
      → Ended f.recv (done (record f { stream = record f.stream { recv_open = false } }))
  unfolding done tear_down report_end first_error
  done-Ended f o c l = record {
    waiting = ground (arith, o);
    shut = ground (arith, o);
    cancelled =
        ap (λ (g : ClientFocus). g.ctx_err) (if_false _ _ f.closed o)
        ∙ ap (λ e. some (first_error e Error.canceled)) (kept ∙ c);
    unfailed = ground (arith, o, l);
  }
    where
      kept :
          (report_end
            (record f { stream = record f.stream { recv_open = false; closed = true } })).ctx_err
          ≡ f.ctx_err
      kept = ground arith

  canceled_answer : Option (Result (Body M))
  canceled_answer = some (err (status_with Code.canceled "context canceled"))

  recv_on-Ended :
      (old : Body M) (bs : List Bytes) (f : ClientFocus)
      → f.recv_open ≡ false
      → (recv_on env old bs f).1 ≡ some (first_answer old bs)
  unfolding recv_on
  recv_on-Ended old [] f e = if_false _ _ f.recv_open e
  recv_on-Ended old (b ∷ bs) f e = refl

  recv_quit-Ended :
      (old : Body M) (bs : List Bytes) (f : ClientFocus)
      → Ended bs f
      → (recv_msg env true old f).1 ≡ canceled_answer
  unfolding recv_msg recv_live done_error canceled_answer
  recv_quit-Ended old bs f v =
      subst (λ o. (recv_live env true old o f).1 ≡ canceled_answer) (sym v.cancelled)
        (subst (λ l. some (err (done_error env l Error.canceled)) ≡ canceled_answer)
          (sym v.unfailed) refl)

  recv_stay-Ended :
      (old : Body M) (bs : List Bytes) (f : ClientFocus)
      → Ended bs f
      → (recv_msg env false old f).1 ≡ some (first_answer old bs)
  unfolding recv_msg recv_live
  recv_stay-Ended old bs f v =
      subst (λ o. (recv_live env false old o f).1 ≡ some (first_answer old bs)) (sym v.cancelled)
        (ap (λ (r : ClientFocus × Option (Result (Body M))). r.1)
            (if_false _ _ (f.recv_open && is_empty f.recv) (rw v.shut refl))
          ∙ ap (λ l. (recv_on env old l f).1) v.waiting
          ∙ recv_on-Ended old bs f v.shut)

  -- Once the server's End with an OK status has been handled on an open stream, RecvMsg has both
  -- cases of its select ready: it returns the payload that waits in the channel, or io.EOF where there
  -- is none, or else the status Canceled.
  pub recv_after_end :
      (old : Body M) (e : End) (f : ClientFocus)
      → is_error e.status ≡ false
      → f.closed ≡ false
      → f.ctx_err ≡ none
      → f.last_err ≡ none
      → let g = (process_end env e f).0 in
        ((recv_msg env false old g).1 ≡ some (first_answer old f.recv))
        × ((recv_msg env true old g).1 ≡ some (err (status_with Code.canceled "context canceled")))
  unfolding process_end canceled_answer
  recv_after_end old e f ok o c l =
      (recv_stay-Ended old f.recv _ last, recv_quit-Ended old f.recv _ last)
    where
      ended :
          (s : Option Status) (g : ClientFocus)
          → is_error s ≡ false
          → g.closed ≡ false
          → g.ctx_err ≡ none
          → g.last_err ≡ none
          → Ended g.recv (end_status env s g).0
      ended none g k o c l = unfold end_status in done-Ended g o c l
      ended (some s) g k o c l =
          unfold end_status in
          subst (λ (r : ClientFocus × Option Error). Ended g.recv r.0)
            (sym (if_false _ _ (is_error (some s)) k)) (done-Ended g o c l)

      last : Ended f.recv (process_end env e f).0
      last =
          ended e.status
            (record f { stream = record f.stream { trailer = join_end env f.trailer e.trailer } })
            ok o c l
