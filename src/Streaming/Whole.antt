-- ===== src/Streaming/Whole.antt =====
-- A streaming RPC over a connection that loses nothing, in both directions at once.
use nats_grpc.Base.{
  ℕ, String, ◌≡◌, refl, sym, ap, ◌∙◌, Bool, true, false, not, List, [], ◌∷◌, ◌++◌, append-nil,
  GoMap, Option, inl, inr, Bool-cases,
}
use nats_grpc.Wire.{Bytes, Request, Response, Result, ok, err, Md}
use nats_grpc.Stats.{Context}
use nats_grpc.Env.{Env, ProtoLaws}
use nats_grpc.Client.{Client}
use nats_grpc.ClientStream.{ClientFocus, stream_on_subject}
use nats_grpc.ClientStream.Run.{ClientAction, client_run}
use nats_grpc.ClientStream.Run.Delivery.{arrived_all, received_all, client_run_delivers_in_order}
use nats_grpc.ClientStream.Run.Delivery.Intake.{inbox}
use nats_grpc.ClientStream.Run.Delivery.Rounds.{message_payloads, incoming, expected}
use nats_grpc.ServerStream.{ServerConf, Focus, fresh}
use nats_grpc.ServerStream.Frames.{is_error}
use nats_grpc.ServerStream.Run.{Action, run}
use nats_grpc.ServerStream.Run.Fifo.{frame_payloads, payloads, coming}
use nats_grpc.ServerStream.Run.Fifo.Mail.{mail}
use nats_grpc.ServerStream.Run.Delivery.{accepted_all, read_all, run_delivers_in_order}
use nats_grpc.Streaming.Wire.{requests, responses, request_data, response_data, data_in}
use nats_grpc.Streaming.Sent.{handed_all, client_run_sends_in_order}
use nats_grpc.Streaming.Replied.{replied_all, run_replies_in_order}

-- the requests after which the server takes no payload, and the responses after which the client
-- takes none
abbrev pub half_closes : Result Request → Bool
half_closes (ok (Request.end e)) = not (is_error e.status)
half_closes _ = false

abbrev pub stops_reading : Result Response → Bool
stops_reading (ok (Response.end e)) = true
stops_reading (err e) = true
stops_reading _ = false

-- No payload comes after a frame that ends the stream.
module _ {R : Type 0} (data_of : R → List Bytes) (ends : R → Bool) (decode : Bytes → R) where
  abbrev pub EndsLast : List Bytes → Type 0
  EndsLast [] = Unit
  EndsLast (b ∷ bs) = (ends (decode b) ≡ true → data_in data_of decode bs ≡ []) × EndsLast bs

module _ {M : Type 0} (env : Env M) where
  frame-whole :
      (r : Result Request) (xs ys : List Bytes)
      → (half_closes r ≡ true → ys ≡ [])
      → xs ≡ ys
      → frame_payloads r xs ≡ request_data r ++ ys
  unfolding frame_payloads
  frame-whole (ok (Request.payload p)) xs ys h e = ap (λ l. p ∷ l) e
  frame-whole (ok (Request.end x)) xs ys h e = elim (Bool-cases (is_error x.status)) [
    | inl k ↦ rw k e
    | inr k ↦ rw k (sym (h (ap not k)))
  ]
  frame-whole (ok Request.unset) xs ys h e = e
  frame-whole (ok (Request.call x)) xs ys h e = e
  frame-whole (ok (Request.ping t)) xs ys h e = e
  frame-whole (ok (Request.unary u)) xs ys h e = e
  frame-whole (err x) xs ys h e = e

  payloads-whole :
      (bs : List Bytes)
      → EndsLast request_data half_closes env.unmarshal_request bs
      → payloads env bs ≡ data_in request_data env.unmarshal_request bs
  unfolding payloads data_in
  payloads-whole [] h = refl
  payloads-whole (b ∷ bs) h = frame-whole (env.unmarshal_request b) _ _ h.0 (payloads-whole bs h.1)

  message-whole :
      (r : Result Response) (xs ys : List Bytes)
      → (stops_reading r ≡ true → ys ≡ [])
      → xs ≡ ys
      → message_payloads r xs ≡ response_data r ++ ys
  unfolding message_payloads
  message-whole (ok (Response.payload p)) xs ys h e = ap (λ l. p ∷ l) e
  message-whole (ok (Response.end x)) xs ys h e = sym (h refl)
  message-whole (err x) xs ys h e = sym (h refl)
  message-whole (ok Response.unset) xs ys h e = e
  message-whole (ok (Response.begin x)) xs ys h e = e
  message-whole (ok (Response.pong t)) xs ys h e = e
  message-whole (ok (Response.unary u)) xs ys h e = e

  incoming-whole :
      (bs : List Bytes)
      → EndsLast response_data stops_reading env.unmarshal_response bs
      → incoming env bs ≡ data_in response_data env.unmarshal_response bs
  unfolding incoming data_in
  incoming-whole [] h = refl
  incoming-whole (b ∷ bs) h =
      message-whole (env.unmarshal_response b) _ _ h.0 (incoming-whole bs h.1)

  module _ (c : Client) (ctx : Context) (subject method reply : String) (id now : ℕ)
      (header trailer : Option Md) (srv : ServerConf) (streams : GoMap ℕ) where
    abbrev pub caller : ClientFocus
    caller = stream_on_subject c ctx subject method reply id now header trailer [] []

    abbrev pub callee : Focus
    callee = fresh subject reply streams

    -- A client stream and a server stream, each after any interleaving of its own actions, where each
    -- takes in all that the other has published, in its order, no payload is published after a
    -- half-close or an End, and the client's ReadMsg has not stopped. What the server's handlers have
    -- read, followed by what waits in the server stream, are all messages of the SendMsg calls that
    -- returned no error; and what RecvMsg has taken, followed by what waits in the client stream,
    -- are all messages that the handlers could send: each in the order of the calls.
    pub exchange_is_whole :
        ProtoLaws env
        → (actions : List (ClientAction M)) (server_actions : List (Action M))
        → accepted_all env srv server_actions callee ≡ requests (client_run env actions caller).log
        → arrived_all env actions caller ≡ responses (run env srv server_actions callee).log
        → EndsLast request_data half_closes env.unmarshal_request
            (accepted_all env srv server_actions callee)
        → EndsLast response_data stops_reading env.unmarshal_response
            (arrived_all env actions caller)
        → (client_run env actions caller).reading ≡ true
        → (read_all env srv server_actions callee
              ++ coming env [] (mail (run env srv server_actions callee))
            ≡ handed_all env actions caller)
          × (received_all env actions caller
                ++ expected env [] (inbox (client_run env actions caller))
              ≡ replied_all env srv server_actions callee)
    exchange_is_whole laws actions server_actions up down closes ends reading =
        let (b, start, all) =
          client_run_delivers_in_order env c ctx subject method reply id now header trailer []
            actions in
        (
          run_delivers_in_order env srv subject reply streams server_actions
              ∙ payloads-whole _ closes
              ∙ ap (data_in request_data env.unmarshal_request) up
              ∙ client_run_sends_in_order env laws c ctx subject method reply id now header trailer
                  [] actions,
          sym (append-nil _)
              ∙ ap
                  (λ l.
                    (received_all env actions caller
                      ++ expected env [] (inbox (client_run env actions caller)))
                    ++ l)
                  (sym (all reading))
              ∙ start
              ∙ incoming-whole _ ends
              ∙ ap (data_in response_data env.unmarshal_response) down
              ∙ run_replies_in_order env srv laws subject reply streams server_actions,
        )
