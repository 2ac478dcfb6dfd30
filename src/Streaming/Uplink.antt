-- ===== src/Streaming/Uplink.antt =====
-- The way from SendMsg of the client to RecvMsg of the server's handlers.
use nats_grpc.Base.{
  ℕ, String, ◌≡◌, refl, sym, ap, ◌∙◌, List, [], ◌∷◌, ◌++◌, append_assoc, GoMap, Option, inl, inr,
  Bool-cases,
}
use nats_grpc.Wire.{Bytes, Request, Result, ok, err, Md}
use nats_grpc.Stats.{Context}
use nats_grpc.Env.{Env, ProtoLaws}
use nats_grpc.Client.{Client}
use nats_grpc.ClientStream.{ClientFocus, stream_on_subject}
use nats_grpc.ClientStream.Run.{ClientAction, client_run}
use nats_grpc.ServerStream.{ServerConf, Focus, fresh}
use nats_grpc.ServerStream.Frames.{is_error}
use nats_grpc.ServerStream.Run.{Action, run}
use nats_grpc.ServerStream.Run.Fifo.{frame_payloads, payloads, coming}
use nats_grpc.ServerStream.Run.Fifo.Mail.{mail}
use nats_grpc.ServerStream.Run.Delivery.{accepted_all, read_all, run_delivers_in_order}
use nats_grpc.Streaming.Wire.{requests, request_data, data_in, data_in-append}
use nats_grpc.Streaming.Sent.{handed_all, client_run_sends_in_order}

module _ {M : Type 0} (env : Env M) where
  abbrev data_of : List Bytes → List Bytes
  data_of = data_in request_data env.unmarshal_request

  -- what one frame adds starts what it adds without half-closes
  frame-data :
      (r : Result Request) (xs c ys : List Bytes)
      → xs ++ c ≡ ys
      → (d : List Bytes) × (frame_payloads r xs ++ d ≡ request_data r ++ ys)
  unfolding frame_payloads
  frame-data (ok (Request.payload p)) xs c ys e = (c, ap (λ l. p ∷ l) e)
  frame-data (ok (Request.end x)) xs c ys e = elim (Bool-cases (is_error x.status)) [
    | inl k ↦ (c, rw k e)
    | inr k ↦ (ys, rw k refl)
  ]
  frame-data (ok Request.unset) xs c ys e = (c, e)
  frame-data (ok (Request.call x)) xs c ys e = (c, e)
  frame-data (ok (Request.ping t)) xs c ys e = (c, e)
  frame-data (ok (Request.unary u)) xs c ys e = (c, e)
  frame-data (err x) xs c ys e = (c, e)

  -- the payloads up to a half-close start the payloads of all Data frames
  payloads-data : (bs : List Bytes) → (c : List Bytes) × (payloads env bs ++ c ≡ data_of bs)
  unfolding payloads data_in
  payloads-data [] = ([], refl)
  payloads-data (b ∷ bs) =
      let (c, e) = payloads-data bs in
      frame-data (env.unmarshal_request b) (payloads env bs) c (data_of bs) e

  regroup : (x y c d : List Bytes) → x ++ (y ++ (c ++ d)) ≡ ((x ++ y) ++ c) ++ d
  regroup x y c d = simp append_assoc

  module _ (c : Client) (ctx : Context) (subject method inbox : String) (id now : ℕ)
      (header trailer : Option Md) (srv : ServerConf) (streams : GoMap ℕ) where
    -- the two ends of the stream, as they are made
    abbrev pub client_end : ClientFocus
    client_end = stream_on_subject c ctx subject method inbox id now header trailer [] []

    abbrev pub server_end : Focus
    server_end = fresh subject inbox streams

    -- A client stream and a server stream, each after any interleaving of its own actions. If the frames
    -- that the server stream took in are the first of the requests that the client stream published, in
    -- their order, the payloads that the server's handlers have read, followed by those that wait in
    -- the server stream, are the first of the messages of the SendMsg calls that returned no error,
    -- in the order of the calls.
    pub uplink_in_order :
        ProtoLaws env
        → (actions : List (ClientAction M)) (server_actions : List (Action M)) (lost : List Bytes)
        → accepted_all env srv server_actions server_end ++ lost
          ≡ requests (client_run env actions client_end).log
        → (rest : List Bytes) × (read_all env srv server_actions server_end
              ++ (coming env [] (mail (run env srv server_actions server_end)) ++ rest)
            ≡ handed_all env actions client_end)
    uplink_in_order laws actions server_actions lost carried =
        let (d, e) = payloads-data (accepted_all env srv server_actions server_end) in
        (
          d ++ data_of lost,
          regroup _ _ d (data_of lost)
              ∙ ap (λ l. (l ++ d) ++ data_of lost)
                  (run_delivers_in_order env srv subject inbox streams server_actions)
              ∙ ap (λ l. l ++ data_of lost) e
              ∙ sym (data_in-append request_data env.unmarshal_request _ lost)
              ∙ ap data_of carried
              ∙ client_run_sends_in_order env laws c ctx subject method inbox id now header trailer
                  [] actions,
        )
