-- ===== src/Streaming/Downlink.antt =====
-- The way from SendMsg of the server's handlers to RecvMsg of the client.
use nats_grpc.Base.{
  ℕ, String, ◌≡◌, refl, sym, ap, ◌∙◌, List, [], ◌∷◌, ◌++◌, append_assoc, GoMap, Option,
}
use nats_grpc.Wire.{Bytes, Response, Result, ok, err, Md}
use nats_grpc.Stats.{Context}
use nats_grpc.Env.{Env, ProtoLaws}
use nats_grpc.Client.{Client}
use nats_grpc.ClientStream.{ClientFocus, stream_on_subject}
use nats_grpc.ClientStream.Run.{ClientAction, client_run}
use nats_grpc.ClientStream.Run.Delivery.{arrived_all, received_all, client_run_delivers_in_order}
use nats_grpc.ClientStream.Run.Delivery.Intake.{inbox}
use nats_grpc.ClientStream.Run.Delivery.Rounds.{message_payloads, incoming, expected}
use nats_grpc.ServerStream.{ServerConf, Focus, fresh}
use nats_grpc.ServerStream.Run.{Action, run}
use nats_grpc.Streaming.Wire.{responses, response_data, data_in, data_in-append}
use nats_grpc.Streaming.Replied.{replied_all, run_replies_in_order}

module _ {M : Type 0} (env : Env M) where
  abbrev data_of : List Bytes → List Bytes
  data_of = data_in response_data env.unmarshal_response

  -- what one message adds starts what it adds where nothing ends the stream
  message-data :
      (r : Result Response) (xs c ys : List Bytes)
      → xs ++ c ≡ ys
      → (d : List Bytes) × (message_payloads r xs ++ d ≡ response_data r ++ ys)
  unfolding message_payloads
  message-data (ok (Response.payload p)) xs c ys e = (c, ap (λ l. p ∷ l) e)
  message-data (ok (Response.end x)) xs c ys e = (ys, refl)
  message-data (err x) xs c ys e = (ys, refl)
  message-data (ok Response.unset) xs c ys e = (c, e)
  message-data (ok (Response.begin x)) xs c ys e = (c, e)
  message-data (ok (Response.pong t)) xs c ys e = (c, e)
  message-data (ok (Response.unary u)) xs c ys e = (c, e)

  -- the payloads up to an End start the payloads of all Data frames
  incoming-data : (bs : List Bytes) → (c : List Bytes) × (incoming env bs ++ c ≡ data_of bs)
  unfolding incoming data_in
  incoming-data [] = ([], refl)
  incoming-data (b ∷ bs) =
      let (c, e) = incoming-data bs in
      message-data (env.unmarshal_response b) (incoming env bs) c (data_of bs) e

  regroup : (x y c d z : List Bytes) → x ++ (y ++ (c ++ (d ++ z))) ≡ (((x ++ y) ++ c) ++ d) ++ z
  regroup x y c d z = simp append_assoc

  module _ (c : Client) (ctx : Context) (subject method reply : String) (id now : ℕ)
      (header trailer : Option Md) (srv : ServerConf) (streams : GoMap ℕ) where
    -- the two ends of the stream, as they are made
    abbrev pub client_end : ClientFocus
    client_end = stream_on_subject c ctx subject method reply id now header trailer [] []

    abbrev pub server_end : Focus
    server_end = fresh subject reply streams

    -- A client stream and a server stream, each after any interleaving of its own actions. If the messages
    -- that arrived at the open client stream are the first of the responses that the server stream
    -- published, in their order, the payloads that RecvMsg has taken, followed by those that wait in
    -- the client stream, are the first of the messages that the server's handlers could send, in the
    -- order of the calls.
    pub downlink_in_order :
        ProtoLaws env
        → (actions : List (ClientAction M)) (server_actions : List (Action M)) (lost : List Bytes)
        → arrived_all env actions client_end ++ lost
          ≡ responses (run env srv server_actions server_end).log
        → (rest : List Bytes) × (received_all env actions client_end
              ++ (expected env [] (inbox (client_run env actions client_end)) ++ rest)
            ≡ replied_all env srv server_actions server_end)
    downlink_in_order laws actions server_actions lost carried =
        let (d, e) = incoming-data (arrived_all env actions client_end) in
        let (b, start, _) =
          client_run_delivers_in_order env c ctx subject method reply id now header trailer []
            actions in
        (
          b ++ (d ++ data_of lost),
          regroup _ _ b d (data_of lost)
              ∙ ap (λ l. (l ++ d) ++ data_of lost) start
              ∙ ap (λ l. l ++ data_of lost) e
              ∙ sym (data_in-append response_data env.unmarshal_response _ lost)
              ∙ ap data_of carried
              ∙ run_replies_in_order env srv laws subject reply streams server_actions,
        )
