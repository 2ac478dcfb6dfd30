-- ===== src/Tests/UnaryRuns.antt =====
-- Metadata and unary calls at concrete inputs.
use nats_grpc.Base.{ℕ, ◌+◌, ◌≡◌, refl, arith, eq_iff, none, some, [], ◌∷◌}
use nats_grpc.Wire.{Error, status_error, Result, ok, err}
use nats_grpc.Stats.{Context, Log, handle_rpc, tag_rpc, RpcStats}
use nats_grpc.Stats.Counts.{is_begin, is_end, seen, registered}
use nats_grpc.Metadata.{make_metadata, read_optional, read_optional-make_metadata, values}
use nats_grpc.ServerStream.{Impl, background}
use nats_grpc.Client.{message, unary_request, invoke_on_subject}
use nats_grpc.Client.Events.{invoke_events}
use nats_grpc.Client.EndToEnd.{call, link, invoke_returns_response, invoke_returns_error}
use nats_grpc.Tests.Samples.{
  unary_env, unary_env-StatusLaws, unary_env-ProtoLaws, sample_impl, stats, plain,
}

-- metadata

read_optional-make_metadata_example :
    values "k" (read_optional (make_metadata (some (("j", "a" ∷ []) ∷ ("k", "b" ∷ "c" ∷ []) ∷ []))))
    ≡ values "k" (some (("j", "a" ∷ []) ∷ ("k", "b" ∷ "c" ∷ []) ∷ []))
read_optional-make_metadata_example =
    read_optional-make_metadata "k" (some (("j", "a" ∷ []) ∷ ("k", "b" ∷ "c" ∷ []) ∷ []))
      (((λ e. ground (arith, eq_iff "k" "j")), tt), (tt, tt))

-- unary calls: the handler answers the arguments plus one, or an error

abbrev ctx : Context
ctx = record background { values = ("user", "u") ∷ [] }

abbrev succ_of : Result ℕ → Result ℕ
succ_of (ok n) = ok (1 + n)
succ_of (err e) = err e

abbrev succ_handler : Impl → Context → Result ℕ → Result ℕ
succ_handler i c r = succ_of r

abbrev not_found : Error
not_found = status_error (plain 5)

abbrev failing_handler : Impl → Context → Result ℕ → Result ℕ
failing_handler i c r = err not_found

invoke_events_example :
    let o =
      invoke_on_subject unary_env
        (link unary_env stats succ_handler sample_impl)
        stats
        ctx
        "s"
        "/S/M"
        (message 4)
        (message 0)
        []
        []
        [] in
    (seen "otel" is_begin o.log ≡ registered "otel" stats + seen "otel" is_begin [])
    × (seen "otel" is_end o.log ≡ registered "otel" stats + seen "otel" is_end [])
    × ((before : Log) × (o.log
          ≡ handle_rpc stats (tag_rpc stats ctx "/S/M") (RpcStats.end o.error) before))
invoke_events_example =
    invoke_events unary_env (link unary_env stats succ_handler sample_impl) stats ctx "s" "/S/M"
      (message 4) (message 0) [] [] [] "otel"

encoded_request :
    (c : Context)
    → c.outgoing ≡ none
    → unary_env.marshal_request (unary_request unary_env stats c "/S/M" (4 ∷ [])) ≡ ok (4 ∷ [])
unfolding make_metadata
encoded_request c e = rw e refl

no_metadata : (tag_rpc stats ctx "/S/M").outgoing ≡ none
unfolding tag_rpc
no_metadata = refl

invoke_returns_response_example :
    let o =
      call unary_env unary_env-StatusLaws unary_env-ProtoLaws stats stats succ_handler sample_impl
        ctx "s" "/S/M" 4 0 [] [] []
        (4 ∷ [])
        (4 ∷ []) in
    (o.error ≡ none) × (o.reply ≡ message 5)
invoke_returns_response_example =
    invoke_returns_response unary_env unary_env-StatusLaws unary_env-ProtoLaws stats stats
      succ_handler sample_impl ctx "s" "/S/M" 4 0 [] [] [] (4 ∷ []) (4 ∷ []) 5 (5 ∷ []) (0 ∷ 5 ∷ [])
      refl (encoded_request (tag_rpc stats ctx "/S/M") no_metadata) refl refl refl

invoke_returns_error_example :
    let o =
      call unary_env unary_env-StatusLaws unary_env-ProtoLaws stats stats failing_handler
        sample_impl ctx "s" "/S/M" 4 0 [] [] []
        (4 ∷ [])
        (4 ∷ []) in
    (o.error ≡ some not_found) × (o.reply ≡ message 0)
invoke_returns_error_example =
    invoke_returns_error unary_env unary_env-StatusLaws unary_env-ProtoLaws stats stats
      failing_handler sample_impl ctx "s" "/S/M" 4 0 [] [] [] (4 ∷ []) (4 ∷ []) not_found (5 ∷ [])
      refl (encoded_request (tag_rpc stats ctx "/S/M") no_metadata) refl (λ e. omega (arith, e))
      refl
