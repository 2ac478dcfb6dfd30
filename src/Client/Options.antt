-- ===== src/Client/Options.antt =====
-- NewClientWithOptions of pkg/rpc/client.go and its options. An interceptor is not kept.
use nats_grpc.Base.{
  ℕ, ◌*◌, String, ◌≡◌, refl, sym, ap, ◌∙◌, ltb, Option, List, [], ◌∷◌, ◌++◌, append_assoc,
  append-nil, GoMap,
}
use nats_grpc.Wire.{Md}
use nats_grpc.Stats.{Context, StatsHandler, Log}
use nats_grpc.Client.{Client}
use nats_grpc.ClientStream.{stream_on_subject}

pub data ClientOption : Type 0 where
  with_interceptor : ClientOption
  with_heartbeat : ℕ → ℕ → ClientOption
  with_stats_handler : StatsHandler → ClientOption

abbrev pub without_heartbeat : ClientOption
without_heartbeat = with_heartbeat 0 0

-- in nanoseconds
abbrev pub second : ℕ
second = 1000000000

unfoldable pub apply_option : ClientOption → Client → Client
apply_option with_interceptor c = c
apply_option (with_heartbeat i t) c = record c { ping_interval = i; pong_timeout = t }
apply_option (with_stats_handler h) c = record c { stats_handlers = c.stats_handlers ++ h ∷ [] }

unfoldable pub apply_options : List ClientOption → Client → Client
apply_options [] c = c
apply_options (o ∷ opts) c = apply_options opts (apply_option o c)

unfoldable pub new_client : String → String → List ClientOption → Client
new_client svcid nid opts = apply_options opts (record {
  svcid = svcid;
  nid = nid;
  ping_interval = 5 * second;
  pong_timeout = 15 * second;
  stats_handlers = [];
})

-- the interval and the timeout that the last heartbeat option sets, or the given ones
abbrev pub last_heartbeat : ℕ × ℕ → List ClientOption → ℕ × ℕ
last_heartbeat d [] = d
last_heartbeat d (with_heartbeat i t ∷ opts) = last_heartbeat (i, t) opts
last_heartbeat d (_ ∷ opts) = last_heartbeat d opts

abbrev pub handlers_of : List ClientOption → List StatsHandler
handlers_of [] = []
handlers_of (with_stats_handler h ∷ opts) = h ∷ handlers_of opts
handlers_of (_ ∷ opts) = handlers_of opts

apply_options-interval :
    (opts : List ClientOption) (c : Client)
    → (apply_options opts c).ping_interval
      ≡ (last_heartbeat (c.ping_interval, c.pong_timeout) opts).0
unfolding apply_options apply_option
apply_options-interval [] c = refl
apply_options-interval (with_interceptor ∷ opts) c = apply_options-interval opts c
apply_options-interval (with_heartbeat i t ∷ opts) c = apply_options-interval opts _
apply_options-interval (with_stats_handler h ∷ opts) c = apply_options-interval opts _

apply_options-timeout :
    (opts : List ClientOption) (c : Client)
    → (apply_options opts c).pong_timeout
      ≡ (last_heartbeat (c.ping_interval, c.pong_timeout) opts).1
unfolding apply_options apply_option
apply_options-timeout [] c = refl
apply_options-timeout (with_interceptor ∷ opts) c = apply_options-timeout opts c
apply_options-timeout (with_heartbeat i t ∷ opts) c = apply_options-timeout opts _
apply_options-timeout (with_stats_handler h ∷ opts) c = apply_options-timeout opts _

apply_options-handlers :
    (opts : List ClientOption) (c : Client)
    → (apply_options opts c).stats_handlers ≡ c.stats_handlers ++ handlers_of opts
unfolding apply_options apply_option
apply_options-handlers [] c = sym (append-nil c.stats_handlers)
apply_options-handlers (with_interceptor ∷ opts) c = apply_options-handlers opts c
apply_options-handlers (with_heartbeat i t ∷ opts) c = apply_options-handlers opts _
apply_options-handlers (with_stats_handler h ∷ opts) c =
    apply_options-handlers opts _ ∙ append_assoc c.stats_handlers (h ∷ []) (handlers_of opts)

-- A client made with options has their stats handlers, in the order of the options, and the interval
-- and the timeout of the last heartbeat option, or 5 s and 15 s. A stream of the client runs the
-- heartbeat exactly if that interval is positive.
pub new_client-options :
    (svcid nid : String) (opts : List ClientOption) (ctx : Context) (subject method inbox : String)
    (id now : ℕ) (header trailer : Option Md) (streams : GoMap ℕ) (log : Log)
    → let c = new_client svcid nid opts in
      let beat = last_heartbeat (5 * second, 15 * second) opts in
      let f = stream_on_subject c ctx subject method inbox id now header trailer streams log in
      (c.stats_handlers ≡ handlers_of opts)
      × (c.pong_timeout ≡ beat.1)
      × (f.monitoring ≡ ltb 0 beat.0)
      × (f.pinging ≡ ltb 0 beat.0)
unfolding new_client stream_on_subject
new_client-options svcid nid opts ctx subject method inbox id now header trailer streams log = (
  apply_options-handlers opts _,
  apply_options-timeout opts _,
  ap (ltb 0) (apply_options-interval opts _),
  ap (ltb 0) (apply_options-interval opts _),
)
