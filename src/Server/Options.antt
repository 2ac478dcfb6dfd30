-- ===== src/Server/Options.antt =====
-- NewServerWithOptions of pkg/rpc/server.go and its options, and what serverStreamHandler gives an
-- interceptor. `U` and `I` are the types of the unary and of the stream interceptors.
use nats_grpc.Base.{
  String, ◌≡◌, sym, ap, ◌∙◌, Bool, true, Option, none, some, List, [], ◌∷◌, ◌++◌, append_assoc,
  append-nil,
}
use nats_grpc.Stats.{StatsHandler}
use nats_grpc.Server.{Server}
use nats_grpc.ServerStream.{Impl, ServerStream}

module _ (U I : Type 0) where
  pub data ServerOption : Type 0 where
    with_unary_server_interceptor : U → ServerOption
    with_stream_server_interceptor : I → ServerOption
    with_server_stats_handler : StatsHandler → ServerOption

  -- a Server with its interceptors
  pub record NewServer : Type 0 where
    pub server : Server
    pub unary_int : Option U
    pub stream_int : Option I

  unfoldable pub apply_option : ServerOption → NewServer → NewServer
  apply_option (with_unary_server_interceptor u) s = record s { unary_int = some u }
  apply_option (with_stream_server_interceptor i) s = record s { stream_int = some i }
  apply_option (with_server_stats_handler h) s = record s {
    server = record s.server { stats_handlers = s.server.stats_handlers ++ h ∷ [] };
  }

  unfoldable pub apply_options : List ServerOption → NewServer → NewServer
  unfolding apply_option
  apply_options [] s = s
  apply_options (o ∷ opts) s = apply_options opts (apply_option o s)

  unfoldable pub new_server_with_options : String → List ServerOption → NewServer
  unfolding apply_options
  new_server_with_options nid opts = apply_options opts (record {
    server = record {
      nid = nid;
      handlers = [];
      unary_handlers = [];
      subs = [];
      services = [];
      stats_handlers = [];
    };
    unary_int = none;
    stream_int = none;
  })

  unfoldable pub new_server : String → NewServer
  unfolding new_server_with_options
  new_server nid = new_server_with_options nid []

  abbrev pub handlers_of : List ServerOption → List StatsHandler
  handlers_of [] = []
  handlers_of (with_server_stats_handler h ∷ opts) = h ∷ handlers_of opts
  handlers_of (_ ∷ opts) = handlers_of opts

  -- the last interceptor of a list, or the given one
  abbrev pub last_unary : Option U → List ServerOption → Option U
  last_unary d [] = d
  last_unary d (with_unary_server_interceptor u ∷ opts) = last_unary (some u) opts
  last_unary d (_ ∷ opts) = last_unary d opts

  abbrev pub last_stream : Option I → List ServerOption → Option I
  last_stream d [] = d
  last_stream d (with_stream_server_interceptor i ∷ opts) = last_stream (some i) opts
  last_stream d (_ ∷ opts) = last_stream d opts

  apply_options_lem :
      (opts : List ServerOption) (s : NewServer)
      → apply_options opts s ≡ record {
        server = record s.server { stats_handlers = s.server.stats_handlers ++ handlers_of opts };
        unary_int = last_unary s.unary_int opts;
        stream_int = last_stream s.stream_int opts;
      }
  unfolding apply_options
  apply_options_lem [] s =
      ap (λ hs. record s { server = record s.server { stats_handlers = hs } })
        (sym (append-nil s.server.stats_handlers))
  apply_options_lem (with_unary_server_interceptor u ∷ opts) s = apply_options_lem opts _
  apply_options_lem (with_stream_server_interceptor i ∷ opts) s = apply_options_lem opts _
  apply_options_lem (with_server_stats_handler h ∷ opts) s =
      apply_options_lem opts _
      ∙ ap
          (λ hs.
            let t : NewServer = record {
              server = record s.server { stats_handlers = hs };
              unary_int = last_unary s.unary_int opts;
              stream_int = last_stream s.stream_int opts;
            } in
            t)
          (append_assoc s.server.stats_handlers (h ∷ []) (handlers_of opts))

  -- A server made with options serves nothing yet, has their stats handlers in the order of the
  -- options, and of the interceptors of each kind the last one.
  pub new_server_with_options_lem :
      (nid : String) (opts : List ServerOption)
      → new_server_with_options nid opts ≡ record {
        server = record {
          nid = nid;
          handlers = [];
          unary_handlers = [];
          subs = [];
          services = [];
          stats_handlers = handlers_of opts;
        };
        unary_int = last_unary none opts;
        stream_int = last_stream none opts;
      }
  unfolding new_server_with_options
  new_server_with_options_lem nid opts = apply_options_lem opts _

  -- grpc.StreamServerInfo
  pub record StreamServerInfo : Type 0 where
    pub full_method : String
    pub is_client_stream : Bool
    pub is_server_stream : Bool

  -- the code that serverStreamHandler runs, with what it is given
  pub data StreamCode : Type 0 where
    intercepted : I → StreamServerInfo → Impl → StreamCode
    direct : Impl → StreamCode

  unfoldable pub server_stream_handler : Option I → Impl → ServerStream → StreamCode
  server_stream_handler (some i) h s =
      intercepted i
        (record { full_method = s.full_method; is_client_stream = true; is_server_stream = true }) h
  server_stream_handler none h s = direct h
