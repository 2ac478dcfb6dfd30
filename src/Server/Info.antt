-- ===== src/Server/Info.antt =====
-- GetServiceInfo of pkg/rpc/server.go.
use nats_grpc.Base.{String, Bool, false, List, [], ◌∷◌, ◌++◌, GoMap}
use nats_grpc.Server.{StreamDesc, ServiceInfo, Server}

-- grpc.MethodInfo
pub record MethodInfo : Type 0 where
  pub name : String
  pub is_client_stream : Bool
  pub is_server_stream : Bool

-- grpc.ServiceInfo
pub record ServiceDetails : Type 0 where
  pub methods : List MethodInfo
  pub metadata : String

abbrev pub unary_infos : GoMap String → List MethodInfo
unary_infos [] = []
unary_infos ((m, d) ∷ more) =
    record { name = m; is_client_stream = false; is_server_stream = false } ∷ unary_infos more

abbrev pub stream_infos : GoMap StreamDesc → List MethodInfo
stream_infos [] = []
stream_infos ((m, d) ∷ more) =
    record { name = m; is_client_stream = d.client_streams; is_server_stream = d.server_streams }
    ∷ stream_infos more

abbrev pub service_details : ServiceInfo → ServiceDetails
service_details srv = record {
  methods = unary_infos srv.methods ++ stream_infos srv.streams;
  metadata = srv.mdata;
}

abbrev pub details_of : GoMap ServiceInfo → GoMap ServiceDetails
details_of [] = []
details_of ((n, srv) ∷ more) = (n, service_details srv) ∷ details_of more

abbrev pub get_service_info : Server → GoMap ServiceDetails
get_service_info s = details_of s.services
