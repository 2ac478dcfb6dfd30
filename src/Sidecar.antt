-- ===== src/Sidecar.antt =====
-- The sidecar of pkg/sidecar: sidecar.go (the configuration, and what Start opens and closes). Calls
-- of the local application are in Sidecar/Egress.antt, calls from NATS in Sidecar/Ingress.antt and
-- Sidecar/Worker.antt, registration in Sidecar/Admin.antt.
pub mod Headers
pub mod Egress
pub mod Startup
pub mod Ingress
pub mod Worker
pub mod Admin
pub mod Nid
pub mod Shutdown
pub mod Command
use nats_grpc.Base.{
  ℕ, ◌+◌, String, ◌≡◌, Bool, true, false, Option, none, some, List, [], ◌∷◌, ◌++◌, arith, ◌==◌,
  if◌then◌else◌,
}
use nats_grpc.Base.Text.{◌+++◌}
use nats_grpc.Wire.{Error, other}

pub record Config : Type 0 where
  pub nats_url : String
  pub egress_addr : String
  pub http_admin_addr : String
  pub nid : String

abbrev or_default : String → String → String
or_default given default = if given == "" then default else given

-- the defaults of New; `random` is randomNid()
unfoldable pub new_config : String → Config → Config
new_config random c = record c {
  egress_addr = or_default c.egress_addr "127.0.0.1:50051";
  http_admin_addr = or_default c.http_admin_addr "127.0.0.1:50101";
  nid = or_default c.nid random;
}

-- What Start opens: the NATS connection and the two listeners.
pub data Resource : Type 0 where
  nats_conn egress_listener admin_listener : Resource

pub record Started : Type 0 where
  pub error : Option Error
  pub opened : List Resource
  pub closed : List Resource

module _ (text : Error → String) where
  -- startHTTPAdmin, where "-" leaves it out
  unfoldable pub start_admin : Bool → Option Error → Started
  start_admin true listen = record {
    error = none;
    opened = nats_conn ∷ egress_listener ∷ [];
    closed = [];
  }
  start_admin false none = record {
    error = none;
    opened = nats_conn ∷ egress_listener ∷ admin_listener ∷ [];
    closed = [];
  }
  start_admin false (some e) = record {
    error = some (other ("listen http admin: " +++ text e));
    opened = nats_conn ∷ egress_listener ∷ [];
    closed = egress_listener ∷ nats_conn ∷ [];
  }

  unfoldable pub start_egress : Bool → Option Error → Option Error → Started
  start_egress no_admin (some e) listen_admin = record {
    error = some (other ("sidecar: listen egress: " +++ text e));
    opened = nats_conn ∷ [];
    closed = nats_conn ∷ [];
  }
  start_egress no_admin none listen_admin = start_admin no_admin listen_admin

  unfoldable pub start_nats : Bool → Option Error → Option Error → Option Error → Started
  start_nats no_admin (some e) listen_egress listen_admin = record {
    error = some (other ("sidecar: connect NATS: " +++ text e));
    opened = [];
    closed = [];
  }
  start_nats no_admin none listen_egress listen_admin =
      start_egress no_admin listen_egress listen_admin

  -- Start, over what nats.Connect and the two calls of net.Listen return
  unfoldable pub start : Config → Option Error → Option Error → Option Error → Started
  start c connect listen_egress listen_admin =
      if c.nats_url == ""
      then record { error = some (other "sidecar: NATSURL is required"); opened = []; closed = [] }
      else start_nats (c.http_admin_addr == "-") connect listen_egress listen_admin
