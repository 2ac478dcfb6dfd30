-- ===== src/Sidecar/Admin.antt =====
-- Registration over HTTP, handleHTTPRegister of pkg/sidecar/admin_http.go, and the registrations in
-- Sidecar.Close of pkg/sidecar/sidecar.go.
pub mod Lease
use nats_grpc.Base.{
  ℕ, String, Bool, true, false, Option, none, some, List, [], ◌∷◌, ◌==◌, GoMap, if◌then◌else◌,
}
use nats_grpc.Base.Text.{◌+++◌}
use nats_grpc.Wire.{Error, Result, ok, err}
use nats_grpc.Sidecar.Ingress.{
  Registration, Opened, opened, failed, undone, open_ingress, keep_registration, close_ingress,
  teardown, no_services,
}

-- httpRegisterRequest
pub record RegisterRequest : Type 0 where
  pub svcid : String
  pub upstream : String
  pub services : List String

-- The HTTP request, with what the JSON decoder makes of its body, and whether the writer is an
-- http.Flusher. `announce` is the error of writing the line with the nid.
pub record RegisterCall : Type 0 where
  pub method : String
  pub body : Result RegisterRequest
  pub can_flush : Bool
  pub announce : Option Error

-- What the handler comes to, each with Sidecar.registrations: an error response, with the registration
-- that openIngress had begun, if any; a registration whose handler has returned, with the deferred
-- closeIngress; or one that is held in the select on the client's and the sidecar's end.
pub data Registering : Type 0 where
  rejected : ℕ → String → Option Registration → GoMap Registration → Registering
  dropped : Registration → GoMap Registration → Registering
  held : Registration → GoMap Registration → Registering

-- the deferred closeIngress
unfoldable pub dropped_by : GoMap Registration × Registration → Registering
dropped_by (rs, r) = dropped r rs

module _ (nid : String) (subscribe : String → Option Error) (text : Error → String)
    (quote : String → String) (dial : Option Error) (id : String) where
  unfoldable pub announced : Option Error → Registration → GoMap Registration → Registering
  announced none r rs = held r rs
  announced (some e) r rs = dropped_by (close_ingress r rs)

  -- after openIngress, which has kept the registration
  unfoldable pub on_opened : Option Error → GoMap Registration → Opened → Registering
  on_opened announce rs (opened r) = announced announce r (keep_registration r rs)
  on_opened announce rs (failed e) = rejected 502 (text e) none rs
  on_opened announce rs (undone r e) = rejected 502 (text e) (some r) rs

  unfoldable pub on_register : RegisterCall → RegisterRequest → GoMap Registration → Registering
  on_register call req rs =
      if req.svcid == ""
      then rejected 400 "svcid is required" none rs
      else (if req.upstream == ""
          then rejected 400 "upstream is required" none rs
          else (if no_services req.services
              then rejected 400 "at least one service is required" none rs
              else (if call.can_flush
                  then on_opened call.announce rs (
                      open_ingress nid subscribe text quote dial id req.svcid req.upstream
                        req.services)
                  else rejected 500 "streaming not supported by this server" none rs)))

  unfoldable pub on_body : RegisterCall → Result RegisterRequest → GoMap Registration → Registering
  on_body call (err e) rs = rejected 400 ("invalid JSON body: " +++ text e) none rs
  on_body call (ok req) rs = on_register call req rs

  unfoldable pub handle_http_register : RegisterCall → GoMap Registration → Registering
  handle_http_register call rs =
      if call.method == "POST"
      then on_body call call.body rs
      else rejected 405 ("method " +++ call.method +++ " not allowed; use POST") none rs

-- The select of a held registration returns, when Sidecar.registrations are `now`, and the deferred
-- closeIngress runs. A handler that has returned stays as it is.
unfoldable pub released : GoMap Registration → Registering → Registering
released now (held r rs) = dropped_by (close_ingress r now)
released now (dropped r rs) = dropped r now
released now (rejected status message begun rs) = rejected status message begun now

abbrev pub torn_down : GoMap Registration → List Registration
torn_down [] = []
torn_down ((id, r) ∷ rs) = teardown r ∷ torn_down rs

-- the registrations in Sidecar.Close: the map after it, and the registrations
unfoldable pub close_registrations : GoMap Registration → GoMap Registration × List Registration
close_registrations rs = ([], torn_down rs)
