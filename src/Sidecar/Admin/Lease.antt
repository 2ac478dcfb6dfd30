-- ===== src/Sidecar/Admin/Lease.antt =====
-- The HTTP connection is the lease of a registration.
use nats_grpc.Base.{
  String, ◌≡◌, refl, true, false, Option, none, some, List, [], ◌==◌, GoMap, lookup,
  lookup-insert_self, lookup-delete_self, arith, if_keeps,
}
use nats_grpc.Wire.{Error, Result, ok, err}
use nats_grpc.HttpErrors.{IsHttpError}
use nats_grpc.Sidecar.Ingress.{
  Registration, Opened, opened, failed, undone, keep_registration, close_ingress, teardown,
  no_services,
}
use nats_grpc.Sidecar.Ingress.Subjects.{Held, subjects, open_ingress-Held}
use nats_grpc.Sidecar.Admin.{
  RegisterRequest, RegisterCall, Registering, rejected, dropped, held, dropped_by, announced,
  on_opened, on_register, on_body, released, handle_http_register,
}

-- nothing of a registration is left, in the sidecar's map and in the registration
abbrev pub Gone : Registration → GoMap Registration → Type 0
Gone r rs = (lookup r.id rs ≡ none) × (r.subs ≡ []) × (r.torndown ≡ true) × (r.conn_closed ≡ true)

-- what the services of a body are
abbrev pub services_of : Result RegisterRequest → List String
services_of (ok req) = req.services
services_of (err e) = []

abbrev pub svcid_of : Result RegisterRequest → String
svcid_of (ok req) = req.svcid
svcid_of (err e) = ""

teardown-id : (r : Registration) → (teardown r).id ≡ r.id
unfolding teardown
teardown-id r = ground arith

close_ingress-Gone :
    (r : Registration) (rs : GoMap Registration)
    → r.torndown ≡ false
    → let (after, last) = close_ingress r rs in Gone last after
unfolding close_ingress teardown
close_ingress-Gone r rs f = rw f (lookup-delete_self r.id rs, refl, refl, refl)

-- nothing of a registration that was begun is left in it
abbrev pub Undone : Option Registration → Type 0
Undone none = Unit
Undone (some r) = (r.subs ≡ []) × (r.torndown ≡ true) × (r.conn_closed ≡ true)

-- the end of a handler whose registration is gone
abbrev pub IsReleased : Registering → Type 0
IsReleased (dropped r after) = Gone r after
IsReleased (rejected status text begun after) = Undone begun
IsReleased (held r after) = ⊥

module _ (nid : String) (rs now : GoMap Registration) (svcid : String)
    (services : List String) where
  -- What the handler guarantees, in each of the ways that it ends.
  abbrev pub Leased : Registering → Type 0
  Leased (rejected status text begun after) = IsHttpError status × (after ≡ rs) × Undone begun
  Leased (dropped r after) = Gone r after
  Leased (held r after) =
      (lookup r.id after ≡ some r)
      × (r.subs ≡ subjects nid svcid services)
      × IsReleased (released now (held r after))

module _ (nid : String) (subscribe : String → Option Error) (text : Error → String)
    (quote : String → String) (dial : Option Error) (id : String) (now : GoMap Registration) where
  on_opened-Leased :
      (announce : Option Error) (rs : GoMap Registration) (svcid : String) (services : List String)
      (o : Opened)
      → Held nid subscribe text quote svcid services o
      → Leased nid rs now svcid services (on_opened nid subscribe text quote dial id announce rs o)
  unfolding on_opened announced dropped_by keep_registration released
  on_opened-Leased none rs svcid services (opened r) h =
      (lookup-insert_self r.id r rs, h.0, close_ingress-Gone r now h.1)
  on_opened-Leased (some e) rs svcid services (opened r) h = close_ingress-Gone r _ h.1
  on_opened-Leased announce rs svcid services (failed e) h = (ground arith, refl, tt)
  on_opened-Leased announce rs svcid services (undone r e) h = (ground arith, refl, h)

  on_register-Leased :
      (call : RegisterCall) (req : RegisterRequest) (rs : GoMap Registration)
      → Leased nid rs now req.svcid req.services
          (on_register nid subscribe text quote dial id call req rs)
  unfolding on_register
  on_register-Leased call req rs =
      let P = Leased nid rs now req.svcid req.services in
      if_keeps P (req.svcid == "") _ _ (ground arith, refl, tt)
        (if_keeps P (req.upstream == "") _ _ (ground arith, refl, tt)
          (if_keeps P (no_services req.services) _ _ (ground arith, refl, tt)
            (if_keeps P call.can_flush _ _
              (on_opened-Leased call.announce rs req.svcid req.services _ (
                open_ingress-Held nid subscribe text quote dial id req.svcid req.upstream
                  req.services))
              (ground arith, refl, tt))))

  on_body-Leased :
      (call : RegisterCall) (body : Result RegisterRequest) (rs : GoMap Registration)
      → Leased nid rs now
          (svcid_of body)
          (services_of body)
          (on_body nid subscribe text quote dial id call body rs)
  unfolding on_body
  on_body-Leased call (ok req) rs = on_register-Leased call req rs
  on_body-Leased call (err e) rs = (ground arith, refl, tt)

  -- A registration request that is rejected gets an HTTP status from 400 to 599 and leaves the
  -- sidecar's registrations as they were; a registration that had been begun holds no subscription, is
  -- torn down and has closed its connection to the upstream. One that is accepted is in the sidecar's
  -- map while the handler waits, with the subscriptions of every service of its body; and when the
  -- wait ends, whatever registrations there are then, it has left the map, holds no subscription,
  -- is torn down and has closed its connection. So has one whose nid could not be written to the
  -- client.
  pub handle_http_register-Leased :
      (call : RegisterCall) (rs : GoMap Registration)
      → Leased nid rs now
          (svcid_of call.body)
          (services_of call.body)
          (handle_http_register nid subscribe text quote dial id call rs)
  unfolding handle_http_register
  handle_http_register-Leased call rs =
      if_keeps (Leased nid rs now (svcid_of call.body) (services_of call.body))
        (call.method == "POST") _ _ (on_body-Leased call call.body rs) (ground arith, refl, tt)
