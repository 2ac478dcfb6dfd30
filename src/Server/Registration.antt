-- ===== src/Server/Registration.antt =====
-- What RegisterService stores, and that a client's subject finds it.
use text.Mathlib.TextLemmas.{append_cancel_left}
use nats_grpc.Base.{
  String, ◌≡◌, refl, sym, ap, ◌∙◌, inl, inr, Bool, false, some, List, if_false, [], ◌∷◌, arith,
  ◌==◌, eq_iff, eq_refl, eq_of_ne, any, lookup, insert, lookup-insert, Bool-cases, if◌then◌else◌,
}
use nats_grpc.Base.Text.{◌+++◌}
use nats_grpc.Subjects.{legacy_subject, service_prefix, method_path, subscription}
use nats_grpc.Subjects.Routing.{HasNoSlash, grpc_path, legacy_subject-eq-method_path}
use nats_grpc.ServerStream.{Impl, unary_func, stream_func}
use nats_grpc.Server.{
  StreamDesc, ServiceDesc, ServiceInfo, Server, method_map, stream_map, add_methods, add_streams,
  register, register_service,
}

name_of_path : (prefix m n : String) → prefix +++ "." +++ m ≡ prefix +++ "." +++ n → m ≡ n
name_of_path prefix m n p = append_cancel_left "." m n (append_cancel_left prefix _ _ p)

-- Paths under one prefix are equal exactly when the names are.
path_eq : (prefix m n : String) → ((prefix +++ "." +++ m) == (prefix +++ "." +++ n)) ≡ (m == n)
path_eq prefix m n = elim (Bool-cases (m == n)) [
  | inl e ↦ rw ((eq_iff m n).0 e) (eq_refl (prefix +++ "." +++ n) ∙ sym (eq_refl n))
  | inr e ↦
      eq_of_ne _ _ (λ (p : prefix +++ "." +++ m ≡ prefix +++ "." +++ n).
        cc (e, (eq_iff m n).1 (name_of_path prefix m n p)))
      ∙ sym e
]

abbrev pub named_method : String → List String → Bool
named_method m = any (λ n. n == m)

abbrev pub named_stream : String → List StreamDesc → Bool
named_stream m = any (λ d. d.stream_name == m)

module _ (service prefix m : String) where
  abbrev path : String
  path = prefix +++ "." +++ m

  abbrev impl : Impl
  impl = record { service = service; method = m }

  lookup-add_methods :
      (ms : List String) (s : Server)
      → lookup path (add_methods service prefix ms s).handlers
        ≡ (if named_method m ms then some (unary_func impl) else lookup path s.handlers)
  unfolding add_methods
  lookup-add_methods [] s = refl
  lookup-add_methods (n ∷ ns) s =
      lookup-add_methods ns _
      ∙ rw
          (
            lookup-insert (prefix +++ "." +++ n) path
                (unary_func (record { service = service; method = n })) s.handlers,
            path_eq prefix n m,
          )
          (ground (arith, eq_iff n m))

  lookup-add_methods_unary :
      (ms : List String) (s : Server)
      → lookup path (add_methods service prefix ms s).unary_handlers
        ≡ (if named_method m ms then some impl else lookup path s.unary_handlers)
  unfolding add_methods
  lookup-add_methods_unary [] s = refl
  lookup-add_methods_unary (n ∷ ns) s =
      lookup-add_methods_unary ns _
      ∙ rw
          (
            lookup-insert (prefix +++ "." +++ n) path (record { service = service; method = n })
                s.unary_handlers,
            path_eq prefix n m,
          )
          (ground (arith, eq_iff n m))

  lookup-add_streams :
      (ds : List StreamDesc) (s : Server)
      → lookup path (add_streams service prefix ds s).handlers
        ≡ (if named_stream m ds then some (stream_func impl) else lookup path s.handlers)
  unfolding add_streams
  lookup-add_streams [] s = refl
  lookup-add_streams (d ∷ ds) s =
      lookup-add_streams ds _
      ∙ rw
          (
            lookup-insert (prefix +++ "." +++ d.stream_name) path
                (stream_func (record { service = service; method = d.stream_name })) s.handlers,
            path_eq prefix d.stream_name m,
          )
          (ground (arith, eq_iff d.stream_name m))

  add_streams_unary :
      (ds : List StreamDesc) (s : Server)
      → (add_streams service prefix ds s).unary_handlers ≡ s.unary_handlers
  unfolding add_streams
  add_streams_unary [] s = refl
  add_streams_unary (d ∷ ds) s = add_streams_unary ds _

-- the paths that a registration writes
abbrev pub is_method : String → List String → String → Bool
is_method prefix ms path = any (λ n. (prefix +++ "." +++ n) == path) ms

abbrev pub is_stream : String → List StreamDesc → String → Bool
is_stream prefix ds path = any (λ d. (prefix +++ "." +++ d.stream_name) == path) ds

module _ (service prefix other : String) where
  -- Two servers that answer alike for the path `other`, with the same services and subscriptions.
  record Alike (s t : Server) : Type 0 where
    stored : lookup other t.handlers ≡ lookup other s.handlers
    stored_unary : lookup other t.unary_handlers ≡ lookup other s.unary_handlers
    subs : t.subs ≡ s.subs
    services : t.services ≡ s.services
    conf : (t.nid ≡ s.nid) × (t.stats_handlers ≡ s.stats_handlers)

  Alike-trans : (s t u : Server) → Alike s t → Alike t u → Alike s u
  Alike-trans s t u h k = record {
    stored = k.stored ∙ h.stored;
    stored_unary = k.stored_unary ∙ h.stored_unary;
    subs = k.subs ∙ h.subs;
    services = k.services ∙ h.services;
    conf = (k.conf.0 ∙ h.conf.0, k.conf.1 ∙ h.conf.1);
  }

  add_methods-Alike :
      (ms : List String) (s : Server)
      → is_method prefix ms other ≡ false
      → Alike s (add_methods service prefix ms s)
  unfolding add_methods
  add_methods-Alike [] s h = record {
    stored = refl;
    stored_unary = refl;
    subs = refl;
    services = refl;
    conf = (refl, refl);
  }
  add_methods-Alike (n ∷ ns) s h =
      let path = prefix +++ "." +++ n in
      let i : Impl = record { service = service; method = n } in
      let no : (path == other) ≡ false = ground arith in
      Alike-trans s _ _
        (record {
          stored =
              lookup-insert path other (unary_func i) s.handlers ∙ if_false _ _ (path == other) no;
          stored_unary =
              lookup-insert path other i s.unary_handlers ∙ if_false _ _ (path == other) no;
          subs = refl;
          services = refl;
          conf = (refl, refl);
        })
        (add_methods-Alike ns _ (ground arith))

  add_streams-Alike :
      (ds : List StreamDesc) (s : Server)
      → is_stream prefix ds other ≡ false
      → Alike s (add_streams service prefix ds s)
  unfolding add_streams
  add_streams-Alike [] s h = record {
    stored = refl;
    stored_unary = refl;
    subs = refl;
    services = refl;
    conf = (refl, refl);
  }
  add_streams-Alike (d ∷ ds) s h =
      let path = prefix +++ "." +++ d.stream_name in
      let i : Impl = record { service = service; method = d.stream_name } in
      let no : (path == other) ≡ false = ground arith in
      Alike-trans s _ _
        (record {
          stored =
              lookup-insert path other (stream_func i) s.handlers ∙ if_false _ _ (path == other) no;
          stored_unary = refl;
          subs = refl;
          services = refl;
          conf = (refl, refl);
        })
        (add_streams-Alike ds _ (ground arith))

register_keeps :
    (sd : ServiceDesc) (s t : Server)
    → register sd s ≡ some t
    → (t.handlers ≡ s.handlers) × (t.unary_handlers ≡ s.unary_handlers)
unfolding register
register_keeps sd s t e = ground arith

register_shares :
    (sd : ServiceDesc) (s t : Server)
    → register sd s ≡ some t
    → (t.subs ≡ s.subs) × (t.nid ≡ s.nid) × (t.stats_handlers ≡ s.stats_handlers)
unfolding register
register_shares sd s t e = ground arith

register_services :
    (sd : ServiceDesc) (s t : Server) (other : String)
    → register sd s ≡ some t
    → (sd.service_name == other) ≡ false
    → lookup other t.services ≡ lookup other s.services
unfolding register
register_services sd s t other e h =
    let info : ServiceInfo = record {
      methods = method_map sd.methods [];
      streams = stream_map sd.streams [];
      mdata = sd.metadata;
    } in
    ground (arith, lookup-insert sd.service_name other info s.services)

-- What a registration leaves as it was: both tables for a path that is none of the service's, the
-- entries of another service, and the rest of the server.
pub record Kept (path other : String) (s t : Server) : Type 0 where
  pub stored : lookup path t.handlers ≡ lookup path s.handlers
  pub stored_unary : lookup path t.unary_handlers ≡ lookup path s.unary_handlers
  pub service : lookup other t.services ≡ lookup other s.services
  pub sub : lookup other t.subs ≡ lookup other s.subs
  pub nid : t.nid ≡ s.nid
  pub stats_handlers : t.stats_handlers ≡ s.stats_handlers

register_service-Kept :
    (sd : ServiceDesc) (s t : Server) (path other : String)
    → register_service sd s ≡ some t
    → is_method (service_prefix s.nid sd.service_name) sd.methods path ≡ false
    → is_stream (service_prefix s.nid sd.service_name) sd.streams path ≡ false
    → (sd.service_name == other) ≡ false
    → Kept path other s t
unfolding register_service
register_service-Kept sd s t path other e m d o =
    let prefix = service_prefix s.nid sd.service_name in
    let sub = subscription s.nid sd.service_name in
    let begun : Server = record s { subs = insert sd.service_name sub s.subs } in
    let added : Server = add_methods sd.service_name prefix sd.methods begun in
    let u : Server = add_streams sd.service_name prefix sd.streams added in
    let a =
      Alike-trans sd.service_name prefix path begun added u
        (add_methods-Alike sd.service_name prefix path sd.methods begun m)
        (add_streams-Alike sd.service_name prefix path sd.streams added d) in
    let (handlers, unary) = register_keeps sd u t e in
    let (subs, nid, stats) = register_shares sd u t e in
    record {
      stored = ap (lookup path) handlers ∙ a.stored;
      stored_unary = ap (lookup path) unary ∙ a.stored_unary;
      service = register_services sd u t other e o ∙ ap (lookup other) a.services;
      sub =
          ap (lookup other) (subs ∙ a.subs)
          ∙ lookup-insert sd.service_name other sub s.subs
          ∙ if_false _ _ (sd.service_name == other) o;
      nid = nid ∙ a.conf.0;
      stats_handlers = stats ∙ a.conf.1;
    }

lookup_in_tables :
    (sd : ServiceDesc) (s t : Server) (m : String)
    → register_service sd s ≡ some t
    → HasNoSlash sd.service_name
    → HasNoSlash m
    → let subject = legacy_subject s.nid (grpc_path sd.service_name m) in
      let named : Impl = record { service = sd.service_name; method = m } in
      (lookup subject t.handlers ≡ (
        if named_stream m sd.streams
        then some (stream_func named)
        else (if named_method m sd.methods
            then some (unary_func named)
            else lookup subject s.handlers)))
      × (lookup subject t.unary_handlers
          ≡ (if named_method m sd.methods then some named else lookup subject s.unary_handlers))
unfolding register_service method_path
lookup_in_tables sd s t m e hs hm =
    rw
      (
        legacy_subject-eq-method_path s.nid sd.service_name m hs hm,
        (register_keeps sd _ t e).0,
        (register_keeps sd _ t e).1,
      )
      (
        lookup-add_streams sd.service_name prefix m sd.streams _
            ∙ ap
                (λ old.
                  if named_stream m sd.streams
                  then some (stream_func (impl sd.service_name prefix m))
                  else old)
                (lookup-add_methods sd.service_name prefix m sd.methods _),
        ap (lookup (path sd.service_name prefix m))
              (add_streams_unary sd.service_name prefix m sd.streams _)
            ∙ lookup-add_methods_unary sd.service_name prefix m sd.methods _,
      )
  where
    prefix : String
    prefix = service_prefix s.nid sd.service_name

-- After RegisterService the subject of a legacy client, whose svcid is the server's nid, finds the
-- handlers of the service: for a stream of that name its stream handler, else for a method of that
-- name its handler, and in the unary table the method's handler. For any other method name both
-- tables answer as before. (The service and the method name hold no slash.) Nothing else changes:
-- any path that is not one of the service's own, and any other service, keeps what it had.
pub register_service-lookup :
    (sd : ServiceDesc) (s t : Server) (m path other : String)
    → register_service sd s ≡ some t
    → HasNoSlash sd.service_name
    → HasNoSlash m
    → is_method (service_prefix s.nid sd.service_name) sd.methods path ≡ false
    → is_stream (service_prefix s.nid sd.service_name) sd.streams path ≡ false
    → (sd.service_name == other) ≡ false
    → let subject = legacy_subject s.nid (grpc_path sd.service_name m) in
      let named : Impl = record { service = sd.service_name; method = m } in
      (lookup subject t.handlers ≡ (
        if named_stream m sd.streams
        then some (stream_func named)
        else (if named_method m sd.methods
            then some (unary_func named)
            else lookup subject s.handlers)))
      × (lookup subject t.unary_handlers
          ≡ (if named_method m sd.methods then some named else lookup subject s.unary_handlers))
      × Kept path other s t
register_service-lookup sd s t m path other e hs hm p q o =
    let (stream, method) = lookup_in_tables sd s t m e hs hm in
    (stream, method, register_service-Kept sd s t path other e p q o)
