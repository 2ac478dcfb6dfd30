-- ===== src/Sidecar/Ingress/Subjects.antt =====
-- What openIngress subscribes to, and the subjects that reach it.
use text.Mathlib.TextLemmas.{append_assoc}
use nats_grpc.Base.{
  String, ◌≡◌, refl, sym, ap, ◌∙◌, Option, none, some, List, [], ◌∷◌, ◌++◌, ◌==◌,
  append_assoc as list_append_assoc, append-nil, arith, Option-cases, if_keeps, inl, inr, true,
  false,
}
use nats_grpc.Base.Text.{◌+++◌}
use nats_grpc.Wire.{Error}
use nats_grpc.Subjects.{modern_unary_subject, modern_stream_subject, modern_unary_queue_group}
use nats_grpc.Subjects.Routing.{HasNoSlash, grpc_path, method_suffix-grpc_path}
use nats_grpc.Sidecar.Ingress.{
  Registration, teardown, unary_subscription, unary_queue, stream_subscription, Opened, opened,
  failed, undone, subscribe_stream, subscribe_both, subscribe_service, subscribe_all,
  new_registration, on_subscribed, dialled, no_services, open_ingress,
}

-- the subjects of a list of services
abbrev pub subjects : String → String → List String → List String
subjects nid svcid [] = []
subjects nid svcid (s ∷ ss) =
    unary_subscription svcid s ∷ stream_subscription svcid nid s ∷ subjects nid svcid ss

module _ (nid : String) (subscribe : String → Option Error) (text : Error → String)
    (quote : String → String) where
  -- a registration `r` that has got the subscriptions of `ss`
  record Subscribed (ss : List String) (r t : Registration) : Type 0 where
    subs : t.subs ≡ r.subs ++ subjects nid r.svcid ss
    svcid : t.svcid ≡ r.svcid
    torndown : t.torndown ≡ r.torndown

  subscribe_service-Subscribed :
      (s : String) (r : Registration)
      → (subscribe_service nid subscribe text quote s r).1 ≡ none
      → Subscribed (s ∷ []) r (subscribe_service nid subscribe text quote s r).0
  unfolding subscribe_service subscribe_both subscribe_stream
  subscribe_service-Subscribed s r h = record {
    subs = ground (
      arith,
      list_append_assoc r.subs (unary_subscription r.svcid s ∷ [])
          (stream_subscription r.svcid nid s ∷ []),
    );
    svcid = ground arith;
    torndown = ground arith;
  }

  subscribe_all-Subscribed :
      (ss : List String) (r t : Registration)
      → subscribe_all nid subscribe text quote ss r ≡ (t, none)
      → Subscribed ss r t
  unfolding subscribe_all
  subscribe_all-Subscribed [] r t h = record {
    subs =
        ap (λ (p : Registration × Option (String × Error)). p.0.subs) (sym h)
        ∙ sym (append-nil r.subs);
    svcid = ap (λ (p : Registration × Option (String × Error)). p.0.svcid) (sym h);
    torndown = ap (λ (p : Registration × Option (String × Error)). p.0.torndown) (sym h);
  }
  subscribe_all-Subscribed (s ∷ ss) r t h =
      elim (Option-cases (subscribe_service nid subscribe text quote s r).1) [
        | inl e ↦
            let one = subscribe_service-Subscribed s r e in
            let rest =
              subscribe_all-Subscribed ss (subscribe_service nid subscribe text quote s r).0 t
                (rw (e, subscribe_all) at h) in
            record {
              subs =
                  rest.subs
                  ∙ rw (one.subs, one.svcid)
                      (list_append_assoc r.subs (subjects nid r.svcid (s ∷ []))
                        (subjects nid r.svcid ss));
              svcid = rest.svcid ∙ one.svcid;
              torndown = rest.torndown ∙ one.torndown;
            }
        | inr (x, e) ↦ absurd (failed_first x e)
      ]
    where
      failed_first : (x : Error) → (subscribe_service nid subscribe text quote s r).1 ≡ some x → ⊥
      failed_first x e =
          cc (ap (λ (p : Registration × Option (String × Error)). p.1) (rw (e, subscribe_all) at h))

  -- What a way of openIngress to end guarantees.
  abbrev pub Held : String → List String → Opened → Type 0
  Held svcid services (opened r) = (r.subs ≡ subjects nid svcid services) × (r.torndown ≡ false)
  Held svcid services (failed e) = Unit
  Held svcid services (undone r e) = (r.subs ≡ []) × (r.torndown ≡ true) × (r.conn_closed ≡ true)

  subscribe_service-torndown :
      (s : String) (r : Registration)
      → (subscribe_service nid subscribe text quote s r).0.torndown ≡ r.torndown
  unfolding subscribe_service subscribe_both subscribe_stream
  subscribe_service-torndown s r = ground arith

  subscribe_all-torndown :
      (ss : List String) (r : Registration)
      → (subscribe_all nid subscribe text quote ss r).0.torndown ≡ r.torndown
  unfolding subscribe_all
  subscribe_all-torndown [] r = refl
  subscribe_all-torndown (s ∷ ss) r = ground (
    arith,
    subscribe_service-torndown s r,
    subscribe_all-torndown ss (subscribe_service nid subscribe text quote s r).0,
  )

  teardown-Undone :
      (r : Registration)
      → r.torndown ≡ false
      → ((teardown r).subs ≡ [])
        × ((teardown r).torndown ≡ true)
        × ((teardown r).conn_closed ≡ true)
  unfolding teardown
  teardown-Undone r e = ground arith

  on_subscribed-Held :
      (svcid : String) (ss : List String) (r : Registration)
      → r.svcid ≡ svcid
      → r.subs ≡ []
      → r.torndown ≡ false
      → Held svcid ss
          (on_subscribed nid subscribe text quote (subscribe_all nid subscribe text quote ss r))
  unfolding on_subscribed
  on_subscribed-Held svcid ss r i n f = ends (subscribe_all nid subscribe text quote ss r) refl
    where
      ends :
          (p : Registration × Option (String × Error))
          → subscribe_all nid subscribe text quote ss r ≡ p
          → Held svcid ss (on_subscribed nid subscribe text quote p)
      ends (t, none) e =
          let all = subscribe_all-Subscribed ss r t e in
          (all.subs ∙ rw (n, i) refl, all.torndown ∙ f)
      ends (t, some (s, x)) e = teardown-Undone t (
          ap (λ (p : Registration × Option (String × Error)). p.0.torndown) (sym e)
          ∙ subscribe_all-torndown ss r
          ∙ f)

  -- Where openIngress succeeds, its registration holds the unary and the stream subscription of every
  -- service, in the order of the services, and is not torn down. Where it fails after the upstream was
  -- dialled, the registration that it had begun holds no subscription and its connection is closed.
  pub open_ingress-Held :
      (dial : Option Error) (id svcid upstream : String) (services : List String)
      → Held svcid services (open_ingress nid subscribe text quote dial id svcid upstream services)
  unfolding open_ingress
  open_ingress-Held dial id svcid upstream services =
      if_keeps (Held svcid services) (svcid == "") _ _ tt (
        if_keeps (Held svcid services) (upstream == "") _ _ tt
          (if_keeps (Held svcid services) (no_services services) _ _ tt (after_dial dial)))
    where
      after_dial :
          (d : Option Error)
          → Held svcid services (dialled nid subscribe text quote d id svcid upstream services)
      after_dial none =
          unfold dialled in
          on_subscribed-Held svcid services (new_registration id svcid upstream services) refl refl
            refl
      after_dial (some e) = unfold dialled in tt

module _ (svcid nid service method : String) where
  abbrev pub unary_stem : String
  unary_stem = "nrpc.unary." +++ svcid +++ "." +++ service +++ "."

  abbrev pub stream_stem : String
  stream_stem = "nrpc.stream." +++ svcid +++ "." +++ nid +++ "." +++ service +++ "."

  -- A client's modern subject for a method lies under the sidecar's subscription for the service of
  -- the same svcid, and of the same nid for a stream: the subscription is a stem with ">" for its last
  -- token, and the subject is that stem with the method. The queue group is the client library's.
  pub subjects-under-subscriptions :
      HasNoSlash service
      → HasNoSlash method
      → ((unary_subscription svcid service ≡ unary_stem +++ ">")
          × (modern_unary_subject svcid (grpc_path service method) ≡ unary_stem +++ method))
        × ((stream_subscription svcid nid service ≡ stream_stem +++ ">")
            × (modern_stream_subject svcid nid (grpc_path service method) ≡ stream_stem +++ method))
        × (unary_queue svcid service ≡ modern_unary_queue_group svcid service)
  unfolding unary_subscription stream_subscription modern_unary_subject modern_stream_subject
      unary_queue modern_unary_queue_group
  subjects-under-subscriptions hs hm = (
    (
      simp append_assoc,
      rw (method_suffix-grpc_path service method hs hm)
          (simp append_assoc (sym (append_assoc "nrpc.unary" "." _))),
    ),
    (
      simp append_assoc,
      rw (method_suffix-grpc_path service method hs hm)
          (simp append_assoc (sym (append_assoc "nrpc.stream" "." _))),
    ),
    refl,
  )
