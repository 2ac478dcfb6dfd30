-- ===== src/Subjects/Routing.antt =====
-- Where the client's subject for a method and the server's path for it meet.
use Prim.Native.Char.{code}
use Prim.Native.String.{[], ◌∷◌, count}
use text.Mathlib.TextLemmas.{
  append_assoc, cons-append, nil-append, append_cancel_left, append_cancel_right, cons-eq-cons,
  length-append,
}
use nats_grpc.Base.{
  ◌+◌, String, ◌≡◌, ◌≢◌, refl, sym, ap, ◌∙◌, inl, inr, arith, true, false, ◌==◌, eq_iff, Bool-cases,
  nat_eq,
}
use nats_grpc.Base.Text.{◌+++◌}
use nats_grpc.Subjects.{
  dot_of_slash, method_suffix, legacy_subject, modern_unary_subject, modern_stream_subject,
  service_prefix, method_path,
}

abbrev pub HasNoSlash : String → Type 0
HasNoSlash [] = Unit
HasNoSlash (c ∷ s) = (nat_eq (code c) b'/' ≢ true) × HasNoSlash s

method_suffix-append :
    (s t : String) → method_suffix (s +++ t) ≡ method_suffix s +++ method_suffix t
unfolding method_suffix
method_suffix-append [] t = rw (nil-append t, nil-append (method_suffix t))
method_suffix-append (c ∷ s) t =
    rw (cons-append c s t, cons-append (dot_of_slash c) (method_suffix s) (method_suffix t))
      (ap (λ u. dot_of_slash c ∷ u) (method_suffix-append s t))

method_suffix-HasNoSlash : (s : String) → HasNoSlash s → method_suffix s ≡ s
unfolding method_suffix
method_suffix-HasNoSlash [] h = refl
method_suffix-HasNoSlash (c ∷ s) (h, hs) = elim (Bool-cases (nat_eq (code c) b'/')) [
  | inl e ↦ absurd (h e)
  | inr e ↦ rw e (ap (λ u. c ∷ u) (method_suffix-HasNoSlash s hs))
]

-- the canonical gRPC path of a method
abbrev pub grpc_path : String → String → String
grpc_path service method = "/" +++ service +++ "/" +++ method

pub method_suffix-grpc_path :
    (service method : String)
    → HasNoSlash service
    → HasNoSlash method
    → method_suffix (grpc_path service method) ≡ "." +++ service +++ "." +++ method
unfolding method_suffix
method_suffix-grpc_path service method hs hm = rw (
  method_suffix-append "/" (service +++ "/" +++ method),
  method_suffix-append service ("/" +++ method),
  method_suffix-append "/" method,
  method_suffix-HasNoSlash service hs,
  method_suffix-HasNoSlash method hm,
)

merge : (s t : String) → "nrpc" +++ "." +++ s +++ t ≡ ("nrpc." +++ s) +++ t
merge s t = sym (append_assoc "nrpc" "." (s +++ t)) ∙ sym (append_assoc "nrpc." s t)

-- The legacy client's subject for a method is the path under which a server whose nid is the
-- client's svcid registers that method, for a service and a method name with no slash, with an
-- empty nid and with any other.
pub legacy_subject-eq-method_path :
    (nid service method : String)
    → HasNoSlash service
    → HasNoSlash method
    → legacy_subject nid (grpc_path service method) ≡ method_path nid service method
unfolding legacy_subject method_path service_prefix
legacy_subject-eq-method_path nid service method hs hm =
    rw (method_suffix-grpc_path service method hs hm) (elim (Bool-cases (nid == "")) [
      | inl e ↦ rw e (merge service ("." +++ method))
      | inr e ↦ rw e ((simp append_assoc) ∙ merge (nid +++ "." +++ service) ("." +++ method))
    ])

-- Every call on the modern unary namespace and every call on the modern streaming namespace have
-- different subjects, whatever the ids and the methods are.
pub modern_subjects_differ :
    (svcid full_method svcid' nid' full_method' : String)
    → modern_unary_subject svcid full_method ≢ modern_stream_subject svcid' nid' full_method'
unfolding modern_unary_subject modern_stream_subject
modern_subjects_differ svcid m svcid' nid' m' e = first_differ _ _ (
    append_cancel_left "nrpc." _ _
      (sym (append_assoc "nrpc." "unary" _) ∙ e ∙ append_assoc "nrpc." "stream" _))
  where
    first_differ : (s t : String) → "unary" +++ s ≡ "stream" +++ t → ⊥
    first_differ s t e = omega (
      arith,
      ap code (cons-eq-cons.0 (sym (cons-append "u" "nary" s) ∙ e ∙ cons-append "s" "tream" t)).0,
    )

module _ (nid service : String) where
  service_prefix_of_eq : (nid == "") ≡ true → service_prefix nid service ≡ "nrpc." +++ service
  unfolding service_prefix
  service_prefix_of_eq h = rw h

  service_prefix_of_ne :
      (nid == "") ≡ false → service_prefix nid service ≡ "nrpc." +++ nid +++ "." +++ service
  unfolding service_prefix
  service_prefix_of_ne h = rw h

  count_of_eq : (nid == "") ≡ true → count (service_prefix nid service) ≡ 5 + count service
  count_of_eq h = rw (service_prefix_of_eq h) (length-append "nrpc." service)

  count_of_ne :
      (nid == "") ≡ false → count (service_prefix nid service) ≡ 6 + count nid + count service
  count_of_ne h = rw (service_prefix_of_ne h) (
      omega (
        arith,
        length-append "nrpc." (nid +++ "." +++ service),
        length-append nid ("." +++ service),
        length-append "." service,
      ))

service_prefix-injective :
    (nid nid' service : String)
    → service_prefix nid service ≡ service_prefix nid' service
    → nid ≡ nid'
service_prefix-injective nid nid' service e = elim (Bool-cases (nid == "")) [
  | inl a ↦ elim (Bool-cases (nid' == "")) [
    | inl b ↦ (eq_iff nid "").0 a ∙ sym ((eq_iff nid' "").0 b)
    | inr b ↦
        absurd (omega (arith, ap count e, count_of_eq nid service a, count_of_ne nid' service b))
  ]
  | inr a ↦ elim (Bool-cases (nid' == "")) [
    | inl b ↦
        absurd (omega (arith, ap count e, count_of_ne nid service a, count_of_eq nid' service b))
    | inr b ↦ append_cancel_right nid nid' ("." +++ service) (
        append_cancel_left "nrpc." _ _
          (sym (service_prefix_of_ne nid service a) ∙ e ∙ service_prefix_of_ne nid' service b))
  ]
]

-- Replicas of a service with different nids store a method under different paths, also where one
-- nid is empty.
pub method_paths_differ :
    (nid nid' service method : String)
    → nid ≢ nid'
    → method_path nid service method ≢ method_path nid' service method
unfolding method_path
method_paths_differ nid nid' service method h e =
    h (service_prefix-injective nid nid' service (append_cancel_right _ _ ("." +++ method) e))
