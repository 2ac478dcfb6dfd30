-- ===== src/Reflection/Client.antt =====
-- The reflection client, pkg/rpc/reflection/reflection.go: a method and its message made from the
-- descriptors of a service, and the errors on the way.
use nats_grpc.Base.{ℕ, String, ◌≡◌, refl, Option, none, some, List}
use nats_grpc.Base.Text.{◌+++◌}
use nats_grpc.Wire.{Bytes, Error, Result, ok, err}
use nats_grpc.HttpErrors.{ProxyError, proxy_http_status}

-- Descriptors of services, methods and messages, and dynamic messages; what the code calls of them.
pub record Descriptors (S M D V : Type 0) : Type 0 where
  pub resolve : String → Result S
  pub list : Result (List String)
  pub find_method : S → String → Option M
  pub methods : S → List M
  pub input_type : M → D
  pub qualified_name : D → String
  pub fresh : D → V
  -- UnmarshalJSON and MarshalJSON
  pub read_json : V → Bytes → Result V
  pub write_json : V → Result Bytes
  -- grpcurl.MakeTemplate, and its JSON formatter
  pub template : D → V
  pub formatter : Result (V → Result String)
  pub error_text : Error → String

-- the codes of pkg/rpc/reflection/errors/errors.go that are used here
abbrev pub service_not_found : ℕ
service_not_found = 3

abbrev pub method_not_found : ℕ
method_not_found = 4

abbrev pub message_type_mismatch : ℕ
message_type_mismatch = 5

abbrev pub unknown_failure : ℕ
unknown_failure = 6

-- A ProxyError, or one with a text of errors.Wrap in front.
pub data ReflectError : Type 0 where
  proxy : ProxyError → ReflectError
  wrapped : String → ReflectError → ReflectError

-- errors.Cause
abbrev pub cause : ReflectError → ProxyError
cause (proxy e) = e
cause (wrapped text e) = cause e

-- A value or an error of this package.
pub data Reflected {ℓ} (A : Type ℓ) : Type ℓ where
  found : A → Reflected A
  failed : ReflectError → Reflected A

abbrev pub wrap {ℓ} : {A : Type ℓ} → String → Reflected A → Reflected A
wrap text (found a) = found a
wrap text (failed e) = failed (wrapped text e)

abbrev pub then_with {ℓ κ} :
    {A : Type ℓ} {B : Type κ} → Reflected A → (A → Reflected B) → Reflected B
then_with (found a) f = f a
then_with (failed e) f = failed e

-- the ProxyError with a code and a text
abbrev pub proxy_error : ℕ → String → ReflectError
proxy_error code text = proxy (record { code = code; message = text })

abbrev pub or_error {ℓ} : {A : Type ℓ} → Result A → (Error → ReflectError) → Reflected A
or_error (ok a) f = found a
or_error (err e) f = failed (f e)

-- MethodInvocation
pub record Invocation (M V : Type 0) : Type 0 where
  pub method : M
  pub message : V

abbrev pub no_service_text : String
no_service_text = "service was not found upstream even though it should have been there"

module _ {S M D V : Type 0} (d : Descriptors S M D V) where
  unfoldable pub resolve_service : String → Reflected S
  resolve_service name =
      or_error (d.resolve name)
        (λ e. proxy_error service_not_found ("service " +++ name +++ " was not found upstream"))

  unfoldable pub list_services : Reflected (List String)
  list_services =
      or_error d.list
        (λ e. proxy_error service_not_found ("listing service failed: " +++ d.error_text e))

  unfoldable pub method_or : String → Option M → Reflected M
  method_or name (some m) = found m
  method_or name none =
      failed (proxy_error method_not_found ("the method " +++ name +++ " was not found"))

  unfoldable pub find_method_by_name : String → S → Reflected M
  find_method_by_name name s = method_or name (d.find_method s name)

  unfoldable pub unmarshal_json : V → Bytes → Reflected V
  unmarshal_json v b =
      or_error (d.read_json v b)
        (λ e. proxy_error message_type_mismatch "input JSON does not match messageImpl type")

  unfoldable pub marshal_json : V → Reflected Bytes
  marshal_json v =
      or_error (d.write_json v)
        (λ e. proxy_error unknown_failure "could not marshal backend response into JSON")

  unfoldable pub make_template : D → Reflected String
  make_template desc =
      then_with
        (or_error d.formatter
          (λ e. proxy_error unknown_failure "Failed to construct formatter for JSON"))
        (λ format. or_error (format (d.template desc)) (λ e.
          proxy_error unknown_failure
            ("Failed to print template for message: " +++ d.qualified_name desc)))

  unfoldable pub describe_service : String → Reflected (List M)
  describe_service name =
      then_with (wrap no_service_text (resolve_service name)) (λ s. found (d.methods s))

  unfoldable pub create_invocation : String → String → Bytes → Reflected (Invocation M V)
  create_invocation service method input =
      then_with (wrap no_service_text (resolve_service service)) (λ s.
        then_with (wrap "method not found upstream" (find_method_by_name method s)) (λ m.
          then_with (unmarshal_json (d.fresh (d.input_type m)) input)
            (λ v. found (record { method = m; message = v }))))

-- a failure whose cause has an HTTP status
abbrev pub FailsWith {ℓ} : {A : Type ℓ} → ℕ → Reflected A → Type 0
FailsWith status (found a) = ⊥
FailsWith status (failed e) = proxy_http_status (cause e) ≡ status

module _ {S M D V : Type 0} (d : Descriptors S M D V) (service method : String) where
  resolve_found : (s : S) → d.resolve service ≡ ok s → resolve_service d service ≡ found s
  unfolding resolve_service
  resolve_found s h = rw h refl

  find_found :
      (s : S) (m : M) → d.find_method s method ≡ some m → find_method_by_name d method s ≡ found m
  unfolding find_method_by_name method_or
  find_found s m h = rw h refl

  find_failed :
      (s : S)
      → d.find_method s method ≡ none
      → find_method_by_name d method s
        ≡ failed (proxy_error method_not_found ("the method " +++ method +++ " was not found"))
  unfolding find_method_by_name method_or
  find_failed s h = rw h refl

-- CreateInvocation fails with a cause whose HTTP status is 500 where the service cannot be resolved, else 404 where it
-- has no method of the name, else 400 where the input is not the JSON of the method's
-- input type. In no other case does it fail: it returns the method with its message.
pub create_invocation-status :
    {S M D V : Type 0} (d : Descriptors S M D V) (service method : String) (input : Bytes)
    → let result = create_invocation d service method input in
      ((e : Error) → d.resolve service ≡ err e → FailsWith 500 result)
      × ((s : S)
          → d.resolve service ≡ ok s
          → (d.find_method s method ≡ none → FailsWith 404 result)
            × ((m : M)
                → d.find_method s method ≡ some m
                → ((e : Error)
                    → d.read_json (d.fresh (d.input_type m)) input ≡ err e
                    → FailsWith 400 result)
                  × ((v : V)
                      → d.read_json (d.fresh (d.input_type m)) input ≡ ok v
                      → result ≡ found (record { method = m; message = v }))))
unfolding create_invocation resolve_service unmarshal_json proxy_http_status
create_invocation-status d service method input = (
  (λ e h. rw h refl),
  (λ s h. (
    (λ n. simp (resolve_found d service method s h, find_failed d service method s n)),
    (λ m f. (
      (λ e bad. simp (resolve_found d service method s h, find_found d service method s m f, bad)),
      (λ v good.
          simp (resolve_found d service method s h, find_found d service method s m f, good)),
    )),
  )),
)
