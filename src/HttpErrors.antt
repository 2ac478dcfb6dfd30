-- ===== src/HttpErrors.antt =====
-- pkg/rpc/reflection/errors/errors.go: the HTTP status of an error. A code is its number.
pub mod Json
use nats_grpc.Base.{
  ℕ, ◌%◌, ◌≤◌, ◌<◌, String, ◌≡◌, ◌≢◌, refl, Bool, true, false, not, ◌&&◌, any, ltb, List, [], ◌∷◌,
  arith, nat_eq, if_keeps, if◌then◌else◌,
}
use nats_grpc.Wire.Code
use nats_grpc.Wire.{Bytes}

-- a Go switch on a number: the first case that matches, or the default
abbrev pub switch {ℓ} : {A : Type ℓ} → ℕ → List (ℕ × A) → A → A
switch c [] d = d
switch c ((k, v) ∷ cases) d = if nat_eq c k then v else switch c cases d

-- GRPCError. `status_code` is the 64-bit pattern of the int; a detail is the type and the bytes of an
-- `Any`.
pub record GrpcError : Type 0 where
  pub status_code : ℕ
  pub message : String
  pub details : List (String × Bytes)

-- the conversion to codes.Code keeps 32 bits
abbrev pub code_of : GrpcError → ℕ
code_of e = e.status_code % 0x100000000

-- the cases of GRPCError.HTTPStatusCode after OK
abbrev pub grpc_cases : List (ℕ × ℕ)
grpc_cases =
    (Code.canceled, 408)
    ∷ (Code.unknown, 500)
    ∷ (Code.invalid_argument, 400)
    ∷ (Code.deadline_exceeded, 408)
    ∷ (Code.not_found, 404)
    ∷ (Code.already_exists, 409)
    ∷ (Code.permission_denied, 403)
    ∷ (Code.unauthenticated, 401)
    ∷ (Code.resource_exhausted, 503)
    ∷ (Code.failed_precondition, 412)
    ∷ (Code.aborted, 409)
    ∷ (Code.out_of_range, 400)
    ∷ (Code.unimplemented, 501)
    ∷ (Code.internal, 500)
    ∷ (Code.unavailable, 503)
    ∷ (Code.data_loss, 500)
    ∷ []

unfoldable pub grpc_http_status : GrpcError → ℕ
grpc_http_status e = switch (code_of e) ((Code.ok, 200) ∷ grpc_cases) 500

-- ProxyError
pub record ProxyError : Type 0 where
  pub code : ℕ
  pub message : String

abbrev pub proxy_cases : List (ℕ × ℕ)
proxy_cases = (1, 502) ∷ (2, 404) ∷ (3, 500) ∷ (4, 404) ∷ (5, 400) ∷ (7, 400) ∷ (8, 400) ∷ []

unfoldable pub proxy_http_status : ProxyError → ℕ
proxy_http_status e = switch e.code proxy_cases 500

unfoldable pub proxy_error_text : ProxyError → String
proxy_error_text e =
    switch e.code
      ((1, "could not connect to backend gRPC service")
        ∷ (2, "could not resolve service")
        ∷ (3, "service not found; service discovery error")
        ∷ (4, "no such gRPC method")
        ∷ (5, "message type mismatch")
        ∷ (7, "multiple versions of this service exist. specify version in request")
        ∷ (8, "multiple backends exist. add version annotations")
        ∷ [])
      "unknown failure"

abbrev pub IsHttpError : ℕ → Type 0
IsHttpError s = (400 ≤ s) × (s < 600)

http_error : ℕ → Bool
http_error s = ltb 399 s && ltb s 600

http_error-IsHttpError : (s : ℕ) → http_error s ≡ true → IsHttpError s
unfolding http_error
http_error-IsHttpError s h = ground arith

switch-test :
    (p : ℕ → Bool) (c : ℕ) (cases : List (ℕ × ℕ)) (d : ℕ)
    → any (λ e. not (p e.1)) cases ≡ false
    → p d ≡ true
    → p (switch c cases d) ≡ true
switch-test p c [] d h e = e
switch-test p c ((k, v) ∷ cases) d h e =
    if_keeps (λ x. p x ≡ true) (nat_eq c k) v _ (ground arith)
      (switch-test p c cases d (ground arith) e)

grpc_cases-IsHttpError : (c : ℕ) → IsHttpError (switch c grpc_cases 500)
unfolding http_error
grpc_cases-IsHttpError c =
    http_error-IsHttpError _ (switch-test http_error c grpc_cases 500 refl refl)

proxy_cases-IsHttpError : (c : ℕ) → IsHttpError (switch c proxy_cases 500)
unfolding http_error
proxy_cases-IsHttpError c =
    http_error-IsHttpError _ (switch-test http_error c proxy_cases 500 refl refl)

nat_eq_of_ne : (c : ℕ) → c ≢ 0 → nat_eq c 0 ≡ false
nat_eq_of_ne c h = ground arith

-- The HTTP status of a gRPC error is 200 for the code OK, and for every other code, also one that
-- gRPC does not know, a status from 400 to 599. That of a proxy error is always from 400 to 599.
pub http_status-IsHttpError :
    (g : GrpcError) (p : ProxyError)
    → ((code_of g ≡ Code.ok) → (grpc_http_status g ≡ 200))
      × ((code_of g ≢ Code.ok) → IsHttpError (grpc_http_status g))
      × IsHttpError (proxy_http_status p)
unfolding grpc_http_status proxy_http_status
http_status-IsHttpError g p = (
  (λ e. rw e refl),
  (λ ne. rw (nat_eq_of_ne (code_of g) ne) (grpc_cases-IsHttpError (code_of g))),
  proxy_cases-IsHttpError p.code,
)
