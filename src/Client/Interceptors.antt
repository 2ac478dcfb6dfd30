-- ===== src/Client/Interceptors.antt =====
-- Unary interceptors: Client.Invoke of pkg/rpc/client.go with one, and the interceptors of
-- examples/interceptor/client/main.go. The log messages of the interceptors are left out.
use mathlib.Core.List.{reverse, reverse-append}
use nats_grpc.Base.{
  ℕ, String, ◌≡◌, refl, sym, ap, ◌∙◌, Option, none, some, List, [], ◌∷◌, ◌++◌, GoMap,
}
use nats_grpc.Wire.{Bytes, Result, Md}
use nats_grpc.Stats.{Context, Log}
use nats_grpc.Env.{Env}
use nats_grpc.Client.{Client, Body, CallOption, Outcome, invoke}

-- grpc.UnaryInvoker and grpc.UnaryClientInterceptor, over what a call leaves behind.
abbrev pub Invoker : Type 0 → Type 0
Invoker M = Context → String → Body M → Body M → List CallOption → GoMap Md → Log → Outcome M

abbrev pub Interceptor : Type 0 → Type 0
Interceptor M =
    Context → String → Body M → Body M → Invoker M → List CallOption → GoMap Md → Log → Outcome M

module _ {M : Type 0} where
  -- Invoke, with the client's interceptor and `invoker`
  unfoldable pub intercepted : Option (Interceptor M) → Invoker M → Invoker M
  intercepted none invoker = invoker
  intercepted (some i) invoker = λ ctx method args reply. i ctx method args reply invoker

  -- one round of the loop in chainInterceptors
  abbrev pub wrap : Interceptor M → Invoker M → Invoker M
  wrap i next ctx method args reply opts = i ctx method args reply next opts

  -- the loop, over the interceptors from the last to the first
  wrap_all : List (Interceptor M) → Invoker M → Invoker M
  wrap_all [] chain = chain
  wrap_all (i ∷ more) chain = wrap_all more (wrap i chain)

  unfoldable pub chain_interceptors : List (Interceptor M) → Interceptor M
  unfolding wrap_all
  chain_interceptors is ctx method args reply invoker =
      wrap_all (reverse is) invoker ctx method args reply

  unfoldable pub logging_interceptor : Interceptor M
  logging_interceptor ctx method args reply invoker opts = invoker ctx method args reply opts

  -- `with_timeout` is context.WithTimeout
  unfoldable pub timeout_interceptor : (ℕ → Context → Context) → ℕ → Interceptor M
  timeout_interceptor with_timeout timeout ctx method args reply invoker opts =
      invoker (with_timeout timeout ctx) method args reply opts

  -- What a chain is meant to be: each interceptor calls the rest.
  abbrev pub nested : List (Interceptor M) → Invoker M → Invoker M
  nested [] invoker = invoker
  nested (i ∷ more) invoker = wrap i (nested more invoker)

  wrap_all-snoc :
      (is : List (Interceptor M)) (i : Interceptor M) (invoker : Invoker M)
      → wrap_all (is ++ i ∷ []) invoker ≡ wrap i (wrap_all is invoker)
  unfolding wrap_all
  wrap_all-snoc [] i invoker = refl
  wrap_all-snoc (j ∷ more) i invoker = wrap_all-snoc more i (wrap j invoker)

  wrap_all-nested :
      (is : List (Interceptor M)) (invoker : Invoker M)
      → wrap_all (reverse is) invoker ≡ nested is invoker
  unfolding wrap_all
  wrap_all-nested [] invoker = refl
  wrap_all-nested (i ∷ more) invoker =
      ap (λ l. wrap_all l invoker) (reverse-append (i ∷ []) more)
      ∙ wrap_all-snoc (reverse more) i invoker
      ∙ ap (wrap i) (wrap_all-nested more invoker)

  nested-logging :
      (is more : List (Interceptor M)) (invoker : Invoker M)
      → nested (is ++ logging_interceptor ∷ more) invoker ≡ nested (is ++ more) invoker
  unfolding logging_interceptor
  nested-logging [] more invoker = refl
  nested-logging (i ∷ is) more invoker = ap (wrap i) (nested-logging is more invoker)

  -- An Invoke with a chain of interceptors runs the first one around the second one and so on, with the
  -- client's own call innermost; and a loggingInterceptor can be left out of the chain wherever it stands.
  pub invoke_chain :
      (is more : List (Interceptor M)) (invoker : Invoker M)
      → (intercepted (some (chain_interceptors is)) invoker ≡ nested is invoker)
        × (intercepted (some (chain_interceptors (is ++ logging_interceptor ∷ more))) invoker
            ≡ intercepted (some (chain_interceptors (is ++ more))) invoker)
  unfolding intercepted chain_interceptors
  invoke_chain is more invoker = (
    wrap_all-nested is invoker,
    wrap_all-nested (is ++ logging_interceptor ∷ more) invoker
        ∙ nested-logging is more invoker
        ∙ sym (wrap_all-nested (is ++ more) invoker),
  )

module _ {M : Type 0} (env : Env M) (request : String → Bytes → Result Bytes) where
  -- Client.Invoke, where `unary_int` is the client's interceptor
  unfoldable pub invoke_intercepted : Option (Interceptor M) → Client → Invoker M
  invoke_intercepted unary_int c = intercepted unary_int (invoke env request c)

  -- A call with a chain of a logging and a timeout interceptor is the plain call under a context with
  -- the timeout.
  pub invoke_logged_timeout :
      (with_timeout : ℕ → Context → Context) (timeout : ℕ) (c : Client) (ctx : Context)
      (method : String) (args reply : Body M) (opts : List CallOption) (vars : GoMap Md) (log : Log)
      → invoke_intercepted
          (some (
            chain_interceptors
              (logging_interceptor ∷ timeout_interceptor with_timeout timeout ∷ [])))
          c
          ctx
          method
          args
          reply
          opts
          vars
          log
        ≡ invoke env request c (with_timeout timeout ctx) method args reply opts vars log
  unfolding invoke_intercepted intercepted chain_interceptors logging_interceptor
      timeout_interceptor wrap_all
  invoke_logged_timeout with_timeout timeout c ctx method args reply opts vars log = refl
