-- ===== src/Reflection/Files/Complete.antt =====
-- What fileDescWithDependencies sends, and that its loop ends where the imports have no cycle.
use nats_grpc.Base.{ℕ, suc, ◌≡◌, ap, Bool, true, none, some, List, ◌∷◌, ◌++◌, map, All, GoMap}
use nats_grpc.Wire.{Bytes, ok}
use nats_grpc.Reflection.{Registry, FileDescriptor, resolved, Imports}
use nats_grpc.Reflection.Files.{is_sent, Search, visit, search_files}
use nats_grpc.Reflection.Files.Queue.{mark_all, Fresh, Below}

module _ {T : Type 0} (registry : Registry T) where
  module _ (encode : FileDescriptor → Bytes)
      (encodes : (fd : FileDescriptor) → registry.marshal_file fd ≡ ok (encode fd)) where
    -- The files `rest` are what the loop sends from a state on, and all imports of `queue` have been sent in the end.
    -- If the queue has only files below a file, so has `rest`.
    record Sends (root : FileDescriptor) (fuel : ℕ) (queue : List FileDescriptor)
        (sent : GoMap Bool) (out : List Bytes) (rest : List FileDescriptor) : Type 0 where
      returns :
          search_files registry fuel queue (record { sent = sent; out = out; failed = none })
          ≡ some (record { sent = mark_all rest sent; out = out ++ map encode rest; failed = none })
      fresh : Fresh rest sent
      imports :
          All
            (λ fd.
              (n : ℕ) → Imports registry (λ g. is_sent g.name (mark_all rest sent) ≡ true) n fd)
            queue
      only : All (Below registry root) queue → All (Below registry root) rest

    step :
        (m : ℕ) (fd : FileDescriptor) (queue : List FileDescriptor) (s : Search) (sent : GoMap Bool)
        (out : List Bytes)
        → visit registry fd s ≡ record { sent = sent; out = out; failed = none }
        → search_files registry (suc m) (fd ∷ queue) s
          ≡ search_files registry m
              (queue ++ resolved registry fd.dependencies)
              (record { sent = sent; out = out; failed = none })
    unfolding search_files
    step m fd queue s sent out e =
        ap
          (λ v. elim v.failed [
            | some x ↦ some v
            | none ↦ search_files registry m (queue ++ resolved registry fd.dependencies) v
          ])
          e

    Sent : FileDescriptor → ℕ → List FileDescriptor → GoMap Bool → List Bytes → Type 0
    Sent root fuel queue sent out =
        (rest : List FileDescriptor) × Sends root fuel queue sent out rest
