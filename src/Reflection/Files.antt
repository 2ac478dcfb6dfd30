-- ===== src/Reflection/Files.antt =====
-- fileDescWithDependencies: a breadth-first walk over the imports of a file.
pub mod Complete
pub mod Queue
use nats_grpc.Base.{
  ℕ, zero, suc, ◌+◌, ◌≤◌, ◌<◌, String, ◌≡◌, ◌≢◌, refl, sym, ap, ◌∙◌, Bool, true, false, not, ◌||◌,
  Option, none, some, List, [], ◌∷◌, ◌++◌, map, arith, eq_iff, All, All-append, append-nil,
  append_assoc, GoMap, if◌then◌else◌,
}
use nats_grpc.Base.{lookup, insert, lookup-insert, lookup-insert_self}
use nats_grpc.Wire.{Bytes, Error, Result, ok, err}
use nats_grpc.Reflection.{Registry, FileDescriptor, resolved, Acyclic, Imports}

-- sentFileDescriptors[name]
abbrev pub flag : Option Bool → Bool
flag none = false
flag (some b) = b

unfoldable pub is_sent : String → GoMap Bool → Bool
is_sent name sent = flag (lookup name sent)

unfoldable pub mark_sent : String → GoMap Bool → GoMap Bool
mark_sent name sent = insert name true sent

-- `sent` is the map, `out` the slice r, and `failed` the error of proto.Marshal.
pub record Search : Type 0 where
  pub sent : GoMap Bool
  pub out : List Bytes
  pub failed : Option Error

abbrev pub is_empty : List Bytes → Bool
is_empty [] = true
is_empty (b ∷ bs) = false

abbrev pub outcome : Search → Result (List Bytes)
outcome s = elim s.failed [ none ↦ ok s.out | some e ↦ err e ]

module _ {T : Type 0} (registry : Registry T) where
  unfoldable pub encoded : Result Bytes → Search → Search
  encoded (ok b) s = record s { out = s.out ++ b ∷ [] }
  encoded (err e) s = record s { failed = some e }

  -- one file that the loop takes from the queue
  unfoldable pub visit : FileDescriptor → Search → Search
  visit fd s =
      if is_empty s.out || not (is_sent fd.name s.sent)
      then encoded (registry.marshal_file fd) (record s { sent = mark_sent fd.name s.sent })
      else s

  -- The loop: `none` where the fuel does not last.
  unfoldable pub search_files : ℕ → List FileDescriptor → Search → Option Search
  search_files fuel [] s = some s
  search_files zero (fd ∷ queue) s = none
  search_files (suc n) (fd ∷ queue) s = elim (visit fd s).failed [
    | some e ↦ some (visit fd s)
    | none ↦ search_files n (queue ++ resolved registry fd.dependencies) (visit fd s)
  ]

  unfoldable pub file_desc_with_dependencies : ℕ → FileDescriptor → GoMap Bool → Option Search
  file_desc_with_dependencies fuel fd sent =
      search_files fuel (fd ∷ []) (record { sent = sent; out = []; failed = none })
