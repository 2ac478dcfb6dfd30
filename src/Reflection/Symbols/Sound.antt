-- ===== src/Reflection/Symbols/Sound.antt =====
-- getSymbols ends, and its index is that of the files that it has processed.
use nats_grpc.Base.{ℕ, ◌≡◌, Option, none, some, All, GoMap}
use nats_grpc.Wire.{Bytes, Result, ok, err}
use nats_grpc.Reflection.{
  FileDescriptor, Registry, ServiceMetadata, decode_file_desc, parse_metadata, Acyclic,
}
use nats_grpc.Reflection.Symbols.{Index}
use nats_grpc.Reflection.Symbols.Covered.{IsSound, IsCovered, Processed, Later}

-- A step from `s` that returned, with an index that is sound and covered, that has processed all
-- that `s` has, and of which `Q` holds.
Returned : Index → (Index → Type 0) → Option Index → Type 0
Returned s Q o = (t : Index) × ((o ≡ some t) × (IsSound t × (IsCovered t × (Later s t × Q t))))

abbrev Always : Index → Type 0
Always t = Unit

module _ {T : Type 0} (registry : Registry T) where
  -- the imports of the file of a service, where it has one, are at most `n` deep
  abbrev pub DecodedAcyclic : ℕ → Result FileDescriptor → Type 0
  DecodedAcyclic n (ok fd) = Acyclic registry n fd
  DecodedAcyclic n (err e) = Unit

  abbrev pub ServiceAcyclic : ℕ → Option Bytes → Type 0
  ServiceAcyclic n none = Unit
  ServiceAcyclic n (some enc) = DecodedAcyclic n (decode_file_desc registry enc)

  -- the file of a service, where it has one, has been processed
  abbrev pub DecodedProcessed : Result FileDescriptor → Index → Type 0
  DecodedProcessed (ok fd) t = Processed fd.name t
  DecodedProcessed (err e) t = Unit

  abbrev pub ServiceProcessed : Option Bytes → Index → Type 0
  ServiceProcessed none t = Unit
  ServiceProcessed (some enc) t = DecodedProcessed (decode_file_desc registry enc) t

  abbrev pub AllProcessed : GoMap ServiceMetadata → Index → Type 0
  AllProcessed services t = All (λ e. ServiceProcessed (parse_metadata registry e.1) t) services
