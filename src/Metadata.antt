-- ===== src/Metadata.antt =====
-- MakeMetadata of pkg/utils/utils.go, and the loops of pkg/rpc that read an nrpc.Metadata.
use nats_grpc.Base.{
  String, ◌≡◌, ◌≢◌, refl, ◌∙◌, Option, none, some, List, [], ◌∷◌, arith, eq_iff, GoMap, lookup,
  insert, lookup-insert, All,
}
use nats_grpc.Wire.{Strings, Metadata, Md}
use nats_grpc.Env.{Env}

-- the loop of MakeMetadata
unfoldable pub to_wire : Md → GoMap Strings
to_wire [] = []
to_wire ((k, vs) ∷ m) = (k, record { values = vs }) ∷ to_wire m

-- `nil` and empty metadata are left out of the message
unfoldable pub make_metadata : Option Md → Option Metadata
unfolding to_wire
make_metadata none = none
make_metadata (some []) = none
make_metadata (some (e ∷ m)) = some (record { md = to_wire (e ∷ m) })

-- `for hdr, data := range … { md[hdr] = data.Values }`, from `md`
unfoldable pub from_wire : Md → GoMap Strings → Md
from_wire md [] = md
from_wire md ((k, s) ∷ m) = from_wire (insert k s.values md) m

-- the metadata that the server reads from a message, over an empty map
unfoldable pub read_metadata : Metadata → Md
unfolding from_wire
read_metadata m = from_wire [] m.md

-- `nil` metadata leaves the server's metadata nil
unfoldable pub read_optional : Option Metadata → Option Md
unfolding read_metadata
read_optional none = none
read_optional (some m) = some (read_metadata m)

-- `md[k]`, where a nil map has no key
unfoldable pub values : String → Option Md → Option (List String)
unfolding lookup
values k none = none
values k (some md) = lookup k md

-- `for hdr, data := range … { md.Append(hdr, data.Values...) }`
unfoldable pub append_all : {M : Type 0} → Env M → Md → GoMap Strings → Md
append_all env md [] = md
append_all env md ((k, s) ∷ m) = append_all env (env.append md k s.values) m

-- No key stands twice, as in every Go map.
abbrev pub HasDistinctKeys {ℓ} : {V : Type ℓ} → GoMap V → Type 0
HasDistinctKeys [] = Unit
HasDistinctKeys ((k, v) ∷ m) = All (λ e. e.0 ≢ k) m × HasDistinctKeys m

abbrev pub OptionHasDistinctKeys : Option Md → Type 0
OptionHasDistinctKeys none = Unit
OptionHasDistinctKeys (some md) = HasDistinctKeys md

lookup_absent {ℓ} :
    {V : Type ℓ} (k : String) (m : GoMap V) → All (λ e. e.0 ≢ k) m → lookup k m ≡ none
unfolding lookup
lookup_absent k [] h = refl
lookup_absent k ((j, v) ∷ m) (h, hs) = ground (arith, eq_iff j k, lookup_absent k m hs)

-- the first value there is
or_else : Option (List String) → Option (List String) → Option (List String)
or_else (some v) d = some v
or_else none d = d

or_else-none : (d : Option (List String)) → or_else d none ≡ d
unfolding or_else
or_else-none none = refl
or_else-none (some v) = refl

lookup-from_wire :
    (k : String) (md m : Md)
    → HasDistinctKeys m
    → lookup k (from_wire md (to_wire m)) ≡ or_else (lookup k m) (lookup k md)
unfolding lookup from_wire to_wire or_else
lookup-from_wire k md [] h = refl
lookup-from_wire k md ((j, vs) ∷ m) (h, hs) = ground (
  arith,
  lookup-from_wire k (insert j vs md) m hs,
  lookup-insert j k vs md,
  eq_iff j k,
  lookup_absent j m h,
)

-- Metadata that the sender hands to MakeMetadata, nil and empty metadata included, is read back by
-- the server as the same map: under every key stand the values that the sender set, in their order,
-- and under no other key anything.
pub read_optional-make_metadata :
    (k : String) (md : Option Md)
    → OptionHasDistinctKeys md
    → values k (read_optional (make_metadata md)) ≡ values k md
unfolding make_metadata read_optional values
read_optional-make_metadata k none h = refl
read_optional-make_metadata k (some []) h = refl
read_optional-make_metadata k (some (e ∷ m)) h =
    lookup-from_wire k [] (e ∷ m) h ∙ or_else-none (lookup k (e ∷ m))
