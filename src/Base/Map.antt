-- ===== src/Base/Map.antt =====
-- Go maps with text keys, as association lists without an order that the code could rely on.
use Prim.Native.String.{String}
use mathlib.Core.Path.{◌≡◌}
use mathlib.Core.Option.{Option, none, some}
use mathlib.Core.List.{List, [], ◌∷◌, map}
use native.Mathlib.Omega.{arith}
use text.Mathlib.Text.{◌==◌}
use text.Mathlib.TextEquality.{eq_iff}
use text.Mathlib.TextPositions.{eq_refl}
use nats_grpc.Base.Cases.{if◌then◌else◌}

abbrev pub GoMap {ℓ} : Type ℓ → Type ℓ
GoMap V = List (String × V)

module _ {ℓ} {V : Type ℓ} where
  -- `m[k]`, with the second result of `v, ok := m[k]`
  unfoldable pub lookup : String → GoMap V → Option V
  lookup k [] = none
  lookup k ((j, v) ∷ m) = if j == k then some v else lookup k m

  -- `delete(m, k)`
  unfoldable pub delete : String → GoMap V → GoMap V
  delete k [] = []
  delete k ((j, v) ∷ m) = let rest = delete k m in if j == k then rest else (j, v) ∷ rest

  -- `m[k] = v`: a key keeps its place
  unfoldable pub insert : String → V → GoMap V → GoMap V
  insert k v [] = (k, v) ∷ []
  insert k v ((j, w) ∷ m) = let rest = insert k v m in if j == k then (j, v) ∷ m else (j, w) ∷ rest

  abbrev pub keys : GoMap V → List String
  keys = map (λ e. e.0)

  -- what a write of one key and a delete of it leave under another
  module _ (written wanted : String) where
    pub lookup-insert :
        (x : V) (m : GoMap V)
        → lookup wanted (insert written x m)
          ≡ (if written == wanted then some x else lookup wanted m)
    unfolding lookup insert
    lookup-insert x [] = ground arith
    lookup-insert x ((first, y) ∷ more) = ground (
      arith,
      eq_iff written wanted,
      lookup-insert x more,
      eq_iff first wanted,
      eq_iff first written,
    )

    pub lookup-delete :
        (m : GoMap V)
        → lookup wanted (delete written m) ≡ (if written == wanted then none else lookup wanted m)
    unfolding lookup delete
    lookup-delete [] = ground arith
    lookup-delete ((first, y) ∷ more) = ground (
      arith,
      eq_iff written wanted,
      lookup-delete more,
      eq_iff first wanted,
      eq_iff first written,
    )

  pub lookup-insert_self : (k : String) (v : V) (m : GoMap V) → lookup k (insert k v m) ≡ some v
  lookup-insert_self k v m = rw (lookup-insert k k v m, eq_refl k)

  pub lookup-delete_self : (k : String) (m : GoMap V) → lookup k (delete k m) ≡ none
  lookup-delete_self k m = rw (lookup-delete k k m, eq_refl k)
