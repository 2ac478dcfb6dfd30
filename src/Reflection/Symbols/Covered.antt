-- ===== src/Reflection/Symbols/Covered.antt =====
-- What holds of the index of getSymbols: its symbols are of the files that they have, and the files
-- that it has processed have their symbols in it.
use nats_grpc.Base.{
  String, ◌≡◌, refl, sym, ap, ◌∙◌, ◌⊎◌, inl, inr, Bool, true, false, Option, none, some,
  if◌then◌else◌, lookup, lookup-insert, lookup-insert_self, if_keeps, if_true, subst, ◌==◌, eq_iff,
}
use nats_grpc.Reflection.{FileDescriptor}
use nats_grpc.Reflection.Symbols.{Index, marked}
use nats_grpc.Reflection.Symbols.Declared.{indexes, lookup-process_symbols}

-- every symbol is one that processFile makes of its file
abbrev pub IsSound : Index → Type 0
IsSound s =
    (name : String) (fd : FileDescriptor) → lookup name s.symbols ≡ some fd → indexes fd name ≡ true

some_if :
    (b : Bool) (fd g : FileDescriptor) (old : Option FileDescriptor)
    → (if b then some fd else old) ≡ some g
    → (old ≡ some g) ⊎ ((b ≡ true) × (fd ≡ g))
some_if true fd g old e = inr (refl, cc)
some_if false fd g old e = inl e

pub marked-IsSound : (fd : FileDescriptor) (s : Index) → IsSound s → IsSound (marked fd s)
marked-IsSound fd s h name g e =
    elim (some_if (indexes fd name) fd g (lookup name s.symbols)
      (sym (lookup-process_symbols fd name s.symbols) ∙ e)) [
        | inl old ↦ h name g old
        | inr (d, eq) ↦ sym (ap (λ f. indexes f name) eq) ∙ d
      ]

abbrev pub has {ℓ} : {A : Type ℓ} → Option A → Bool
has none = false
has (some a) = true

abbrev pub Processed : String → Index → Type 0
Processed name s = has (lookup name s.processed) ≡ true

-- for each name of a processed file, a file of that name has all that processFile makes of it in the index
abbrev pub IsCovered : Index → Type 0
IsCovered s =
    (file : String)
    → Processed file s
    → (g : FileDescriptor) × ((g.name ≡ file)
        × ((name : String) → indexes g name ≡ true → has (lookup name s.symbols) ≡ true))

-- `t` has processed all that `s` has
abbrev pub Later : Index → Index → Type 0
Later s t = (file : String) → Processed file s → Processed file t

marked-keeps :
    (fd : FileDescriptor) (s : Index) (name : String)
    → has (lookup name s.symbols) ≡ true
    → has (lookup name (marked fd s).symbols) ≡ true
marked-keeps fd s name h =
    subst (λ o. has o ≡ true) (sym (lookup-process_symbols fd name s.symbols))
      (if_keeps (λ o. has o ≡ true) (indexes fd name) _ _ refl h)

marked-declared :
    (fd : FileDescriptor) (s : Index) (name : String)
    → indexes fd name ≡ true
    → has (lookup name (marked fd s).symbols) ≡ true
marked-declared fd s name h =
    subst (λ o. has o ≡ true)
      (sym (lookup-process_symbols fd name s.symbols ∙ if_true _ _ (indexes fd name) h)) refl

pub marked-Later : (fd : FileDescriptor) (s : Index) → Later s (marked fd s)
marked-Later fd s file h =
    subst (λ o. has o ≡ true) (sym (lookup-insert fd.name file true s.processed))
      (if_keeps (λ o. has o ≡ true) (fd.name == file) _ _ refl h)

pub marked-Processed : (fd : FileDescriptor) (s : Index) → Processed fd.name (marked fd s)
marked-Processed fd s =
    subst (λ o. has o ≡ true) (sym (lookup-insert_self fd.name true s.processed)) refl

pub marked-IsCovered : (fd : FileDescriptor) (s : Index) → IsCovered s → IsCovered (marked fd s)
marked-IsCovered fd s h file p =
    choose (fd.name == file) refl
      (subst (λ o. has o ≡ true) (lookup-insert fd.name file true s.processed) p)
  where
    choose :
        (b : Bool)
        → (fd.name == file) ≡ b
        → has (if b then some true else lookup file s.processed) ≡ true
        → (g : FileDescriptor) × ((g.name ≡ file)
            × ((name : String)
                → indexes g name ≡ true
                → has (lookup name (marked fd s).symbols) ≡ true))
    choose true e q = (fd, ((eq_iff fd.name file).0 e, λ name d. marked-declared fd s name d))
    choose false e q =
        let (g, (same, all)) = h file q in
        (g, (same, λ name d. marked-keeps fd s name (all name d)))
