-- ===== src/Reflection/Symbols/Declared.antt =====
-- The names of a file, and the index that processFile makes of them. Protobuf names the values of an
-- enum beside the enum, in its scope; processEnum enters them under the enum's name.
use nats_grpc.Base.{
  String, ◌≡◌, refl, sym, ap, ◌∙◌, Bool, some, List, [], ◌∷◌, ◌++◌, map, arith, ◌==◌, any, ◌||◌,
  if◌then◌else◌, lookup, insert, lookup-insert,
}
use nats_grpc.Reflection.{
  EnumDescriptor, MessageParts, MessageDescriptor, message, Messages, nil, cons, ServiceDescriptor,
  FileDescriptor, fqn,
}
use nats_grpc.Reflection.Symbols.{
  Symbols, process_field, process_fields, process_enum, process_enums, process_parts,
  process_message, process_messages, process_service, process_services, process_symbols,
}

-- the names as the loops enter them, in their order
abbrev enum_names : String → List EnumDescriptor → List String
enum_names prefix [] = []
enum_names prefix (en ∷ more) =
    (fqn prefix en.name ∷ map (fqn (fqn prefix en.name)) en.values) ++ enum_names prefix more

abbrev part_names : String → MessageParts → List String
part_names name parts =
    enum_names name parts.enums
    ++ (map (fqn name) parts.extensions
        ++ (map (fqn name) parts.fields ++ map (fqn name) parts.oneofs))

unfoldable mutual
  message_names : String → MessageDescriptor → List String
  message_names prefix (message name nested parts) =
      fqn prefix name ∷ messages_names (fqn prefix name) nested
      ++ part_names (fqn prefix name) parts

  messages_names : String → Messages → List String
  messages_names prefix nil = []
  messages_names prefix (cons msg more) = message_names prefix msg ++ messages_names prefix more

abbrev pub service_names : String → List ServiceDescriptor → List String
service_names prefix [] = []
service_names prefix (svc ∷ more) =
    (fqn prefix svc.name ∷ map (fqn (fqn prefix svc.name)) svc.methods) ++ service_names prefix more

unfoldable entered : FileDescriptor → List String
entered fd =
    messages_names fd.package_name fd.messages
    ++ (enum_names fd.package_name fd.enums
        ++ (map (fqn fd.package_name) fd.extensions ++ service_names fd.package_name fd.services))

-- The names that protobuf declares, but for the values of enums: an enum has its own name only.
abbrev pub enum_heads : String → List EnumDescriptor → List String
enum_heads prefix ens = map (λ (en : EnumDescriptor). fqn prefix en.name) ens

abbrev pub part_heads : String → MessageParts → List String
part_heads name parts =
    enum_heads name parts.enums
    ++ (map (fqn name) parts.extensions
        ++ (map (fqn name) parts.fields ++ map (fqn name) parts.oneofs))

unfoldable mutual
  pub message_heads : String → MessageDescriptor → List String
  message_heads prefix (message name nested parts) =
      fqn prefix name ∷ messages_heads (fqn prefix name) nested
      ++ part_heads (fqn prefix name) parts

  pub messages_heads : String → Messages → List String
  messages_heads prefix nil = []
  messages_heads prefix (cons msg more) = message_heads prefix msg ++ messages_heads prefix more

unfoldable pub declared : FileDescriptor → List String
declared fd =
    messages_heads fd.package_name fd.messages
    ++ (enum_heads fd.package_name fd.enums
        ++ (map (fqn fd.package_name) fd.extensions ++ service_names fd.package_name fd.services))

-- The values of the enums, each under the name of its enum.
abbrev pub values_below : String → List EnumDescriptor → List String
values_below prefix [] = []
values_below prefix (en ∷ more) =
    map (fqn (fqn prefix en.name)) en.values ++ values_below prefix more

unfoldable mutual
  pub message_values : String → MessageDescriptor → List String
  message_values prefix (message name nested parts) =
      messages_values (fqn prefix name) nested ++ values_below (fqn prefix name) parts.enums

  pub messages_values : String → Messages → List String
  messages_values prefix nil = []
  messages_values prefix (cons msg more) = message_values prefix msg ++ messages_values prefix more

unfoldable pub enum_values : FileDescriptor → List String
enum_values fd =
    messages_values fd.package_name fd.messages ++ values_below fd.package_name fd.enums

abbrev pub one_of : String → List String → Bool
one_of name names = any (λ d. d == name) names

-- whether the file declares a name that is no enum value's, or has an enum value under its enum
abbrev pub indexes : FileDescriptor → String → Bool
indexes fd name = one_of name (declared fd) || one_of name (enum_values fd)

-- The names `all` are the names `heads` and the names `values`.
module _ (name : String) where
  Splits : List String → List String → List String → Type 0
  Splits all heads values = one_of name all ≡ (one_of name heads || one_of name values)

  one_of-append :
      (xs ys : List String) → one_of name (xs ++ ys) ≡ (one_of name xs || one_of name ys)
  one_of-append [] ys = refl
  one_of-append (x ∷ xs) ys = ground (arith, one_of-append xs ys)

  plain : (xs : List String) → Splits xs xs []
  unfolding Splits
  plain xs = ground arith

  apart :
      (all heads values all2 heads2 values2 : List String)
      → Splits all heads values
      → Splits all2 heads2 values2
      → Splits (all ++ all2) (heads ++ heads2) (values ++ values2)
  unfolding Splits
  apart all heads values all2 heads2 values2 h k = ground (
    arith,
    one_of-append all all2,
    one_of-append heads heads2,
    one_of-append values values2,
    h,
    k,
  )

  with_plain :
      (all heads values more : List String)
      → Splits all heads values
      → Splits (all ++ more) (heads ++ more) values
  unfolding Splits
  with_plain all heads values more h =
      ground (arith, one_of-append all more, one_of-append heads more, h)

  enum_names-Splits :
      (prefix : String) (ens : List EnumDescriptor)
      → Splits (enum_names prefix ens) (enum_heads prefix ens) (values_below prefix ens)
  unfolding Splits
  enum_names-Splits prefix [] = refl
  enum_names-Splits prefix (en ∷ more) =
      let own = map (fqn (fqn prefix en.name)) en.values in
      ground (
        arith,
        one_of-append own (enum_names prefix more),
        one_of-append own (values_below prefix more),
        enum_names-Splits prefix more,
      )

  part_names-Splits :
      (prefix : String) (parts : MessageParts)
      → Splits (part_names prefix parts) (part_heads prefix parts) (values_below prefix parts.enums)
  part_names-Splits prefix parts =
      with_plain (enum_names prefix parts.enums) (enum_heads prefix parts.enums)
        (values_below prefix parts.enums) _ (enum_names-Splits prefix parts.enums)

  mutual
    unfolding Splits message_names messages_names message_heads messages_heads message_values
        messages_values

    message_names-Splits :
        (prefix : String) (msg : MessageDescriptor)
        → Splits (message_names prefix msg) (message_heads prefix msg) (message_values prefix msg)
    message_names-Splits prefix (message inner nested parts) =
        let here = fqn prefix inner in
        let h =
          apart (messages_names here nested) (messages_heads here nested)
            (messages_values here nested) (part_names here parts) (part_heads here parts)
            (values_below here parts.enums) (messages_names-Splits here nested)
            (part_names-Splits here parts) in
        ground (arith, h)

    messages_names-Splits :
        (prefix : String) (msgs : Messages)
        → Splits
            (messages_names prefix msgs)
            (messages_heads prefix msgs)
            (messages_values prefix msgs)
    messages_names-Splits prefix nil = refl
    messages_names-Splits prefix (cons msg more) =
        apart (message_names prefix msg) (message_heads prefix msg) (message_values prefix msg)
          (messages_names prefix more) (messages_heads prefix more) (messages_values prefix more)
          (message_names-Splits prefix msg) (messages_names-Splits prefix more)

  entered-indexes : (fd : FileDescriptor) → one_of name (entered fd) ≡ indexes fd name
  unfolding entered declared enum_values Splits
  entered-indexes fd =
      let prefix = fd.package_name in
      apart (messages_names prefix fd.messages) (messages_heads prefix fd.messages)
        (messages_values prefix fd.messages) _ _ (values_below prefix fd.enums)
        (messages_names-Splits prefix fd.messages)
        (with_plain (enum_names prefix fd.enums) (enum_heads prefix fd.enums)
          (values_below prefix fd.enums)
          (map (fqn prefix) fd.extensions ++ service_names prefix fd.services)
          (enum_names-Splits prefix fd.enums))

module _ (fd : FileDescriptor) where
  insert_all : List String → Symbols → Symbols
  insert_all [] m = m
  insert_all (name ∷ names) m = insert_all names (insert name fd m)

  insert_all-append :
      (xs ys : List String) (m : Symbols)
      → insert_all (xs ++ ys) m ≡ insert_all ys (insert_all xs m)
  unfolding insert_all
  insert_all-append [] ys m = refl
  insert_all-append (x ∷ xs) ys m = insert_all-append xs ys (insert x fd m)

  lookup-insert_all :
      (names : List String) (name : String) (m : Symbols)
      → lookup name (insert_all names m)
        ≡ (if any (λ d. d == name) names then some fd else lookup name m)
  unfolding insert_all
  lookup-insert_all [] name m = refl
  lookup-insert_all (d ∷ names) name m =
      ground (arith, lookup-insert_all names name (insert d fd m), lookup-insert d name fd m)

  -- a step that writes the names of a list, in its order
  Writes : (Symbols → Symbols) → List String → Type 0
  Writes f names = (m : Symbols) → f m ≡ insert_all names m

  both :
      (f g : Symbols → Symbols) (xs ys : List String)
      → Writes f xs
      → Writes g ys
      → Writes (λ m. g (f m)) (xs ++ ys)
  unfolding Writes
  both f g xs ys hf hg m = ap g (hf m) ∙ hg (insert_all xs m) ∙ sym (insert_all-append xs ys m)

  process_fields-Writes :
      (prefix : String) (names : List String)
      → Writes (process_fields fd prefix names) (map (fqn prefix) names)
  unfolding Writes process_fields process_field insert_all
  process_fields-Writes prefix [] m = refl
  process_fields-Writes prefix (name ∷ names) m =
      process_fields-Writes prefix names (insert (fqn prefix name) fd m)

  -- a name, and the names below it
  process_named-Writes :
      (name : String) (names : List String)
      → Writes (λ m. process_fields fd name names (insert name fd m)) (name ∷ map (fqn name) names)
  unfolding Writes insert_all
  process_named-Writes name names m = process_fields-Writes name names (insert name fd m)

  process_enums-Writes :
      (prefix : String) (ens : List EnumDescriptor)
      → Writes (process_enums fd prefix ens) (enum_names prefix ens)
  unfolding Writes process_enums process_enum insert_all
  process_enums-Writes prefix [] m = refl
  process_enums-Writes prefix (en ∷ more) m =
      both _ (process_enums fd prefix more)
        (fqn prefix en.name ∷ map (fqn (fqn prefix en.name)) en.values) (enum_names prefix more)
        (process_named-Writes (fqn prefix en.name) en.values) (process_enums-Writes prefix more) m

  process_services-Writes :
      (prefix : String) (svcs : List ServiceDescriptor)
      → Writes (process_services fd prefix svcs) (service_names prefix svcs)
  unfolding Writes process_services process_service insert_all
  process_services-Writes prefix [] m = refl
  process_services-Writes prefix (svc ∷ more) m =
      both _ (process_services fd prefix more)
        (fqn prefix svc.name ∷ map (fqn (fqn prefix svc.name)) svc.methods)
        (service_names prefix more) (process_named-Writes (fqn prefix svc.name) svc.methods)
        (process_services-Writes prefix more) m

  process_parts-Writes :
      (name : String) (parts : MessageParts)
      → Writes (process_parts fd name parts) (part_names name parts)
  unfolding process_parts Writes
  process_parts-Writes name parts m =
      let fields =
        both (process_fields fd name parts.fields) (process_fields fd name parts.oneofs)
          (map (fqn name) parts.fields) (map (fqn name) parts.oneofs)
          (process_fields-Writes name parts.fields) (process_fields-Writes name parts.oneofs) in
      let rest =
        both (process_fields fd name parts.extensions) _ (map (fqn name) parts.extensions) _
          (process_fields-Writes name parts.extensions) fields in
      both (process_enums fd name parts.enums) _ (enum_names name parts.enums) _
        (process_enums-Writes name parts.enums) rest m

  mutual
    unfolding Writes process_message process_messages message_names messages_names insert_all

    process_message-Writes :
        (prefix : String) (msg : MessageDescriptor)
        → Writes (process_message fd prefix msg) (message_names prefix msg)
    process_message-Writes prefix (message name nested parts) m =
        both (process_messages fd (fqn prefix name) nested)
          (process_parts fd (fqn prefix name) parts) (messages_names (fqn prefix name) nested)
          (part_names (fqn prefix name) parts) (process_messages-Writes (fqn prefix name) nested)
          (process_parts-Writes (fqn prefix name) parts) (insert (fqn prefix name) fd m)

    process_messages-Writes :
        (prefix : String) (msgs : Messages)
        → Writes (process_messages fd prefix msgs) (messages_names prefix msgs)
    process_messages-Writes prefix nil m = refl
    process_messages-Writes prefix (cons msg more) m =
        both (process_message fd prefix msg) (process_messages fd prefix more)
          (message_names prefix msg) (messages_names prefix more)
          (process_message-Writes prefix msg) (process_messages-Writes prefix more) m

  process_symbols-Writes : Writes (process_symbols fd) (entered fd)
  unfolding process_symbols entered Writes
  process_symbols-Writes m =
      let prefix = fd.package_name in
      let rest =
        both (process_fields fd prefix fd.extensions) (process_services fd prefix fd.services)
          (map (fqn prefix) fd.extensions) (service_names prefix fd.services)
          (process_fields-Writes prefix fd.extensions)
          (process_services-Writes prefix fd.services) in
      let enums =
        both (process_enums fd prefix fd.enums) _ (enum_names prefix fd.enums) _
          (process_enums-Writes prefix fd.enums) rest in
      both (process_messages fd prefix fd.messages) _ (messages_names prefix fd.messages) _
        (process_messages-Writes prefix fd.messages) enums m

pub lookup-process_symbols :
    (fd : FileDescriptor) (name : String) (symbols : Symbols)
    → lookup name (process_symbols fd symbols) ≡ (
        if one_of name (declared fd) || one_of name (enum_values fd)
        then some fd
        else lookup name symbols)
unfolding Writes
lookup-process_symbols fd name symbols =
    ap (lookup name) (process_symbols-Writes fd symbols)
    ∙ lookup-insert_all fd (entered fd) name symbols
    ∙ ap (λ b. if b then some fd else lookup name symbols) (entered-indexes name fd)
