-- ===== src/Reflection/Files/Queue.antt =====
-- The map of sent files, and the queue of fileDescWithDependencies with the work that it stands for.
use nats_grpc.Base.{
  ℕ, zero, suc, ◌+◌, String, ◌≡◌, refl, sym, ap, ◌∙◌, append_assoc, Bool, true, false, List, [],
  ◌∷◌, ◌++◌, arith, All, GoMap, lookup-insert, lookup-insert_self,
}
use nats_grpc.Reflection.{Registry, FileDescriptor, resolved, Acyclic, Imports}
use nats_grpc.Reflection.Files.{is_sent, mark_sent}

-- the map after a list of files has been sent
abbrev pub mark_all : List FileDescriptor → GoMap Bool → GoMap Bool
mark_all [] sent = sent
mark_all (fd ∷ more) sent = mark_all more (mark_sent fd.name sent)

-- each file of a list had not been sent when its turn came
abbrev pub Fresh : List FileDescriptor → GoMap Bool → Type 0
Fresh [] sent = Unit
Fresh (fd ∷ more) sent = (is_sent fd.name sent ≡ false) × Fresh more (mark_sent fd.name sent)

abbrev pub sum_by : (FileDescriptor → ℕ) → List FileDescriptor → ℕ
sum_by f [] = 0
sum_by f (fd ∷ more) = f fd + sum_by f more

pub mark_sent-keeps :
    (name other : String) (sent : GoMap Bool)
    → is_sent name sent ≡ true
    → is_sent name (mark_sent other sent) ≡ true
unfolding is_sent mark_sent
mark_sent-keeps name other sent h = ground (arith, lookup-insert other name true sent)

pub mark_sent_self : (name : String) (sent : GoMap Bool) → is_sent name (mark_sent name sent) ≡ true
unfolding is_sent mark_sent
mark_sent_self name sent = rw (lookup-insert_self name true sent) refl

pub mark_all-keeps :
    (files : List FileDescriptor) (name : String) (sent : GoMap Bool)
    → is_sent name sent ≡ true
    → is_sent name (mark_all files sent) ≡ true
mark_all-keeps [] name sent h = h
mark_all-keeps (fd ∷ more) name sent h =
    mark_all-keeps more name (mark_sent fd.name sent) (mark_sent-keeps name fd.name sent h)

module _ {T : Type 0} (registry : Registry T) where
  -- the files that the loop takes from the queue for a file, where its imports are at most `n` deep
  abbrev pub visits : ℕ → FileDescriptor → ℕ
  visits zero fd = 1
  visits (suc n) fd = suc (sum_by (visits n) (resolved registry fd.dependencies))

  -- a queue, each file with the depth of its imports
  abbrev pub Ranked : Type 0
  Ranked = List (ℕ × FileDescriptor)

  abbrev pub files_of : Ranked → List FileDescriptor
  files_of [] = []
  files_of (e ∷ more) = e.1 ∷ files_of more

  abbrev pub total : Ranked → ℕ
  total [] = 0
  total (e ∷ more) = visits e.0 e.1 + total more

  abbrev pub ranked : ℕ → List FileDescriptor → Ranked
  ranked n [] = []
  ranked n (fd ∷ more) = (n, fd) ∷ ranked n more

  unfoldable pub Acyclics : Ranked → Type 0
  Acyclics q = All (λ e. Acyclic registry e.0 e.1) q

  pub files_of-append :
      (n : ℕ) (q : Ranked) (more : List FileDescriptor)
      → files_of (q ++ ranked n more) ≡ files_of q ++ more
  files_of-append n [] [] = refl
  files_of-append n [] (fd ∷ more) = ap (λ t. fd ∷ t) (files_of-append n [] more)
  files_of-append n (e ∷ q) more = ap (λ t. e.1 ∷ t) (files_of-append n q more)

  pub total-append :
      (n : ℕ) (q : Ranked) (more : List FileDescriptor)
      → total (q ++ ranked n more) ≡ total q + sum_by (visits n) more
  total-append n [] [] = refl
  total-append n [] (fd ∷ more) = omega (arith, total-append n [] more)
  total-append n (e ∷ q) more = omega (arith, total-append n q more)

  pub Acyclics-append :
      (n : ℕ) (q : Ranked) (more : List FileDescriptor)
      → Acyclics q
      → All (Acyclic registry n) more
      → Acyclics (q ++ ranked n more)
  unfolding Acyclics
  Acyclics-append n [] [] h k = tt
  Acyclics-append n [] (fd ∷ more) h k = (k.0, Acyclics-append n [] more tt k.1)
  Acyclics-append n (e ∷ q) more h k = (h.0, Acyclics-append n q more h.1 k)

  pub All-left :
      (P : FileDescriptor → Type 0) (xs ys : List FileDescriptor) → All P (xs ++ ys) → All P xs
  All-left P [] ys h = tt
  All-left P (x ∷ xs) ys h = (h.0, All-left P xs ys h.1)

  pub All-right :
      (P : FileDescriptor → Type 0) (xs ys : List FileDescriptor) → All P (xs ++ ys) → All P ys
  All-right P [] ys h = h
  All-right P (x ∷ xs) ys h = All-right P xs ys h.1

  -- A file is below `root` if it is `root`, or an import of a file below it.
  pub data Below (root : FileDescriptor) : FileDescriptor → Type 0 where
    itself : Below root root
    imported :
        (fd : FileDescriptor) (before : List FileDescriptor) (d : FileDescriptor)
        (after : List FileDescriptor)
        → Below root fd
        → resolved registry fd.dependencies ≡ before ++ d ∷ after
        → Below root d

  pub imports-Below :
      (root fd : FileDescriptor) (before deps : List FileDescriptor)
      → Below root fd
      → resolved registry fd.dependencies ≡ before ++ deps
      → All (Below root) deps
  imports-Below root fd before [] b e = tt
  imports-Below root fd before (d ∷ deps) b e = (
    imported fd before d deps b e,
    imports-Below root fd (before ++ d ∷ []) deps b (e ∙ sym (append_assoc before (d ∷ []) deps)),
  )

  -- what holds of the imports of a file at every depth holds of the file, if it holds of the file itself
  pub Imports-below :
      (P : FileDescriptor → Type 0) (n : ℕ) (deps : List FileDescriptor)
      → All (λ fd. (n : ℕ) → Imports registry P n fd) deps
      → All (Imports registry P n) deps
  Imports-below P n [] h = tt
  Imports-below P n (d ∷ deps) h = (h.0 n, Imports-below P n deps h.1)

  pub Imports-at :
      (P : FileDescriptor → Type 0) (fd : FileDescriptor)
      → P fd
      → All (λ d. (n : ℕ) → Imports registry P n d) (resolved registry fd.dependencies)
      → (n : ℕ) → Imports registry P n fd
  Imports-at P fd p h zero = p
  Imports-at P fd p h (suc n) = (p, Imports-below P n (resolved registry fd.dependencies) h)
