-- ===== src/GoMap/Laws.antt =====
-- The laws of maps: what a lookup finds after each operation, sizes, and that keys stay distinct.
use libreseed.Prelude.{
  ◌+◌, ◌≡◌, ◌≢◌, refl, Bool, [], ◌∷◌, Option, none, some, ite, arith, length, if◌then◌else◌, All,
  if_pos, if_neg, subst,
}
use libreseed.GoMap.{GoMap, values, retain, lookup, insert, delete, Distinct}

module _ {ℓ} {K V : Type ℓ} (dec : Discrete K) where
  pub lookup-insert :
      (k j : K) (v : V) (m : GoMap K V)
      → lookup dec j (insert dec k v m) ≡ ite (dec j k) (some v) (lookup dec j m)
  unfolding lookup insert
  lookup-insert k j v [] = refl
  lookup-insert k j v ((i, w) ∷ m) = ground (arith, lookup-insert k j v m)

  pub lookup-insert_self :
      (k : K) (v : V) (m : GoMap K V) → lookup dec k (insert dec k v m) ≡ some v
  lookup-insert_self k v m = ground (arith, lookup-insert k k v m)

  pub lookup-insert_ne :
      (k j : K) (v : V) (m : GoMap K V) → j ≢ k → lookup dec j (insert dec k v m) ≡ lookup dec j m
  lookup-insert_ne k j v m h = ground (arith, lookup-insert k j v m)

  pub lookup-delete :
      (k j : K) (m : GoMap K V)
      → lookup dec j (delete dec k m) ≡ ite (dec j k) none (lookup dec j m)
  unfolding lookup delete
  lookup-delete k j [] = ground arith
  lookup-delete k j ((i, w) ∷ m) = ground (arith, lookup-delete k j m)

  pub delete_absent : (k : K) (m : GoMap K V) → lookup dec k m ≡ none → delete dec k m ≡ m
  unfolding lookup delete
  delete_absent k [] h = refl
  delete_absent k ((i, w) ∷ m) h = ground (arith, delete_absent k m)

  pub insert-Distinct :
      (k : K) (v : V) (m : GoMap K V) → Distinct dec m → Distinct dec (insert dec k v m)
  unfolding lookup insert
  insert-Distinct k v [] d = (refl, tt)
  insert-Distinct k v ((i, w) ∷ m) d =
      ground (arith, insert-Distinct k v m d.1, lookup-insert k i v m)

  pub delete-Distinct : (k : K) (m : GoMap K V) → Distinct dec m → Distinct dec (delete dec k m)
  unfolding lookup delete
  delete-Distinct k [] d = tt
  delete-Distinct k ((i, w) ∷ m) d = ground (arith, delete-Distinct k m d.1, lookup-delete k i m)

  pub lookup-retain_absent :
      (p : K → V → Bool) (k : K) (m : GoMap K V)
      → lookup dec k m ≡ none
      → lookup dec k (retain p m) ≡ none
  unfolding lookup retain
  lookup-retain_absent p k [] h = refl
  lookup-retain_absent p k ((i, w) ∷ m) h = ground (arith, lookup-retain_absent p k m)

  pub retain-Distinct :
      (p : K → V → Bool) (m : GoMap K V) → Distinct dec m → Distinct dec (retain p m)
  unfolding retain
  retain-Distinct p [] d = tt
  retain-Distinct p ((i, w) ∷ m) d =
      ground (arith, retain-Distinct p m d.1, lookup-retain_absent p i m d.0)

  pub keep_if : (K → V → Bool) → K → Option V → Option V
  keep_if p k none = none
  keep_if p k (some v) = if p k v then some v else none

  pub lookup-retain :
      (p : K → V → Bool) (k : K) (m : GoMap K V)
      → Distinct dec m
      → lookup dec k (retain p m) ≡ keep_if p k (lookup dec k m)
  unfolding lookup retain keep_if
  lookup-retain p k [] d = refl
  lookup-retain p k ((i, w) ∷ m) d =
      ground (arith, lookup-retain p k m d.1, lookup-retain_absent p i m d.0)

  -- A write adds an entry exactly when the key is new.
  pub length-insert_new :
      (k : K) (v : V) (m : GoMap K V)
      → lookup dec k m ≡ none
      → length (insert dec k v m) ≡ length m + 1
  unfolding lookup insert
  length-insert_new k v [] h = omega arith
  length-insert_new k v ((i, w) ∷ m) h = ground (arith, length-insert_new k v m)

  pub length-insert_old :
      (k : K) (v w : V) (m : GoMap K V)
      → lookup dec k m ≡ some w
      → length (insert dec k v m) ≡ length m
  unfolding lookup insert
  length-insert_old k v w [] h = cc
  length-insert_old k v w ((i, u) ∷ m) h = ground (arith, length-insert_old k v w m)

  pub length-delete :
      (k : K) (w : V) (m : GoMap K V)
      → Distinct dec m
      → lookup dec k m ≡ some w
      → length (delete dec k m) + 1 ≡ length m
  unfolding lookup delete
  length-delete k w [] d h = cc
  length-delete k w ((i, u) ∷ m) d h =
      ground (arith, length-delete k w m d.1, delete_absent i m d.0)

  -- A predicate that holds of every value is kept by a write of a value that has it.
  pub insert-All {ι} :
      (P : V → Type ι) (k : K) (v : V) (m : GoMap K V)
      → P v
      → All P (values m)
      → All P (values (insert dec k v m))
  unfolding insert
  insert-All P k v [] h a = (h, tt)
  insert-All P k v ((i, w) ∷ m) h a = elim (dec k i) [
    | yes e ↦ rw (if_pos _ e) (h, a.1)
    | no e ↦ rw (if_neg _ e) (a.0, insert-All P k v m h a.1)
  ]

  pub delete-All {ι} :
      (P : V → Type ι) (k : K) (m : GoMap K V) → All P (values m) → All P (values (delete dec k m))
  unfolding delete
  delete-All P k [] a = tt
  delete-All P k ((i, w) ∷ m) a = elim (dec k i) [
    | yes e ↦ rw (if_pos _ e) (delete-All P k m a.1)
    | no e ↦ rw (if_neg _ e) (a.0, delete-All P k m a.1)
  ]

  pub lookup-All {ι} :
      (P : V → Type ι) (k : K) (v : V) (m : GoMap K V)
      → All P (values m)
      → lookup dec k m ≡ some v
      → P v
  unfolding lookup
  lookup-All P k v [] a h = absurd (cc)
  lookup-All P k v ((i, w) ∷ m) a h = elim (dec k i) [
    | yes e ↦ subst P (ground arith) a.0
    | no e ↦ lookup-All P k v m a.1 (ground arith)
  ]
