-- ===== src/GoMap/Keys.antt =====
-- Maps whose values carry their own keys stay so.
use libreseed.Prelude.{◌≡◌, Bool, [], ◌∷◌, some, arith, if_pos, if_neg, ◌∙◌}
use libreseed.GoMap.{GoMap, retain, lookup, insert, delete, Keyed}

module _ {ℓ} {K V : Type ℓ} (dec : Discrete K) (key_of : V → K) where
  pub insert-Keyed :
      (k : K) (v : V) (m : GoMap K V)
      → key_of v ≡ k
      → Keyed key_of m
      → Keyed key_of (insert dec k v m)
  unfolding insert
  insert-Keyed k v [] h a = (h, tt)
  insert-Keyed k v ((i, w) ∷ m) h a = elim (dec k i) [
    | yes e ↦ rw (if_pos _ e) (h ∙ e, a.1)
    | no e ↦ rw (if_neg _ e) (a.0, insert-Keyed k v m h a.1)
  ]

  pub delete-Keyed : (k : K) (m : GoMap K V) → Keyed key_of m → Keyed key_of (delete dec k m)
  unfolding delete
  delete-Keyed k [] a = tt
  delete-Keyed k ((i, w) ∷ m) a = elim (dec k i) [
    | yes e ↦ rw (if_pos _ e) (delete-Keyed k m a.1)
    | no e ↦ rw (if_neg _ e) (a.0, delete-Keyed k m a.1)
  ]

  pub lookup-Keyed :
      (k : K) (v : V) (m : GoMap K V) → Keyed key_of m → lookup dec k m ≡ some v → key_of v ≡ k
  unfolding lookup
  lookup-Keyed k v [] a h = absurd (cc)
  lookup-Keyed k v ((i, w) ∷ m) a h = elim (dec k i) [
    | yes e ↦ ground arith
    | no e ↦ lookup-Keyed k v m a.1 (ground arith)
  ]

module _ {ℓ} {K V : Type ℓ} (key_of : V → K) where
  pub retain-Keyed : (p : K → V → Bool) (m : GoMap K V) → Keyed key_of m → Keyed key_of (retain p m)
  unfolding retain
  retain-Keyed p [] a = tt
  retain-Keyed p ((i, w) ∷ m) a = ground (arith, retain-Keyed p m a.1)
