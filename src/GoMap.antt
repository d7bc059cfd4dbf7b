-- ===== src/GoMap.antt =====
-- Go's maps: an association list with one entry for each key. The order of the list stands for the
-- order in which `range` meets the entries.
pub mod Laws
pub mod Keys
pub mod Sums
pub mod Append
use libreseed.Prelude.{
  ℕ, ◌≡◌, Bool, true, false, not, List, [], ◌∷◌, map, Option, none, some, ite, length,
  if◌then◌else◌,
}

abbrev pub GoMap {ℓ} : Type ℓ → Type ℓ → Type ℓ
GoMap K V = List (K × V)

module _ {ℓ} {K V : Type ℓ} where
  -- The values in the order of `range`.
  abbrev pub values : GoMap K V → List V
  values = map (λ e. e.1)

  -- The entries that pass a test, in order: what is left after a loop that deletes the others.
  unfoldable pub retain : (K → V → Bool) → GoMap K V → GoMap K V
  retain p [] = []
  retain p ((k, v) ∷ m) = if p k v then (k, v) ∷ retain p m else retain p m

module _ {ℓ} {K V : Type ℓ} (dec : Discrete K) where
  unfoldable pub lookup : K → GoMap K V → Option V
  lookup k [] = none
  lookup k ((j, v) ∷ m) = ite (dec k j) (some v) (lookup k m)

  -- `m[k] = v`.
  unfoldable pub insert : K → V → GoMap K V → GoMap K V
  insert k v [] = (k, v) ∷ []
  insert k v ((j, w) ∷ m) = ite (dec k j) ((j, v) ∷ m) ((j, w) ∷ insert k v m)

  -- `delete(m, k)`.
  unfoldable pub delete : K → GoMap K V → GoMap K V
  delete k [] = []
  delete k ((j, v) ∷ m) = ite (dec k j) (delete k m) ((j, v) ∷ delete k m)

  -- No key stands twice.
  abbrev pub Distinct : GoMap K V → Type ℓ
  Distinct [] = Unit
  Distinct ((k, v) ∷ m) = (lookup k m ≡ none) × Distinct m

-- Each value is stored under the key that it carries.
abbrev pub Keyed {ℓ} : {K V : Type ℓ} → (V → K) → GoMap K V → Type ℓ
Keyed key_of [] = Unit
Keyed key_of ((k, v) ∷ m) = (key_of v ≡ k) × Keyed key_of m
