-- ===== src/GoMap/Append.antt =====
-- Writes of new keys append: a map is rebuilt by writing its entries one after the other.
use libreseed.Prelude.{◌≡◌, ◌≢◌, refl, [], ◌∷◌, ◌++◌, none, arith}
use libreseed.GoMap.{GoMap, lookup, insert, Distinct}

module _ {ℓ} {K V : Type ℓ} (dec : Discrete K) where
  pub insert_absent :
      (k : K) (v : V) (m : GoMap K V) → lookup dec k m ≡ none → insert dec k v m ≡ m ++ (k, v) ∷ []
  unfolding lookup insert
  insert_absent k v [] h = refl
  insert_absent k v ((j, w) ∷ m) h = ground (arith, insert_absent k v m)

  ne_of_absent : (j k : K) (v : V) (m n : GoMap K V) → lookup dec j (m ++ (k, v) ∷ n) ≡ none → j ≢ k
  unfolding lookup
  ne_of_absent j k v [] n h = ground arith
  ne_of_absent j k v ((i, w) ∷ m) n h = ne_of_absent j k v m n (ground arith)

  -- A key in the middle of a map does not stand before it.
  pub absent_of_Distinct :
      (k : K) (v : V) (m n : GoMap K V) → Distinct dec (m ++ (k, v) ∷ n) → lookup dec k m ≡ none
  unfolding lookup
  absent_of_Distinct k v [] n d = refl
  absent_of_Distinct k v ((i, w) ∷ m) n d =
      ground (arith, absent_of_Distinct k v m n d.1, ne_of_absent i k v m n d.0)
