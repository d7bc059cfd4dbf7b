-- ===== src/GoMap/Sums.antt =====
-- Counts and sums over the values of a map, and loops that delete nothing.
use libreseed.Prelude.{ℕ, ◌+◌, ◌≡◌, refl, Bool, not, [], ◌∷◌, some, arith, count_if, sum_of, length}
use libreseed.GoMap.{GoMap, values, retain, lookup, insert}

module _ {ℓ} {K V : Type ℓ} (dec : Discrete K) where
  -- A write that leaves a test as it was leaves the count.
  pub count_if-insert :
      (p : V → Bool) (k : K) (v w : V) (m : GoMap K V)
      → lookup dec k m ≡ some v
      → p w ≡ p v
      → count_if p (values (insert dec k w m)) ≡ count_if p (values m)
  unfolding lookup insert
  count_if-insert p k v w [] h e = absurd (cc)
  count_if-insert p k v w ((i, u) ∷ m) h e = ground (arith, count_if-insert p k v w m)

  pub sum_of-insert :
      (f : V → ℕ) (k : K) (v w : V) (m : GoMap K V)
      → lookup dec k m ≡ some v
      → f w ≡ f v
      → sum_of f (values (insert dec k w m)) ≡ sum_of f (values m)
  unfolding lookup insert
  sum_of-insert f k v w [] h e = absurd (cc)
  sum_of-insert f k v w ((i, u) ∷ m) h e = ground (arith, sum_of-insert f k v w m)

module _ {ℓ} {K V : Type ℓ} where
  -- How many values fail the test.
  pub length-retain :
      (bad : V → Bool) (m : GoMap K V)
      → length (retain (λ k v. not (bad v)) m) + count_if bad (values m) ≡ length m
  unfolding retain
  length-retain bad [] = omega arith
  length-retain bad ((k, v) ∷ m) = ground (arith, length-retain bad m)

  pub retain_all :
      (bad : V → Bool) (m : GoMap K V)
      → count_if bad (values m) ≡ 0
      → retain (λ k v. not (bad v)) m ≡ m
  unfolding retain
  retain_all bad [] h = refl
  retain_all bad ((k, v) ∷ m) h = ground (arith, retain_all bad m)
