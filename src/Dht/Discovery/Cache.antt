-- ===== src/Dht/Discovery/Cache.antt =====
-- What is in the cache, and for how long.
use libreseed.Prelude.{ℕ, ◌+◌, ◌≡◌, refl, not, [], ◌∷◌, arith, count_if}
use libreseed.Text.{Bytes, bytes_discrete}
use libreseed.GoMap.{GoMap, values, retain, lookup, Distinct}
use libreseed.GoMap.Laws.{lookup-retain, keep_if}
use libreseed.GoMap.Sums.{length-retain}
use libreseed.Dht.Discovery.{
  DiscoveryResult, Discovery, is_expired, valid_results, get_all_results, drop_expired,
  clear_expired, get_cache_size,
}

pub drop_expired_lem :
    (now ttl : ℕ) (m : GoMap Bytes DiscoveryResult)
    → drop_expired now ttl m
      ≡ (retain (λ k r. not (is_expired now ttl r)) m, count_if (is_expired now ttl) (values m))
unfolding drop_expired retain
drop_expired_lem now ttl [] = refl
drop_expired_lem now ttl ((h, r) ∷ m) = ground (arith, drop_expired_lem now ttl m)

valid_results-values :
    (now ttl : ℕ) (m : GoMap Bytes DiscoveryResult)
    → valid_results now ttl (values m) ≡ values (retain (λ k r. not (is_expired now ttl r)) m)
unfolding valid_results retain is_expired
valid_results-values now ttl [] = refl
valid_results-values now ttl ((h, r) ∷ m) = ground (arith, valid_results-values now ttl m)

-- `ClearExpired` on a cache with one entry for each hash removes exactly the results that are
-- expired, and returns their number; what is left is what `GetAllResults` would have returned at
-- the same time.
pub clear_expired_lem :
    (d : Discovery) (now : ℕ) (key : Bytes)
    → Distinct bytes_discrete d.cache
    → (lookup bytes_discrete key (clear_expired d now).0.cache
        ≡ keep_if bytes_discrete
            (λ _ r. not (is_expired now d.cache_ttl r))
            key
            (lookup bytes_discrete key d.cache))
      × (get_cache_size (clear_expired d now).0 + (clear_expired d now).1 ≡ get_cache_size d)
      × (values (clear_expired d now).0.cache ≡ get_all_results d now)
unfolding clear_expired get_cache_size get_all_results
clear_expired_lem d now key distinct = rw (drop_expired_lem now d.cache_ttl d.cache) (
  lookup-retain bytes_discrete _ key d.cache distinct,
  length-retain (is_expired now d.cache_ttl) d.cache,
  rw (valid_results-values now d.cache_ttl d.cache) refl,
)
