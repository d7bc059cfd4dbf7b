-- ===== src/Dht/Discovery/Runs.antt =====
-- Sequences of calls of the discovery cache, from its creation.
use libreseed.Prelude.{
  ℕ, ◌≡◌, refl, Bool, true, false, Option, none, some, List, [], ◌∷◌, arith, Bool-cases,
  Option-cases, inl, inr, Result, ok, err, add_word, length,
}
use libreseed.Text.{Bytes, bytes_discrete}
use libreseed.GoMap.{GoMap, lookup, Distinct, Keyed}
use libreseed.GoMap.Laws.{insert-Distinct, retain-Distinct}
use libreseed.GoMap.Keys.{insert-Keyed, retain-Keyed, lookup-Keyed}
use libreseed.Dht.Discovery.{
  DiscoveryResult, DiscoveryStats, Discovery, new_discovery, check_cache, cached, update_cache,
  count_found, update_stats, find_peers, clear_cache, clear_expired, refresh_each, refresh_cache,
}
use libreseed.Dht.Discovery.Cache.{drop_expired_lem}

-- The calls that change the cache or the statistics, with the client's answers.
pub data Call : Type 0 where
  finds : Bytes → Bytes → Result Bytes (List Bytes) → ℕ → ℕ → ℕ → Call
  refreshes : (Bytes → Bool) → (Bytes → Result Bytes (List Bytes)) → (Bytes → ℕ) → Call
  expires : ℕ → Call
  clears : Call

pub step : Discovery → Call → Discovery
step d (finds h name answer now cached_at counted_at) =
    (find_peers d h name answer now cached_at counted_at).1
step d (refreshes stops client clock) = (refresh_cache stops client clock d).1
step d (expires now) = (clear_expired d now).0
step d clears = clear_cache d

pub run : Discovery → List Call → Discovery
run d [] = d
run d (c ∷ cs) = run (step d c) cs

abbrev pub IsIndexed : GoMap Bytes DiscoveryResult → Type 0
IsIndexed m = Distinct bytes_discrete m × Keyed (λ r. r.info_hash) m

-- One result for each hash, under its own hash, and each query a hit or a miss.
pub record IsValid (d : Discovery) : Type 0 where
  pub indexed : IsIndexed d.cache
  pub counted : d.stats.total_queries ≡ add_word d.stats.cache_hits d.stats.cache_misses

update_stats-counted :
    (s : DiscoveryStats) (hit : Bool) (found : ℕ) (failed : Bool) (now : ℕ)
    → s.total_queries ≡ add_word s.cache_hits s.cache_misses
    → (update_stats s hit found failed now).total_queries
      ≡ add_word
          (update_stats s hit found failed now).cache_hits
          (update_stats s hit found failed now).cache_misses
unfolding update_stats count_found add_word
update_stats-counted s hit found failed now h = ground arith

info_hash-cached :
    (h name : Bytes) (peers : List Bytes) (now : ℕ) (m : GoMap Bytes DiscoveryResult)
    → Keyed (λ r. r.info_hash) m
    → (cached h name peers now (lookup bytes_discrete h m)).info_hash ≡ h
unfolding cached
info_hash-cached h name peers now m k = elim (Option-cases (lookup bytes_discrete h m)) [
  | inl e ↦ rw e refl
  | inr (r, e) ↦ rw e (lookup-Keyed bytes_discrete (λ r. r.info_hash) h r m k e)
]

update_cache-IsValid :
    (d : Discovery) (h name : Bytes) (peers : List Bytes) (now : ℕ)
    → IsValid d
    → IsValid (update_cache d h name peers now)
unfolding update_cache
update_cache-IsValid d h name peers now v =
    let r = cached h name peers now (lookup bytes_discrete h d.cache) in
    record {
      indexed = (
        insert-Distinct bytes_discrete h r d.cache v.indexed.0,
        insert-Keyed bytes_discrete (λ r. r.info_hash) h r d.cache
            (info_hash-cached h name peers now d.cache v.indexed.1) v.indexed.1,
      );
      counted = v.counted;
    }

count-IsValid :
    (d : Discovery) (hit : Bool) (found : ℕ) (failed : Bool) (now : ℕ)
    → IsValid d
    → IsValid (record d { stats = update_stats d.stats hit found failed now })
count-IsValid d hit found failed now v = record {
  indexed = v.indexed;
  counted = update_stats-counted d.stats hit found failed now v.counted;
}

find_peers-IsValid :
    (d : Discovery) (h name : Bytes) (answer : Result Bytes (List Bytes))
    (now cached_at counted_at : ℕ)
    → IsValid d
    → IsValid (find_peers d h name answer now cached_at counted_at).1
unfolding find_peers update_cache
find_peers-IsValid d h name answer now cached_at counted_at v =
    by_cache (check_cache d h now) answer refl
  where
    by_cache :
        (o : Option DiscoveryResult) (a : Result Bytes (List Bytes))
        → check_cache d h now ≡ o
        → IsValid (find_peers d h name a now cached_at counted_at).1
    by_cache (some r) a e =
        rw (e, find_peers) (count-IsValid d true (length r.peers) false counted_at v)
    by_cache none (err x) e = rw (e, find_peers) (count-IsValid d false 0 true counted_at v)
    by_cache none (ok peers) e =
        rw (e, find_peers)
          (count-IsValid (update_cache d h name peers cached_at) false (length peers) false
            counted_at (update_cache-IsValid d h name peers cached_at v))

refresh_each-IsValid :
    (stops : Bytes → Bool) (client : Bytes → Result Bytes (List Bytes)) (clock : Bytes → ℕ)
    (m : GoMap Bytes DiscoveryResult) (d : Discovery)
    → IsValid d
    → IsValid (refresh_each stops client clock m d).1
unfolding refresh_each
refresh_each-IsValid stops client clock [] d v = v
refresh_each-IsValid stops client clock ((h, r) ∷ m) d v = elim (Bool-cases (stops h)) [
  | inl q ↦ rw q v
  | inr q ↦ rw q (refresh_each-IsValid stops client clock m _ (refreshed (client h)))
]
  where
    refreshed :
        (a : Result Bytes (List Bytes))
        → IsValid (elim a as (λ _. Discovery) [
          | ok peers ↦ update_cache d h r.package_name peers (clock h)
          | err e ↦ d
        ])
    refreshed (ok peers) = update_cache-IsValid d h r.package_name peers (clock h) v
    refreshed (err e) = v

step-IsValid : (d : Discovery) (c : Call) → IsValid d → IsValid (step d c)
unfolding step refresh_cache clear_expired clear_cache
step-IsValid d (finds h name answer now cached_at counted_at) v =
    find_peers-IsValid d h name answer now cached_at counted_at v
step-IsValid d (refreshes stops client clock) v =
    refresh_each-IsValid stops client clock d.cache d v
step-IsValid d (expires now) v = rw (drop_expired_lem now d.cache_ttl d.cache) (record {
  indexed = (
    retain-Distinct bytes_discrete _ d.cache v.indexed.0,
    retain-Keyed (λ r. r.info_hash) _ d.cache v.indexed.1,
  );
  counted = v.counted;
})
step-IsValid d clears v = record { indexed = (tt, tt); counted = v.counted }

run-IsValid : (d : Discovery) (cs : List Call) → IsValid d → IsValid (run d cs)
unfolding run
run-IsValid d [] v = v
run-IsValid d (c ∷ cs) v = run-IsValid (step d c) cs (step-IsValid d c v)

-- After any sequence of calls on a new cache, whatever the client answers, each hash has one result
-- at most, under its own hash, and the number of queries is that of the hits and the misses
-- together, modulo 2 ^ 64.
pub run-new_discovery-IsValid : (ttl : ℕ) (cs : List Call) → IsValid (run (new_discovery ttl) cs)
unfolding add_word
run-new_discovery-IsValid ttl cs =
    run-IsValid (new_discovery ttl) cs (record { indexed = (tt, tt); counted = refl })
