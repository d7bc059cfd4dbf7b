-- ===== src/Dht/Discovery.antt =====
-- pkg/dht/discovery.go: the cache of discovery results and the statistics of queries. The answers
-- of the DHT client and the clock readings are arguments.
pub mod Cache
pub mod Queries
pub mod Runs
use libreseed.Prelude.{
  ℕ, ◌+◌, ◌-◌, ◌%◌, Bool, true, false, not, Option, none, some, List, [], ◌∷◌, length, ltb,
  add_word, signed_lt, sub_time, word, if◌then◌else◌, Result, ok, err, is_some,
}
use libreseed.Text.{Bytes, bytes_discrete}
use libreseed.GoMap.{GoMap, values, lookup, insert}
use libreseed.Dht.Peers.{Ratio}

-- A peer is the text of its address.
pub record DiscoveryResult : Type 0 where
  pub info_hash : Bytes
  pub package_name : Bytes
  pub peers : List Bytes
  pub discovered_at : ℕ
  pub query_count : ℕ

pub record DiscoveryStats : Type 0 where
  pub total_queries : ℕ
  pub cache_hits : ℕ
  pub cache_misses : ℕ
  pub peers_discovered : ℕ
  pub failed_queries : ℕ
  pub average_peers : Ratio
  pub last_query : ℕ

pub record Discovery : Type 0 where
  pub cache : GoMap Bytes DiscoveryResult
  pub cache_ttl : ℕ
  pub stats : DiscoveryStats

abbrev pub new_discovery : ℕ → Discovery
new_discovery cache_ttl = record {
  cache = [];
  cache_ttl = cache_ttl;
  stats = record {
    total_queries = 0;
    cache_hits = 0;
    cache_misses = 0;
    peers_discovered = 0;
    failed_queries = 0;
    average_peers = record { num = 0; den = 1 };
    last_query = 0;
  };
}

-- `time.Since(result.DiscoveredAt) > d.cacheTTL`.
unfoldable pub is_expired : ℕ → ℕ → DiscoveryResult → Bool
is_expired now ttl r = signed_lt ttl (sub_time now r.discovered_at)

-- `checkCache`.
unfoldable pub check_cache : Discovery → Bytes → ℕ → Option DiscoveryResult
check_cache d h now = elim (lookup bytes_discrete h d.cache) [
  | none ↦ none
  | some r ↦ if is_expired now d.cache_ttl r then none else some r
]

-- `updateCache`: a known entry keeps its name.
unfoldable pub cached : Bytes → Bytes → List Bytes → ℕ → Option DiscoveryResult → DiscoveryResult
cached h name peers now none = record {
  info_hash = h;
  package_name = name;
  peers = peers;
  discovered_at = now;
  query_count = 1;
}
cached h name peers now (some r) = record r {
  peers = peers;
  discovered_at = now;
  query_count = add_word r.query_count 1;
}

unfoldable pub update_cache : Discovery → Bytes → Bytes → List Bytes → ℕ → Discovery
update_cache d h name peers now = record d {
  cache =
      insert bytes_discrete h (cached h name peers now (lookup bytes_discrete h d.cache)) d.cache;
}

-- `a - b` on int: it wraps.
abbrev pub sub_word : ℕ → ℕ → ℕ
sub_word a b = (a + (word - b % word)) % word

-- The end of `updateStats`, without an error.
unfoldable pub count_found : DiscoveryStats → ℕ → DiscoveryStats
count_found s found =
    let total = add_word s.peers_discovered found in
    let successful = sub_word s.total_queries s.failed_queries in
    if signed_lt 0 successful
    then record s {
      peers_discovered = total;
      average_peers = record { num = total; den = successful };
    }
    else record s { peers_discovered = total }

-- `updateStats`.
unfoldable pub update_stats : DiscoveryStats → Bool → ℕ → Bool → ℕ → DiscoveryStats
unfolding count_found
update_stats s cache_hit found failed now =
    let t : DiscoveryStats = record s {
      total_queries = add_word s.total_queries 1;
      last_query = now;
      cache_hits = if cache_hit then add_word s.cache_hits 1 else s.cache_hits;
      cache_misses = if cache_hit then s.cache_misses else add_word s.cache_misses 1;
    } in
    if failed
    then record t { failed_queries = add_word t.failed_queries 1 }
    else count_found t found

-- `FindPeers`, with what the client answers if it is asked, and the clock at each reading.
unfoldable pub find_peers :
    Discovery
    → Bytes
    → Bytes
    → Result Bytes (List Bytes)
    → ℕ
    → ℕ
    → ℕ
    → Result Bytes (List Bytes) × Discovery
find_peers d h name answer now cached_at counted_at = elim (check_cache d h now) [
  | some r ↦
      (ok r.peers, record d { stats = update_stats d.stats true (length r.peers) false counted_at })
  | none ↦ elim answer [
    | err e ↦ (err e, record d { stats = update_stats d.stats false 0 true counted_at })
    | ok peers ↦ (
      ok peers,
      record (update_cache d h name peers cached_at) {
        stats = update_stats d.stats false (length peers) false counted_at;
      },
    )
  ]
]

-- `GetCachedResult`.
unfoldable pub get_cached_result : Discovery → Bytes → ℕ → Option DiscoveryResult
get_cached_result d h now = check_cache d h now

-- The loop of `GetAllResults`.
unfoldable pub valid_results : ℕ → ℕ → List DiscoveryResult → List DiscoveryResult
valid_results now ttl [] = []
valid_results now ttl (r ∷ rs) =
    let rest = valid_results now ttl rs in
    if not (signed_lt ttl (sub_time now r.discovered_at)) then r ∷ rest else rest

unfoldable pub get_all_results : Discovery → ℕ → List DiscoveryResult
unfolding valid_results
get_all_results d now = valid_results now d.cache_ttl (values d.cache)

unfoldable pub clear_cache : Discovery → Discovery
clear_cache d = record d { cache = [] }

-- The loop of `ClearExpired`: what is left, and how many entries it deletes.
unfoldable pub drop_expired : ℕ → ℕ → GoMap Bytes DiscoveryResult → GoMap Bytes DiscoveryResult × ℕ
drop_expired now ttl [] = ([], 0)
drop_expired now ttl ((h, r) ∷ m) =
    let (left, n) = drop_expired now ttl m in
    if is_expired now ttl r then (left, n + 1) else ((h, r) ∷ left, n)

unfoldable pub clear_expired : Discovery → ℕ → Discovery × ℕ
unfolding drop_expired
clear_expired d now =
    let (left, n) = drop_expired now d.cache_ttl d.cache in (record d { cache = left }, n)

unfoldable pub get_cache_size : Discovery → ℕ
get_cache_size d = length d.cache

-- The loop of `RefreshCache`: `stops` says of each package whether the context is done when the
-- loop comes to it; then the result is true, an error. Errors of the client are ignored.
unfoldable pub refresh_each :
    (Bytes → Bool)
    → (Bytes → Result Bytes (List Bytes))
    → (Bytes → ℕ)
    → GoMap Bytes DiscoveryResult
    → Discovery
    → Bool × Discovery
refresh_each stops client clock [] d = (false, d)
refresh_each stops client clock ((h, r) ∷ m) d =
    let next : Discovery = elim (client h) [
      | ok peers ↦ update_cache d h r.package_name peers (clock h)
      | err e ↦ d
    ] in
    let rest = refresh_each stops client clock m next in if stops h then (true, d) else rest

unfoldable pub refresh_cache :
    (Bytes → Bool)
    → (Bytes → Result Bytes (List Bytes))
    → (Bytes → ℕ)
    → Discovery
    → Bool × Discovery
unfolding refresh_each
refresh_cache stops client clock d = refresh_each stops client clock d.cache d
