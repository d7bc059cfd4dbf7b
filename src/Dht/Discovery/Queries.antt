-- ===== src/Dht/Discovery/Queries.antt =====
-- What `FindPeers` returns, and what sequences of calls keep.
use libreseed.Prelude.{
  ℕ, ◌≡◌, refl, ap, ◌∙◌, false, Option, none, some, List, length, Result, ok, signed_lt, sub_time,
}
use libreseed.Text.{Bytes, bytes_discrete}
use libreseed.GoMap.{lookup}
use libreseed.GoMap.Laws.{lookup-insert_self}
use libreseed.Dht.Discovery.{
  DiscoveryResult, Discovery, is_expired, check_cache, cached, update_cache, update_stats,
  find_peers,
}

check_cache_fresh :
    (d : Discovery) (h : Bytes) (later : ℕ) (r : DiscoveryResult)
    → lookup bytes_discrete h d.cache ≡ some r
    → is_expired later d.cache_ttl r ≡ false
    → check_cache d h later ≡ some r
unfolding check_cache
check_cache_fresh d h later r found fresh = rw (check_cache, found, fresh) refl

find_peers_hit :
    (d : Discovery) (h name : Bytes) (answer : Result Bytes (List Bytes))
    (now cached_at counted_at : ℕ) (r : DiscoveryResult)
    → check_cache d h now ≡ some r
    → ((find_peers d h name answer now cached_at counted_at).0 ≡ ok r.peers)
      × ((find_peers d h name answer now cached_at counted_at).1.cache ≡ d.cache)
unfolding find_peers
find_peers_hit d h name answer now cached_at counted_at r hit = rw (find_peers, hit) (refl, refl)

peers-cached :
    (h name : Bytes) (peers : List Bytes) (now : ℕ) (o : Option DiscoveryResult)
    → (cached h name peers now o).peers ≡ peers
unfolding cached
peers-cached h name peers now none = refl
peers-cached h name peers now (some r) = refl

is_expired-cached :
    (h name : Bytes) (peers : List Bytes) (now later ttl : ℕ) (o : Option DiscoveryResult)
    → is_expired later ttl (cached h name peers now o) ≡ signed_lt ttl (sub_time later now)
unfolding cached is_expired
is_expired-cached h name peers now later ttl none = refl
is_expired-cached h name peers now later ttl (some r) = refl

-- What `FindPeers` obtained from the client on a miss, the next `FindPeers` for the same hash
-- returns again, under any name and whatever the client would answer then, if the time to live has
-- not passed since it was stored; and this second call does not change the cache.
find_peers-again :
    (d : Discovery) (h name name' : Bytes) (peers : List Bytes) (answer : Result Bytes (List Bytes))
    (now cached_at counted_at later cached_at' counted_at' : ℕ)
    → check_cache d h now ≡ none
    → signed_lt d.cache_ttl (sub_time later cached_at) ≡ false
    → let first = (find_peers d h name (ok peers) now cached_at counted_at).1 in
      let again = find_peers first h name' answer later cached_at' counted_at' in
      (again.0 ≡ ok peers) × (again.1.cache ≡ first.cache)
unfolding find_peers update_cache
find_peers-again d h name name' peers answer now cached_at counted_at later cached_at' counted_at'
      miss fresh =
    let r = cached h name peers cached_at (lookup bytes_discrete h d.cache) in
    let e : Discovery = record (update_cache d h name peers cached_at) {
      stats = update_stats d.stats false (length peers) false counted_at;
    } in
    let first : (find_peers d h name (ok peers) now cached_at counted_at).1 ≡ e =
      rw (find_peers, miss) refl in
    let hit = check_cache_fresh e h later r (lookup-insert_self bytes_discrete h r d.cache) (
      is_expired-cached h name peers cached_at later d.cache_ttl (lookup bytes_discrete h d.cache)
      ∙ fresh) in
    let again = find_peers_hit e h name' answer later cached_at' counted_at' r hit in
    let same = peers-cached h name peers cached_at (lookup bytes_discrete h d.cache) in
    rw first (again.0 ∙ ap ok same, again.1)
