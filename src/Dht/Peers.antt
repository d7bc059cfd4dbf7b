-- ===== src/Dht/Peers.antt =====
-- pkg/dht/peers.go: the peer manager. An address is the text of its `String()`, an error its text.
-- Each method is given the clock readings it takes, in order; the lock makes it one step.
pub mod Loop
pub mod Stats
pub mod Entries
pub mod Queries
pub mod Runs
pub mod Order
use libreseed.Prelude.{
  ℕ, ◌+◌, ◌≡◌, Bool, true, false, not, ◌&&◌, Option, none, some, List, [], ◌∷◌, length, add_word,
  signed_lt, sub_time, ltb, if◌then◌else◌,
}
use libreseed.Text.{Bytes, bytes_discrete, bytes_eq}
use libreseed.GoMap.{GoMap, values, retain, lookup, insert, delete}

pub record PeerInfo : Type 0 where
  pub addr : Bytes
  pub info_hash : Bytes
  pub discovered_at : ℕ
  pub last_seen : ℕ
  pub connection_ok : Bool
  pub bytes_download : ℕ
  pub bytes_upload : ℕ
  pub failed : Bool
  pub fail_count : ℕ
  pub last_error : Option Bytes

-- The float64 to which `float64(num) / float64(den)` rounds; 0 over 1 is the zero value.
pub record Ratio : Type 0 where
  pub num : ℕ
  pub den : ℕ

pub record PeerStats : Type 0 where
  pub total_peers : ℕ
  pub connected_peers : ℕ
  pub failed_peers : ℕ
  pub total_bytes_down : ℕ
  pub total_bytes_up : ℕ
  pub average_down_speed : Ratio
  pub average_up_speed : Ratio
  pub last_connection : ℕ

pub record PeerManager : Type 0 where
  pub peers : GoMap Bytes PeerInfo
  pub stats : PeerStats

abbrev pub zero_stats : PeerStats
zero_stats = record {
  total_peers = 0;
  connected_peers = 0;
  failed_peers = 0;
  total_bytes_down = 0;
  total_bytes_up = 0;
  average_down_speed = record { num = 0; den = 1 };
  average_up_speed = record { num = 0; den = 1 };
  last_connection = 0;
}

abbrev pub new_peer_manager : PeerManager
new_peer_manager = record { peers = []; stats = zero_stats }

-- The body of the loop of `updateStats`.
unfoldable pub count_peer : PeerStats → PeerInfo → PeerStats
count_peer s p = record s {
  connected_peers = if p.connection_ok then s.connected_peers + 1 else s.connected_peers;
  failed_peers = if p.failed then s.failed_peers + 1 else s.failed_peers;
  total_bytes_down = add_word s.total_bytes_down p.bytes_download;
  total_bytes_up = add_word s.total_bytes_up p.bytes_upload;
}

unfoldable pub count_peers : PeerStats → List PeerInfo → PeerStats
unfolding count_peer
count_peers s [] = s
count_peers s (p ∷ ps) = count_peers (count_peer s p) ps

-- The averages are written only while a peer is connected.
unfoldable pub set_averages : PeerStats → PeerStats
set_averages s =
    if ltb 0 s.connected_peers
    then record s {
      average_down_speed = record { num = s.total_bytes_down; den = s.connected_peers };
      average_up_speed = record { num = s.total_bytes_up; den = s.connected_peers };
    }
    else s

unfoldable pub update_stats : PeerManager → PeerManager
unfolding count_peers set_averages
update_stats pm =
    let reset : PeerStats = record pm.stats {
      total_peers = length pm.peers;
      connected_peers = 0;
      failed_peers = 0;
      total_bytes_down = 0;
      total_bytes_up = 0;
    } in
    record pm { stats = set_averages (count_peers reset (values pm.peers)) }

-- A field of a stored peer is written through its pointer.
abbrev pub store : Bytes → PeerInfo → PeerManager → PeerManager
store key p pm = record pm { peers = insert bytes_discrete key p pm.peers }

abbrev pub find : Bytes → PeerManager → Option PeerInfo
find key pm = lookup bytes_discrete key pm.peers

abbrev pub new_peer : Bytes → Bytes → ℕ → ℕ → PeerInfo
new_peer addr info_hash now now' = record {
  addr = addr;
  info_hash = info_hash;
  discovered_at = now;
  last_seen = now';
  connection_ok = false;
  bytes_download = 0;
  bytes_upload = 0;
  failed = false;
  fail_count = 0;
  last_error = none;
}

-- The peer that is returned is the stored one.
unfoldable pub add_peer : PeerManager → Bytes → Bytes → ℕ → ℕ → PeerManager × PeerInfo
add_peer pm addr info_hash now now' = elim (find addr pm) [
  | some peer ↦ (store addr (record peer { last_seen = now }) pm, record peer { last_seen = now })
  | none ↦ (
    update_stats (store addr (new_peer addr info_hash now now') pm),
    new_peer addr info_hash now now',
  )
]

unfoldable pub get_peer : PeerManager → Bytes → Option PeerInfo
get_peer pm addr = find addr pm

unfoldable pub get_all_peers : PeerManager → List PeerInfo
get_all_peers pm = values pm.peers

-- The loop that collects the peers which pass a test.
unfoldable pub select : (PeerInfo → Bool) → List PeerInfo → List PeerInfo
select test [] = []
select test (p ∷ ps) = if test p then p ∷ select test ps else select test ps

unfoldable pub get_peers_by_info_hash : PeerManager → Bytes → List PeerInfo
unfolding select
get_peers_by_info_hash pm info_hash = select (λ p. bytes_eq p.info_hash info_hash) (values pm.peers)

unfoldable pub get_connected_peers : PeerManager → List PeerInfo
unfolding select
get_connected_peers pm = select (λ p. p.connection_ok) (values pm.peers)

unfoldable pub get_failed_peers : PeerManager → List PeerInfo
unfolding select
get_failed_peers pm = select (λ p. p.failed) (values pm.peers)

-- What `UpdatePeerConnection` writes to the peer: an error counts as a failure, a connection
-- without one clears it.
unfoldable pub note_connection : PeerInfo → Bool → Option Bytes → ℕ → PeerInfo
note_connection p connected (some e) now = record p {
  last_seen = now;
  connection_ok = connected;
  failed = true;
  fail_count = add_word p.fail_count 1;
  last_error = some e;
}
note_connection p true none now = record p {
  last_seen = now;
  connection_ok = true;
  failed = false;
  last_error = none;
}
note_connection p false none now = record p { last_seen = now; connection_ok = false }

-- `pm.stats.LastConnection = time.Now()` on the branch of a connection without an error.
unfoldable pub note_last_connection : PeerManager → Bool → Option Bytes → ℕ → PeerManager
note_last_connection pm true none now =
    let s : PeerStats = record pm.stats { last_connection = now } in record pm { stats = s }
note_last_connection pm _ _ now = pm

unfoldable pub update_peer_connection :
    PeerManager → Bytes → Bool → Option Bytes → ℕ → ℕ → PeerManager
unfolding note_connection note_last_connection
update_peer_connection pm addr connected e now now' = elim (find addr pm) [
  | none ↦ pm
  | some peer ↦
      update_stats (
        note_last_connection (store addr (note_connection peer connected e now) pm) connected e
          now')
]

unfoldable pub update_peer_stats : PeerManager → Bytes → ℕ → ℕ → ℕ → PeerManager
update_peer_stats pm addr bytes_down bytes_up now = elim (find addr pm) [
  | none ↦ pm
  | some peer ↦ update_stats (
      store addr
        (record peer {
          bytes_download = add_word peer.bytes_download bytes_down;
          bytes_upload = add_word peer.bytes_upload bytes_up;
          last_seen = now;
        })
        pm)
]

unfoldable pub remove_peer : PeerManager → Bytes → PeerManager
remove_peer pm addr = update_stats (record pm { peers = delete bytes_discrete addr pm.peers })

-- The loop of the two removals: what is left, and how many entries it deletes.
unfoldable pub delete_where : (PeerInfo → Bool) → GoMap Bytes PeerInfo → GoMap Bytes PeerInfo × ℕ
delete_where bad [] = ([], 0)
delete_where bad ((k, p) ∷ m) =
    let (left, n) = delete_where bad m in if bad p then (left, n + 1) else ((k, p) ∷ left, n)

-- The statistics are recomputed only if an entry was deleted.
unfoldable pub remove_where : (PeerInfo → Bool) → PeerManager → PeerManager × ℕ
unfolding delete_where
remove_where bad pm =
    let (left, n) = delete_where bad pm.peers in
    if ltb 0 n
    then (update_stats (record pm { peers = left }), n)
    else (record pm { peers = left }, n)

-- `now.Sub(peer.LastSeen) > maxAge`.
unfoldable pub is_stale : ℕ → ℕ → PeerInfo → Bool
is_stale now max_age p = signed_lt max_age (sub_time now p.last_seen)

unfoldable pub remove_stale_peers : PeerManager → ℕ → ℕ → PeerManager × ℕ
unfolding remove_where is_stale
remove_stale_peers pm max_age now = remove_where (is_stale now max_age) pm

-- `peer.FailCount >= maxFailures`.
unfoldable pub has_failed_often : ℕ → PeerInfo → Bool
has_failed_often max_failures p = not (signed_lt p.fail_count max_failures)

unfoldable pub remove_failed_peers : PeerManager → ℕ → PeerManager × ℕ
unfolding remove_where has_failed_often
remove_failed_peers pm max_failures = remove_where (has_failed_often max_failures) pm

unfoldable pub clear : PeerManager → PeerManager
clear pm = update_stats (record pm { peers = [] })

unfoldable pub get_stats : PeerManager → PeerStats
get_stats pm = pm.stats

unfoldable pub get_peer_count : PeerManager → ℕ
get_peer_count pm = length pm.peers
