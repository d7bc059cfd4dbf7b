-- ===== src/Dht/Peers/Stats.antt =====
-- The statistics are those of the tracked peers, after every call.
use libreseed.Prelude.{
  ℕ, ◌<◌, ◌≡◌, refl, Bool, not, List, [], ◌∷◌, Option, some, arith, length, count_if, word,
  add_word-lt, Option-cases, Bool-cases, inl, inr, ltb,
}
use libreseed.Text.{Bytes, bytes_discrete}
use libreseed.GoMap.{GoMap, values, retain, lookup, insert}
use libreseed.GoMap.Laws.{length-insert_old}
use libreseed.GoMap.Sums.{count_if-insert, sum_of-insert, retain_all}
use libreseed.Dht.Peers.{
  PeerInfo, PeerStats, PeerManager, count_peer, count_peers, set_averages, update_stats, add_peer,
  update_peer_connection, update_peer_stats, delete_where, remove_where, store,
}
use libreseed.Dht.Peers.Loop.{
  Figures, connected-count_peers, failed-count_peers, down-count_peers, up-count_peers,
}

down-count_peers-lt :
    (s : PeerStats) (ps : List PeerInfo)
    → s.total_bytes_down < word
    → (count_peers s ps).total_bytes_down < word
unfolding count_peers
down-count_peers-lt s [] h = h
down-count_peers-lt s (p ∷ ps) h =
    down-count_peers-lt (count_peer s p) ps (add_word-lt s.total_bytes_down p.bytes_download)

up-count_peers-lt :
    (s : PeerStats) (ps : List PeerInfo)
    → s.total_bytes_up < word
    → (count_peers s ps).total_bytes_up < word
unfolding count_peers
up-count_peers-lt s [] h = h
up-count_peers-lt s (p ∷ ps) h =
    up-count_peers-lt (count_peer s p) ps (add_word-lt s.total_bytes_up p.bytes_upload)

total-count_peers :
    (s : PeerStats) (ps : List PeerInfo) → (count_peers s ps).total_peers ≡ s.total_peers
unfolding count_peers
total-count_peers s [] = refl
total-count_peers s (p ∷ ps) = total-count_peers (count_peer s p) ps

count_peers-Figures :
    (s : PeerStats) (ps : List PeerInfo) (n : ℕ)
    → s.total_peers ≡ n
    → s.connected_peers ≡ 0
    → s.failed_peers ≡ 0
    → s.total_bytes_down ≡ 0
    → s.total_bytes_up ≡ 0
    → Figures (count_peers s ps) n ps
count_peers-Figures s ps n t c f d u = record {
  total = omega (arith, total-count_peers s ps);
  connected = omega (arith, connected-count_peers s ps);
  failed = omega (arith, failed-count_peers s ps);
  down = omega (arith, down-count_peers s ps, down-count_peers-lt s ps (omega arith));
  up = omega (arith, up-count_peers s ps, up-count_peers-lt s ps (omega arith));
}

set_averages-Figures :
    (s : PeerStats) (n : ℕ) (ps : List PeerInfo) → Figures s n ps → Figures (set_averages s) n ps
unfolding set_averages
set_averages-Figures s n ps h = ground arith

-- The statistics of a manager are those of the peers that it tracks.
abbrev pub IsCurrent : PeerManager → Type 0
IsCurrent pm = Figures pm.stats (length pm.peers) (values pm.peers)

pub update_stats-IsCurrent : (pm : PeerManager) → IsCurrent (update_stats pm)
unfolding update_stats
update_stats-IsCurrent pm =
    set_averages-Figures _ _ _ (count_peers-Figures _ (values pm.peers) _ refl refl refl refl refl)

-- A peer that is written back with its counters and flags as they were changes no figure.
store-IsCurrent :
    (pm : PeerManager) (key : Bytes) (p q : PeerInfo)
    → lookup bytes_discrete key pm.peers ≡ some p
    → q.connection_ok ≡ p.connection_ok
    → q.failed ≡ p.failed
    → q.bytes_download ≡ p.bytes_download
    → q.bytes_upload ≡ p.bytes_upload
    → IsCurrent pm
    → IsCurrent (store key q pm)
store-IsCurrent pm key p q h c f d u v =
    let m = pm.peers in
    let same : length (insert bytes_discrete key q m) ≡ length m =
      length-insert_old bytes_discrete key q p m h in
    record {
      total = omega (arith, same, v.total);
      connected =
          omega (
            arith,
            count_if-insert bytes_discrete (λ r. r.connection_ok) key p q m h c,
            v.connected,
          );
      failed =
          omega (arith, count_if-insert bytes_discrete (λ r. r.failed) key p q m h f, v.failed);
      down = rw (sum_of-insert bytes_discrete (λ r. r.bytes_download) key p q m h d) v.down;
      up = rw (sum_of-insert bytes_discrete (λ r. r.bytes_upload) key p q m h u) v.up;
    }

pub add_peer-IsCurrent :
    (pm : PeerManager) (addr info_hash : Bytes) (now now' : ℕ)
    → IsCurrent pm
    → IsCurrent (add_peer pm addr info_hash now now').0
unfolding add_peer
add_peer-IsCurrent pm addr info_hash now now' v =
    elim (Option-cases (lookup bytes_discrete addr pm.peers)) [
      | inl e ↦ rw (e, add_peer) (update_stats-IsCurrent _)
      | inr (p, e) ↦ rw (e, add_peer) (store-IsCurrent pm addr p _ e refl refl refl refl v)
    ]

pub update_peer_connection-IsCurrent :
    (pm : PeerManager) (addr : Bytes) (connected : Bool) (e : Option Bytes) (now now' : ℕ)
    → IsCurrent pm
    → IsCurrent (update_peer_connection pm addr connected e now now')
unfolding update_peer_connection
update_peer_connection-IsCurrent pm addr connected e now now' v =
    elim (Option-cases (lookup bytes_discrete addr pm.peers)) [
      | inl h ↦ rw (h, update_peer_connection) v
      | inr (p, h) ↦ rw (h, update_peer_connection) (update_stats-IsCurrent _)
    ]

pub update_peer_stats-IsCurrent :
    (pm : PeerManager) (addr : Bytes) (bytes_down bytes_up now : ℕ)
    → IsCurrent pm
    → IsCurrent (update_peer_stats pm addr bytes_down bytes_up now)
unfolding update_peer_stats
update_peer_stats-IsCurrent pm addr bytes_down bytes_up now v =
    elim (Option-cases (lookup bytes_discrete addr pm.peers)) [
      | inl h ↦ rw (h, update_peer_stats) v
      | inr (p, h) ↦ rw (h, update_peer_stats) (update_stats-IsCurrent _)
    ]

-- The loop deletes exactly the entries that are bad, and counts them.
pub delete_where_lem :
    (bad : PeerInfo → Bool) (m : GoMap Bytes PeerInfo)
    → delete_where bad m ≡ (retain (λ k p. not (bad p)) m, count_if bad (values m))
unfolding delete_where retain
delete_where_lem bad [] = refl
delete_where_lem bad ((k, p) ∷ m) = ground (arith, delete_where_lem bad m)

pub remove_where-IsCurrent :
    (bad : PeerInfo → Bool) (pm : PeerManager) → IsCurrent pm → IsCurrent (remove_where bad pm).0
unfolding remove_where
remove_where-IsCurrent bad pm v = elim (Bool-cases (ltb 0 (count_if bad (values pm.peers)))) [
  | inl h ↦ rw (delete_where_lem bad pm.peers, h) (update_stats-IsCurrent _)
  | inr h ↦ rw (delete_where_lem bad pm.peers, h, retain_all bad pm.peers (ground arith)) v
]
