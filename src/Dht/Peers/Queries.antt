-- ===== src/Dht/Peers/Queries.antt =====
-- What the queries of the peer manager return, and what each update does to one peer.
use mathlib.Core.List.{Mem, filter, mem-filter}
use mathlib.Core.Option
use libreseed.Prelude.{
  ℕ, ◌+◌, ◌≡◌, ◌↔◌, refl, sym, ◌∙◌, Bool, true, false, not, ◌&&◌, ◌||◌, List, [], ◌∷◌, Option, none,
  some, arith, length, count_if, if◌then◌else◌, is_some, Option-cases, inl, inr, add_word, ite,
}
use libreseed.Text.{Bytes, bytes_discrete, bytes_eq, bytes_eq_iff}
use libreseed.GoMap.{values, lookup}
use libreseed.GoMap.Laws.{lookup-retain, keep_if, lookup-insert}
use libreseed.GoMap.Sums.{length-retain}
use libreseed.Dht.Peers.{
  PeerInfo, PeerManager, new_peer, update_stats, add_peer, update_peer_connection, select,
  remove_stale_peers, remove_failed_peers, clear, get_connected_peers, get_failed_peers,
  get_peer_count, get_stats, get_peers_by_info_hash, get_all_peers, note_connection, is_stale,
  has_failed_often, find,
}
use libreseed.Dht.Peers.Entries.{
  IsIndexed, IsValid, peers-update_stats, peers-update_peer_connection,
}
use libreseed.Dht.Peers.Runs.{remove_where_lem}

length-select :
    (test : PeerInfo → Bool) (ps : List PeerInfo) → length (select test ps) ≡ count_if test ps
unfolding select
length-select test [] = refl
length-select test (p ∷ ps) = ground (arith, length-select test ps)

-- In a valid manager the numbers that `GetStats` reports are the lengths of what
-- `GetConnectedPeers` and `GetFailedPeers` return, and `GetPeerCount`.
pub get_stats_counts_peers :
    (pm : PeerManager)
    → IsValid pm
    → ((get_stats pm).connected_peers ≡ length (get_connected_peers pm))
      × ((get_stats pm).failed_peers ≡ length (get_failed_peers pm))
      × ((get_stats pm).total_peers ≡ get_peer_count pm)
unfolding get_stats get_connected_peers get_failed_peers get_peer_count
get_stats_counts_peers pm v = (
  v.current.connected ∙ sym (length-select _ (values pm.peers)),
  v.current.failed ∙ sym (length-select _ (values pm.peers)),
  v.current.total,
)

-- `RemoveStalePeers` on a map with one entry for each address removes exactly the peers that are
-- stale, keeps every other as it is, and returns how many it removed.
pub remove_stale_peers_lem :
    (pm : PeerManager) (max_age now : ℕ) (key : Bytes)
    → IsIndexed pm.peers
    → (find key (remove_stale_peers pm max_age now).0
        ≡ keep_if bytes_discrete (λ _ p. not (is_stale now max_age p)) key (find key pm))
      × (length (remove_stale_peers pm max_age now).0.peers + (remove_stale_peers pm max_age now).1
          ≡ length pm.peers)
unfolding remove_stale_peers
remove_stale_peers_lem pm max_age now key h =
    let bad = is_stale now max_age in
    rw ((remove_where_lem bad pm).0, (remove_where_lem bad pm).1)
      (lookup-retain bytes_discrete _ key pm.peers h.0, length-retain bad pm.peers)

-- `RemoveFailedPeers` on a map with one entry for each address removes exactly the peers with at
-- least so many failures, keeps every other as it is, and returns how many it removed.
pub remove_failed_peers_lem :
    (pm : PeerManager) (max_failures : ℕ) (key : Bytes)
    → IsIndexed pm.peers
    → (find key (remove_failed_peers pm max_failures).0
        ≡ keep_if bytes_discrete (λ _ p. not (has_failed_often max_failures p)) key (find key pm))
      × (length (remove_failed_peers pm max_failures).0.peers
            + (remove_failed_peers pm max_failures).1
          ≡ length pm.peers)
unfolding remove_failed_peers
remove_failed_peers_lem pm max_failures key h =
    let bad = has_failed_often max_failures in
    rw ((remove_where_lem bad pm).0, (remove_where_lem bad pm).1)
      (lookup-retain bytes_discrete _ key pm.peers h.0, length-retain bad pm.peers)

-- What a connection report with or without an error makes of a peer, field by field.
abbrev pub reported : Bool → Option Bytes → ℕ → PeerInfo → PeerInfo
reported connected e now p =
    let bad : Bool = is_some e in
    record p {
      last_seen = now;
      connection_ok = connected;
      failed = bad || (not connected && p.failed);
      fail_count = if bad then add_word p.fail_count 1 else p.fail_count;
      last_error = if bad then e else if connected then none else p.last_error;
    }

note_connection-reported :
    (p : PeerInfo) (connected : Bool) (e : Option Bytes) (now : ℕ)
    → note_connection p connected e now ≡ reported connected e now p
unfolding note_connection
note_connection-reported p true none now = refl
note_connection-reported p false none now = refl
note_connection-reported p true (some e) now = refl
note_connection-reported p false (some e) now = refl

-- `UpdatePeerConnection` tracks no new peer and leaves every other address as it is. The peer
-- itself is stamped with the time, counts one more failure exactly if there is an error, and its
-- failure is cleared exactly if it is connected without an error.
pub update_peer_connection_lem :
    (pm : PeerManager) (addr key : Bytes) (connected : Bool) (e : Option Bytes) (now now' : ℕ)
    → find key (update_peer_connection pm addr connected e now now')
      ≡ ite
          (bytes_discrete key addr)
          (Option.map (reported connected e now) (find addr pm))
          (find key pm)
update_peer_connection_lem pm addr key connected e now now' =
    elim (Option-cases (lookup bytes_discrete addr pm.peers)) [
      | inl q ↦ rw (peers-update_peer_connection pm addr connected e now now', q) (ground arith)
      | inr (p, q) ↦
          rw
            (peers-update_peer_connection pm addr connected e now now', q, note_connection-reported)
            (lookup-insert bytes_discrete addr key (reported connected e now p) pm.peers)
    ]

-- The peer that `AddPeer` stores: a known one keeps everything but the time it was last seen.
abbrev pub added : Bytes → Bytes → ℕ → ℕ → Option PeerInfo → PeerInfo
added addr info_hash now now' none = new_peer addr info_hash now now'
added addr info_hash now now' (some p) = record p { last_seen = now }

-- `AddPeer` stores and returns one peer: a fresh one, without failures and connections, if the
-- address is new, and otherwise the known one with a new time. It touches no other address.
add_peer_lem :
    (pm : PeerManager) (addr key info_hash : Bytes) (now now' : ℕ)
    → let r = add_peer pm addr info_hash now now' in
      (find key r.0
        ≡ ite
            (bytes_discrete key addr)
            (some (added addr info_hash now now' (find addr pm)))
            (find key pm))
      × (r.1 ≡ added addr info_hash now now' (find addr pm))
unfolding add_peer
add_peer_lem pm addr key info_hash now now' =
    elim (Option-cases (lookup bytes_discrete addr pm.peers)) [
      | inl q ↦
          rw (q, add_peer, peers-update_stats)
            (
              lookup-insert bytes_discrete addr key (new_peer addr info_hash now now') pm.peers,
              refl,
            )
      | inr (p, q) ↦
          rw (q, add_peer)
            (lookup-insert bytes_discrete addr key (record p { last_seen = now }) pm.peers, refl)
    ]

Bool-discrete : Discrete Bool
Bool-discrete = hlevel

select-filter :
    (test : PeerInfo → Bool) (ps : List PeerInfo)
    → select test ps ≡ filter (λ p. Bool-discrete (test p) true) ps
unfolding select
select-filter test [] = refl
select-filter test (p ∷ ps) = ground (arith, select-filter test ps)

-- `GetPeersByInfoHash` returns exactly the tracked peers that carry the hash.
pub mem-get_peers_by_info_hash :
    (pm : PeerManager) (info_hash : Bytes) (p : PeerInfo)
    → Mem p (get_peers_by_info_hash pm info_hash)
      ↔ (Mem p (get_all_peers pm) × (p.info_hash ≡ info_hash))
unfolding get_peers_by_info_hash get_all_peers
mem-get_peers_by_info_hash pm info_hash p =
    rw (select-filter (λ q. bytes_eq q.info_hash info_hash) (values pm.peers)) (
      λ m.
          let r = (mem-filter (λ q. Bool-discrete (bytes_eq q.info_hash info_hash) true)).0 m in
          (r.0, (bytes_eq_iff p.info_hash info_hash).0 r.1),
      λ m.
          (mem-filter (λ q. Bool-discrete (bytes_eq q.info_hash info_hash) true)).1
            (m.0, (bytes_eq_iff p.info_hash info_hash).1 m.1),
    )

-- `Clear` empties the manager and sets the total of downloaded bytes to 0, but the average speeds
-- stay what they were.
pub clear_keeps_averages :
    (pm : PeerManager)
    → ((clear pm).peers ≡ [])
      × ((clear pm).stats.total_bytes_down ≡ 0)
      × ((clear pm).stats.average_down_speed ≡ pm.stats.average_down_speed)
      × ((clear pm).stats.average_up_speed ≡ pm.stats.average_up_speed)
unfolding clear update_stats
clear_keeps_averages pm = (refl, refl, refl, refl)
