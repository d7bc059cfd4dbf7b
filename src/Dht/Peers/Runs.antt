-- ===== src/Dht/Peers/Runs.antt =====
-- Sequences of calls of the peer manager, from its creation.
use libreseed.Prelude.{
  ℕ, ◌≡◌, refl, Bool, not, List, [], ◌∷◌, Option, count_if, Option-cases, inl, inr, Bool-cases, ltb,
}
use libreseed.Text.{Bytes, bytes_discrete}
use libreseed.GoMap.{GoMap, values, retain, lookup, delete}
use libreseed.GoMap.Laws.{delete-Distinct, retain-Distinct}
use libreseed.GoMap.Keys.{delete-Keyed, retain-Keyed}
use libreseed.Dht.Peers.{
  PeerInfo, PeerManager, new_peer_manager, add_peer, update_peer_connection, update_peer_stats,
  remove_peer, remove_where, remove_stale_peers, remove_failed_peers, clear, is_stale,
  has_failed_often,
}
use libreseed.Dht.Peers.Stats.{
  add_peer-IsCurrent, update_peer_connection-IsCurrent, update_peer_stats-IsCurrent,
  remove_where-IsCurrent, delete_where_lem,
}
use libreseed.Dht.Peers.Entries.{
  IsIndexed, IsValid, update_stats-IsValid, insert-IsIndexed, stored-addr, add_peer-IsIndexed,
  addr-note_connection, peers-update_stats, peers-update_peer_connection,
}

-- The calls that change the manager, with their arguments and clock readings.
pub data Call : Type 0 where
  adds : Bytes → Bytes → ℕ → ℕ → Call
  connects : Bytes → Bool → Option Bytes → ℕ → ℕ → Call
  transfers : Bytes → ℕ → ℕ → ℕ → Call
  removes : Bytes → Call
  drops_stale : ℕ → ℕ → Call
  drops_failed : ℕ → Call
  clears : Call

pub step : PeerManager → Call → PeerManager
step pm (adds addr info_hash now now') = (add_peer pm addr info_hash now now').0
step pm (connects addr connected e now now') = update_peer_connection pm addr connected e now now'
step pm (transfers addr down up now) = update_peer_stats pm addr down up now
step pm (removes addr) = remove_peer pm addr
step pm (drops_stale max_age now) = (remove_stale_peers pm max_age now).0
step pm (drops_failed max_failures) = (remove_failed_peers pm max_failures).0
step pm clears = clear pm

pub run : PeerManager → List Call → PeerManager
run pm [] = pm
run pm (c ∷ cs) = run (step pm c) cs

update_peer_connection-IsIndexed :
    (pm : PeerManager) (addr : Bytes) (connected : Bool) (e : Option Bytes) (now now' : ℕ)
    → IsIndexed pm.peers
    → IsIndexed (update_peer_connection pm addr connected e now now').peers
update_peer_connection-IsIndexed pm addr connected e now now' h =
    elim (Option-cases (lookup bytes_discrete addr pm.peers)) [
      | inl q ↦ rw (peers-update_peer_connection pm addr connected e now now', q) h
      | inr (p, q) ↦
          rw (peers-update_peer_connection pm addr connected e now now', q)
            (insert-IsIndexed addr _ pm.peers
              (rw addr-note_connection (stored-addr addr p pm.peers h q)) h)
    ]

update_peer_stats-IsIndexed :
    (pm : PeerManager) (addr : Bytes) (down up now : ℕ)
    → IsIndexed pm.peers
    → IsIndexed (update_peer_stats pm addr down up now).peers
unfolding update_peer_stats
update_peer_stats-IsIndexed pm addr down up now h =
    elim (Option-cases (lookup bytes_discrete addr pm.peers)) [
      | inl q ↦ rw (q, update_peer_stats) h
      | inr (p, q) ↦
          rw (q, update_peer_stats, peers-update_stats)
            (insert-IsIndexed addr _ pm.peers (stored-addr addr p pm.peers h q) h)
    ]

retain-IsIndexed :
    (keep : Bytes → PeerInfo → Bool) (m : GoMap Bytes PeerInfo)
    → IsIndexed m
    → IsIndexed (retain keep m)
retain-IsIndexed keep m h =
    (retain-Distinct bytes_discrete keep m h.0, retain-Keyed (λ p. p.addr) keep m h.1)

-- The entries that are left are those that are not bad, whichever branch is taken.
pub remove_where_lem :
    (bad : PeerInfo → Bool) (pm : PeerManager)
    → ((remove_where bad pm).0.peers ≡ retain (λ k p. not (bad p)) pm.peers)
      × ((remove_where bad pm).1 ≡ count_if bad (values pm.peers))
unfolding remove_where
remove_where_lem bad pm = elim (Bool-cases (ltb 0 (count_if bad (values pm.peers)))) [
  | inl h ↦ rw (delete_where_lem bad pm.peers, h) (peers-update_stats _, refl)
  | inr h ↦ rw (delete_where_lem bad pm.peers, h) (refl, refl)
]

remove_where-IsValid :
    (bad : PeerInfo → Bool) (pm : PeerManager) → IsValid pm → IsValid (remove_where bad pm).0
remove_where-IsValid bad pm v = record {
  current = remove_where-IsCurrent bad pm v.current;
  indexed = rw ((remove_where_lem bad pm).0) (retain-IsIndexed _ pm.peers v.indexed);
}

pub step-IsValid : (pm : PeerManager) (c : Call) → IsValid pm → IsValid (step pm c)
unfolding step remove_peer remove_stale_peers remove_failed_peers clear
step-IsValid pm (adds addr info_hash now now') v = record {
  current = add_peer-IsCurrent pm addr info_hash now now' v.current;
  indexed = add_peer-IsIndexed pm addr info_hash now now' v.indexed;
}
step-IsValid pm (connects addr connected e now now') v = record {
  current = update_peer_connection-IsCurrent pm addr connected e now now' v.current;
  indexed = update_peer_connection-IsIndexed pm addr connected e now now' v.indexed;
}
step-IsValid pm (transfers addr down up now) v = record {
  current = update_peer_stats-IsCurrent pm addr down up now v.current;
  indexed = update_peer_stats-IsIndexed pm addr down up now v.indexed;
}
step-IsValid pm (removes addr) v =
    update_stats-IsValid (record pm { peers = delete bytes_discrete addr pm.peers })
      (
        delete-Distinct bytes_discrete addr pm.peers v.indexed.0,
        delete-Keyed bytes_discrete (λ p. p.addr) addr pm.peers v.indexed.1,
      )
step-IsValid pm (drops_stale max_age now) v = remove_where-IsValid (is_stale now max_age) pm v
step-IsValid pm (drops_failed max_failures) v =
    remove_where-IsValid (has_failed_often max_failures) pm v
step-IsValid pm clears v = update_stats-IsValid (record pm { peers = [] }) (tt, tt)

new-IsValid : IsValid new_peer_manager
new-IsValid = record {
  current = record { total = refl; connected = refl; failed = refl; down = refl; up = refl };
  indexed = (tt, tt);
}

run-IsValid : (pm : PeerManager) (cs : List Call) → IsValid pm → IsValid (run pm cs)
unfolding run
run-IsValid pm [] v = v
run-IsValid pm (c ∷ cs) v = run-IsValid (step pm c) cs (step-IsValid pm c v)

-- After any sequence of calls on a new manager the statistics are those of the tracked peers: the
-- numbers of peers, of connected and of failed ones, and the byte totals modulo 2 ^ 64; each
-- address has one entry at most, and each entry stands under its own address.
pub run-new-IsValid : (cs : List Call) → IsValid (run new_peer_manager cs)
run-new-IsValid cs = run-IsValid new_peer_manager cs new-IsValid
