-- ===== src/Dht/Peers/Entries.antt =====
-- The peers that the manager tracks, after any sequence of calls.
use libreseed.Prelude.{ℕ, ◌≡◌, refl, Bool, true, false, Option, none, some, Option-cases, inl, inr}
use libreseed.Text.{Bytes, bytes_discrete}
use libreseed.GoMap.{GoMap, lookup, insert, Distinct, Keyed}
use libreseed.GoMap.Laws.{insert-Distinct}
use libreseed.GoMap.Keys.{insert-Keyed, lookup-Keyed}
use libreseed.Dht.Peers.{
  PeerInfo, PeerManager, update_stats, add_peer, update_peer_connection, note_connection,
  note_last_connection, find,
}
use libreseed.Dht.Peers.Stats.{IsCurrent, update_stats-IsCurrent}

-- One entry for each address, and each under its own address.
abbrev pub IsIndexed : GoMap Bytes PeerInfo → Type 0
IsIndexed m = Distinct bytes_discrete m × Keyed (λ p. p.addr) m

pub record IsValid (pm : PeerManager) : Type 0 where
  pub current : IsCurrent pm
  pub indexed : IsIndexed pm.peers

pub peers-update_stats : (pm : PeerManager) → (update_stats pm).peers ≡ pm.peers
unfolding update_stats
peers-update_stats pm = refl

pub update_stats-IsValid : (pm : PeerManager) → IsIndexed pm.peers → IsValid (update_stats pm)
update_stats-IsValid pm h = record {
  current = update_stats-IsCurrent pm;
  indexed = rw (peers-update_stats pm) h;
}

pub insert-IsIndexed :
    (key : Bytes) (p : PeerInfo) (m : GoMap Bytes PeerInfo)
    → p.addr ≡ key
    → IsIndexed m
    → IsIndexed (insert bytes_discrete key p m)
insert-IsIndexed key p m e h = (
  insert-Distinct bytes_discrete key p m h.0,
  insert-Keyed bytes_discrete (λ q. q.addr) key p m e h.1,
)

pub stored-addr :
    (key : Bytes) (p : PeerInfo) (m : GoMap Bytes PeerInfo)
    → IsIndexed m
    → lookup bytes_discrete key m ≡ some p
    → p.addr ≡ key
stored-addr key p m h e = lookup-Keyed bytes_discrete (λ q. q.addr) key p m h.1 e

pub add_peer-IsIndexed :
    (pm : PeerManager) (addr info_hash : Bytes) (now now' : ℕ)
    → IsIndexed pm.peers
    → IsIndexed (add_peer pm addr info_hash now now').0.peers
unfolding add_peer
add_peer-IsIndexed pm addr info_hash now now' h =
    elim (Option-cases (lookup bytes_discrete addr pm.peers)) [
      | inl e ↦ rw (e, add_peer, peers-update_stats) (insert-IsIndexed addr _ pm.peers refl h)
      | inr (p, e) ↦
          rw (e, add_peer) (insert-IsIndexed addr _ pm.peers (stored-addr addr p pm.peers h e) h)
    ]

pub addr-note_connection :
    (p : PeerInfo) (connected : Bool) (e : Option Bytes) (now : ℕ)
    → (note_connection p connected e now).addr ≡ p.addr
unfolding note_connection
addr-note_connection p true none now = refl
addr-note_connection p false none now = refl
addr-note_connection p connected (some e) now = refl

peers-note_last_connection :
    (pm : PeerManager) (connected : Bool) (e : Option Bytes) (now : ℕ)
    → (note_last_connection pm connected e now).peers ≡ pm.peers
unfolding note_last_connection
peers-note_last_connection pm true none now = refl
peers-note_last_connection pm true (some e) now = refl
peers-note_last_connection pm false none now = refl
peers-note_last_connection pm false (some e) now = refl

-- What the two updates do to the map.
pub peers-update_peer_connection :
    (pm : PeerManager) (addr : Bytes) (connected : Bool) (e : Option Bytes) (now now' : ℕ)
    → (update_peer_connection pm addr connected e now now').peers ≡ (elim (find addr pm) [
      | none ↦ pm.peers
      | some p ↦ insert bytes_discrete addr (note_connection p connected e now) pm.peers
    ])
unfolding update_peer_connection
peers-update_peer_connection pm addr connected e now now' =
    elim (Option-cases (lookup bytes_discrete addr pm.peers)) [
      | inl h ↦ rw (h, update_peer_connection) refl
      | inr (p, h) ↦
          rw (h, update_peer_connection) (rw (peers-update_stats, peers-note_last_connection) refl)
    ]
