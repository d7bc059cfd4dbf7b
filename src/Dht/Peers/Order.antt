-- ===== src/Dht/Peers/Order.antt =====
-- The order in which `range` meets the peers does not matter for the statistics.
use mathlib.Core.List.{Permᴰ}
use mathlib.Core.Quot
use mathlib.Core.Quot.{Quot}
use libreseed.Prelude.{ℕ, ◌≡◌, refl, ◌∙◌, sym, ap, List, [], ◌∷◌, arith, length, add_word}
use libreseed.Text.{Bytes}
use libreseed.GoMap.{GoMap, values}
use libreseed.Dht.Peers.{
  PeerInfo, PeerStats, PeerManager, count_peer, count_peers, set_averages, update_stats,
}

add_word_swap : (s a b : ℕ) → add_word (add_word s a) b ≡ add_word (add_word s b) a
unfolding add_word
add_word_swap s a b = omega arith

count_peer_swap :
    (s : PeerStats) (p q : PeerInfo) → count_peer (count_peer s p) q ≡ count_peer (count_peer s q) p
unfolding count_peer
count_peer_swap s p q = ground (
  arith,
  add_word_swap s.total_bytes_down p.bytes_download q.bytes_download,
  add_word_swap s.total_bytes_up p.bytes_upload q.bytes_upload,
)

count_peers-Permᴰ :
    (s : PeerStats) {ps qs : List PeerInfo} → Permᴰ ps qs → count_peers s ps ≡ count_peers s qs
unfolding count_peers
count_peers-Permᴰ s Permᴰ.nil = refl
count_peers-Permᴰ s (Permᴰ.cons {a} {b} {l₁} {l₂} e d) =
    ap (λ p. count_peers (count_peer s p) l₁) e ∙ count_peers-Permᴰ (count_peer s b) d
count_peers-Permᴰ s (Permᴰ.swap {a} {b} {a'} {b'} {l} e f) =
    ap (λ t. count_peers t l)
      (count_peer_swap s a b
        ∙ ap (λ p. count_peer (count_peer s b) p) e
        ∙ ap (λ p. count_peer (count_peer s p) b') f)
count_peers-Permᴰ s (Permᴰ.trans d e) = count_peers-Permᴰ s d ∙ count_peers-Permᴰ s e

length-Permᴰ : {ps qs : List PeerInfo} → Permᴰ ps qs → length ps ≡ length qs
length-Permᴰ Permᴰ.nil = refl
length-Permᴰ (Permᴰ.cons e d) = omega (arith, length-Permᴰ d)
length-Permᴰ (Permᴰ.swap e f) = refl
length-Permᴰ (Permᴰ.trans d e) = omega (arith, length-Permᴰ d, length-Permᴰ e)

length-values : (m : GoMap Bytes PeerInfo) → length m ≡ length (values m)
length-values [] = refl
length-values ((k, p) ∷ m) = omega (arith, length-values m)

-- `updateStats` of a list of peers.
abbrev pub stats_of : PeerStats → List PeerInfo → PeerStats
stats_of s ps =
    let cleared : PeerStats = record s {
      total_peers = length ps;
      connected_peers = 0;
      failed_peers = 0;
      total_bytes_down = 0;
      total_bytes_up = 0;
    } in
    set_averages (count_peers cleared ps)

stats-update_stats :
    (pm : PeerManager) → (update_stats pm).stats ≡ stats_of pm.stats (values pm.peers)
unfolding update_stats
stats-update_stats pm = rw (length-values pm.peers) refl

stats_of-Permᴰ :
    (s : PeerStats) {ps qs : List PeerInfo} → Permᴰ ps qs → stats_of s ps ≡ stats_of s qs
stats_of-Permᴰ s {ps} {qs} d = rw (length-Permᴰ d) (ap set_averages (count_peers-Permᴰ _ d))

-- Peers without an order.
abbrev pub PeerBag : Type 0
PeerBag = Quot {α = List PeerInfo} Permᴰ

PeerStats-set : IsSet PeerStats
PeerStats-set = hlevel

bag_stats : PeerStats → PeerBag → PeerStats
bag_stats s = Quot.lift PeerStats-set (stats_of s) (λ ps qs d. stats_of-Permᴰ s d)

update_stats-PeerBag :
    (pm : PeerManager) → (update_stats pm).stats ≡ bag_stats pm.stats (Quot.mk (values pm.peers))
unfolding bag_stats
update_stats-PeerBag pm = stats-update_stats pm

-- Two managers with the same statistics, whose maps hold the same peers in different orders, have
-- the same statistics after `updateStats`: the order in which `range` meets the entries does not
-- matter.
pub update_stats_order :
    (a b : PeerManager)
    → a.stats ≡ b.stats
    → Permᴰ (values a.peers) (values b.peers)
    → (update_stats a).stats ≡ (update_stats b).stats
update_stats_order a b e d =
    update_stats-PeerBag a
    ∙ (ap (λ s. bag_stats s (Quot.mk (values a.peers))) e ∙ ap (bag_stats b.stats) (Quot.sound d))
    ∙ sym (update_stats-PeerBag b)
