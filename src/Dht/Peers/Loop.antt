-- ===== src/Dht/Peers/Loop.antt =====
-- What the loop of `updateStats` computes: counts, and sums modulo 2 ^ 64.
use libreseed.Prelude.{ℕ, ◌+◌, ◌%◌, ◌≡◌, List, [], ◌∷◌, arith, count_if, sum_of, add_word, word}
use libreseed.Dht.Peers.{PeerInfo, PeerStats, count_peer, count_peers}

-- The figures that depend on the peers alone.
pub record Figures (s : PeerStats) (n : ℕ) (ps : List PeerInfo) : Type 0 where
  pub total : s.total_peers ≡ n
  pub connected : s.connected_peers ≡ count_if (λ p. p.connection_ok) ps
  pub failed : s.failed_peers ≡ count_if (λ p. p.failed) ps
  pub down : s.total_bytes_down ≡ sum_of (λ p. p.bytes_download) ps % word
  pub up : s.total_bytes_up ≡ sum_of (λ p. p.bytes_upload) ps % word

pub connected-count_peers :
    (s : PeerStats) (ps : List PeerInfo)
    → (count_peers s ps).connected_peers ≡ s.connected_peers + count_if (λ p. p.connection_ok) ps
unfolding count_peers
connected-count_peers s [] = omega arith
connected-count_peers s (p ∷ ps) = ground (arith, connected-count_peers (count_peer s p) ps)

pub failed-count_peers :
    (s : PeerStats) (ps : List PeerInfo)
    → (count_peers s ps).failed_peers ≡ s.failed_peers + count_if (λ p. p.failed) ps
unfolding count_peers
failed-count_peers s [] = omega arith
failed-count_peers s (p ∷ ps) = ground (arith, failed-count_peers (count_peer s p) ps)

pub down-count_peers :
    (s : PeerStats) (ps : List PeerInfo)
    → (count_peers s ps).total_bytes_down % word
      ≡ (s.total_bytes_down + sum_of (λ p. p.bytes_download) ps) % word
unfolding count_peers add_word
down-count_peers s [] = omega arith
down-count_peers s (p ∷ ps) = omega (arith, down-count_peers (count_peer s p) ps)

pub up-count_peers :
    (s : PeerStats) (ps : List PeerInfo)
    → (count_peers s ps).total_bytes_up % word
      ≡ (s.total_bytes_up + sum_of (λ p. p.bytes_upload) ps) % word
unfolding count_peers add_word
up-count_peers s [] = omega arith
up-count_peers s (p ∷ ps) = omega (arith, up-count_peers (count_peer s p) ps)
