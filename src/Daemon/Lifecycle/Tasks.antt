-- ===== src/Daemon/Lifecycle/Tasks.antt =====
-- What the periodic tasks of the daemon do to its peers, its cache and its state.
use libreseed.Prelude.{[], ℕ, ◌+◌, ◌*◌, ◌≡◌, refl, ◌∙◌, sym, true, not, length}
use libreseed.Text.{Bytes, bytes_discrete}
use libreseed.GoMap.{values, Distinct}
use libreseed.GoMap.Laws.{keep_if}
use libreseed.Daemon.Lifecycle.{Daemon, perform_periodic_tasks}
use libreseed.Dht.Client
use libreseed.Dht.Discovery.{get_all_results}
use libreseed.Dht.Discovery.Cache.{clear_expired_lem}
use libreseed.Dht.Peers.{find, is_stale, remove_stale_peers, get_stats}
use libreseed.Dht.Peers.Entries.{IsValid}
use libreseed.Dht.Peers.Queries.{remove_stale_peers_lem}

-- What the tasks leave of a daemon with the DHT, with `removed` peers fewer.
pub record IsMaintained (d after : Daemon) (num_nodes now now' removed : ℕ) : Type 0 where
  pub nodes : d.client.has_server ≡ true → after.state.dht_nodes ≡ num_nodes
  pub total : after.state.total_peers ≡ length after.peers.peers + removed
  pub fresh :
      (addr : Bytes)
      → find addr after.peers
        ≡ keep_if bytes_discrete
            (λ _ p. not (is_stale now (5 * 60000000000) p))
            addr
            (find addr d.peers)
  pub current : values after.discovery.cache ≡ get_all_results d.discovery now'

-- The periodic tasks of a daemon with the DHT remove exactly the peers that were not seen for
-- more than five minutes, and leave in the cache what `GetAllResults` would have returned. They
-- report the size of the routing table if there is a server, and as the number of peers that
-- before the removal: the peers that are left and those that were removed.
pub perform_periodic_tasks-IsMaintained :
    (d : Daemon) (num_nodes now now' : ℕ)
    → d.enable_dht ≡ true
    → IsValid d.peers
    → Distinct bytes_discrete d.discovery.cache
    → IsMaintained d
        (perform_periodic_tasks d num_nodes now now')
        num_nodes
        now
        now'
        (remove_stale_peers d.peers (5 * 60000000000) now).1
unfolding perform_periodic_tasks Client.get_stats get_stats
perform_periodic_tasks-IsMaintained d num_nodes now now' h v c = record {
  nodes = λ s. rw (h, s) refl;
  total =
      rw h (
        v.current.total
        ∙ sym (remove_stale_peers_lem d.peers (5 * 60000000000) now [] v.indexed).1);
  fresh = λ addr. rw h (remove_stale_peers_lem d.peers (5 * 60000000000) now addr v.indexed).0;
  current = rw h (clear_expired_lem d.discovery now' [] c).2;
}
