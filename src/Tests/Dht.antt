-- ===== src/Tests/Dht.antt =====
-- pkg/dht on two peers and a package.
use mathlib.Core.List.{Permᴰ}
use mathlib.Core.Option.{none, some}
use libreseed.Prelude.{◌++◌, ◌≡◌, ◌+◌, refl, true, false, List, [], ◌∷◌, All}
use libreseed.Text.{Bytes, codes, bytes_discrete}
use libreseed.GoMap.{lookup, insert}
use libreseed.Dht.Peers.{
  PeerManager, PeerInfo, new_peer, zero_stats, new_peer_manager, update_stats,
}
use libreseed.Dht.Peers.Order.{update_stats_order}
use libreseed.Dht.Peers.Entries.{IsValid}
use libreseed.Dht.Peers.Runs.{
  Call, adds, connects, transfers, removes, clears, run, run-new-IsValid,
}
use libreseed.Dht.Announcer
use libreseed.Dht.Announcer.Rounds.{IsIndexed}
use libreseed.Dht.Announcer.Worker
use libreseed.Dht.Announcer.Worker.{Worker, started}
use libreseed.Dht.Announcer.Worker.Announcing.{
  count_of, pending, rounds, Spares, Counted, count_of-run,
}
use libreseed.Tests.Samples.{twenty, sixteen}

abbrev first : Bytes
first = codes "10.0.0.1:6881"

abbrev second : Bytes
second = codes "10.0.0.2:6881"

abbrev info_hash : Bytes
info_hash = twenty 1

abbrev calls : List Call
calls =
    adds first info_hash 10 11
    ∷ adds second info_hash 12 13
    ∷ connects first true none 14 15
    ∷ connects second false (some (codes "refused")) 16 17
    ∷ transfers first 100 50 18
    ∷ []

abbrev two_peers : PeerManager
two_peers = run new_peer_manager calls

two_peers-IsValid : IsValid two_peers
two_peers-IsValid = run-new-IsValid calls

run-new-IsValid_example : IsValid (run new_peer_manager (calls ++ (removes second ∷ clears ∷ [])))
run-new-IsValid_example = run-new-IsValid (calls ++ (removes second ∷ clears ∷ []))

-- The worker copies an empty map before the packages come. In its second round, once the first
-- answer has come, a third package is added and the first is removed.
abbrev begun : Worker
begun = Worker.run (started []) (
    Worker.copies
    ∷ Worker.adds (twenty 1) (codes "one") (sixteen 1) (sixteen 2)
    ∷ Worker.adds (twenty 2) (codes "two") (sixteen 1) (sixteen 2)
    ∷ Worker.copies
    ∷ [])

abbrev meanwhile : List Worker.Event
meanwhile =
    Worker.answers none 5
    ∷ Worker.adds (twenty 3) (codes "three") (sixteen 1) (sixteen 2)
    ∷ Worker.removes (twenty 1)
    ∷ Worker.answers (some (codes "no nodes")) 6
    ∷ Worker.copies
    ∷ Worker.answers none 7
    ∷ Worker.cancels
    ∷ []

begun-IsIndexed : IsIndexed begun.packages
unfolding Worker.run Worker.step Worker.copy Announcer.add_package insert lookup bytes_discrete
begun-IsIndexed = ((refl, (refl, tt)), (refl, (refl, tt)))

begun-count : count_of begun.packages (twenty 2) ≡ some 0
unfolding Worker.run Worker.step Worker.copy Announcer.add_package insert lookup bytes_discrete
begun-count = refl

meanwhile-Spares : All (Spares (twenty 2)) meanwhile
meanwhile-Spares = (tt, (tt, ((λ q. absurd (cc q)), (tt, (tt, (tt, (tt, tt)))))))

count_of-run_example :
    Counted
      (twenty 2)
      (Worker.run begun meanwhile)
      (0 + pending (twenty 2) begun.phase + rounds begun meanwhile)
count_of-run_example =
    count_of-run (twenty 2) begun meanwhile 0 begun-IsIndexed begun-count meanwhile-Spares

-- The same two peers in either order.
abbrev one : PeerInfo
one = record (new_peer first info_hash 10 11) { connection_ok = true; bytes_download = 100 }

abbrev two : PeerInfo
two = record (new_peer second info_hash 12 13) { failed = true; bytes_upload = 7 }

abbrev forward : PeerManager
forward = record { peers = (first, one) ∷ (second, two) ∷ []; stats = zero_stats }

abbrev backward : PeerManager
backward = record { peers = (second, two) ∷ (first, one) ∷ []; stats = zero_stats }

update_stats_order_example : (update_stats forward).stats ≡ (update_stats backward).stats
update_stats_order_example = update_stats_order forward backward refl (Permᴰ.swap refl refl)
