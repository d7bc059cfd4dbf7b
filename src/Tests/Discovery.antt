-- ===== src/Tests/Discovery.antt =====
-- pkg/dht/discovery.go on one package.
use libreseed.Prelude.{◌≡◌, refl, false, none, List, [], ◌∷◌, ok, err, signed_lt, sub_time}
use libreseed.Text.{Bytes, codes}
use libreseed.GoMap.{lookup}
use libreseed.Dht.Discovery.{new_discovery, check_cache}
use libreseed.Dht.Discovery.Runs.{
  Call, finds, refreshes, expires, run, IsValid, run-new_discovery-IsValid,
}
use libreseed.Tests.Samples.{twenty}

abbrev peers : List Bytes
peers = codes "10.0.0.1:6881" ∷ []

abbrev calls : List Call
calls =
    finds (twenty 1) (codes "tool") (ok peers) 10 11 12
    ∷ finds (twenty 2) (codes "lib") (err (codes "timeout")) 13 14 15
    ∷ refreshes (λ _. false) (λ _. ok peers) (λ _. 16)
    ∷ expires 20
    ∷ []

run-new_discovery-IsValid_example : IsValid (run (new_discovery 5) calls)
run-new_discovery-IsValid_example = run-new_discovery-IsValid 5 calls

sample_miss : check_cache (new_discovery 5) (twenty 1) 10 ≡ none
unfolding check_cache lookup
sample_miss = refl

sample_fresh : signed_lt 5 (sub_time 14 11) ≡ false
unfolding signed_lt sub_time
sample_fresh = refl
