-- ===== src/Dht/Client/Calls.antt =====
-- What sequences of calls of the DHT client keep, and what a bootstrap resolves.
use libreseed.Prelude.{
  ℕ, ◌≡◌, ◌≤◌, refl, Bool, true, Option, List, [], ◌∷◌, arith, Bool-cases, inl, inr, length,
  signed_lt, sub_time, ◌*◌,
}
use libreseed.Text.{Bytes}
use libreseed.Dht.Client.{
  Client, ClientConfig, ClientStats, Resolver, Address, new_client, start, stop, announce,
  get_peers, get_stats, count_pings, bootstrap, periodic_tick, resolve_bootstrap_nodes,
}

pub data Call : Type 0 where
  starts : Bool → Bool → Call
  stops : Call
  announces : Bool → Call
  looks_up : Bool → List (Option (List Bytes)) → Call
  reads : ℕ → Call
  bootstraps : Resolver → (Address → Bool) → ℕ → Call
  ticks : Resolver → (Address → Bool) → ℕ → ℕ → Call

pub step : Client → Call → Client
step c (starts connects serves) = (start c connects serves).1
step c stops = stop c
step c (announces accepted) = (announce c accepted).1
step c (looks_up accepted events) = (get_peers c accepted events).1
step c (reads num_nodes) = (get_stats c num_nodes).1
step c (bootstraps net answers now) = (bootstrap c net answers now).1
step c (ticks net answers now now') = periodic_tick c net answers now now'

pub run : Client → List Call → Client
run c [] = c
run c (k ∷ ks) = run (step c k) ks

-- A client that is started has a server, and every query that is counted has been answered.
pub record IsValid (c : Client) : Type 0 where
  pub serving : c.started ≡ true → c.has_server ≡ true
  pub answered : c.stats.total_queries ≡ c.stats.total_responses

count_pings-answered :
    (answers : Address → Bool) (addrs : List Address) (s : ClientStats)
    → s.total_queries ≡ s.total_responses
    → (count_pings answers addrs s).total_queries ≡ (count_pings answers addrs s).total_responses
unfolding count_pings
count_pings-answered answers [] s h = h
count_pings-answered answers (a ∷ rest) s h = count_pings-answered answers rest _ (ground arith)

bootstrap-answered :
    (c : Client) (net : Resolver) (answers : Address → Bool) (now : ℕ)
    → c.stats.total_queries ≡ c.stats.total_responses
    → (bootstrap c net answers now).1.stats.total_queries
      ≡ (bootstrap c net answers now).1.stats.total_responses
unfolding bootstrap
bootstrap-answered c net answers now h =
    let pinged =
      count_pings-answered answers (resolve_bootstrap_nodes net c.config.bootstrap_nodes) c.stats
        h in
    ground (arith, pinged)

bootstrap-IsValid :
    (c : Client) (net : Resolver) (answers : Address → Bool) (now : ℕ)
    → IsValid c
    → IsValid (bootstrap c net answers now).1
unfolding bootstrap
bootstrap-IsValid c net answers now v = record {
  serving = ground (arith, v.serving);
  answered = bootstrap-answered c net answers now v.answered;
}

step-IsValid : (c : Client) (k : Call) → IsValid c → IsValid (step c k)
unfolding step start stop announce get_peers get_stats periodic_tick
step-IsValid c (starts connects serves) v = record {
  serving = ground (arith, v.serving);
  answered = ground (arith, v.answered);
}
step-IsValid c stops v = record {
  serving = ground (arith, v.serving);
  answered = ground (arith, v.answered);
}
step-IsValid c (announces accepted) v = record {
  serving = ground (arith, v.serving);
  answered = ground (arith, v.answered);
}
step-IsValid c (looks_up accepted events) v = record {
  serving = ground (arith, v.serving);
  answered = ground (arith, v.answered);
}
step-IsValid c (reads num_nodes) v = record {
  serving = v.serving;
  answered = ground (arith, v.answered);
}
step-IsValid c (bootstraps net answers now) v = bootstrap-IsValid c net answers now v
step-IsValid c (ticks net answers now now') v =
    elim (Bool-cases (signed_lt (30 * 60000000000) (sub_time now c.stats.last_bootstrap))) [
      | inl h ↦ rw h (bootstrap-IsValid c net answers now' v)
      | inr h ↦ rw h v
    ]

run-IsValid : (c : Client) (ks : List Call) → IsValid c → IsValid (run c ks)
unfolding run
run-IsValid c [] v = v
run-IsValid c (k ∷ ks) v = run-IsValid (step c k) ks (step-IsValid c k v)

-- After any sequence of calls on a new client, bootstraps and ticks included, it has a server if it
-- is started, and the number of queries is that of the responses: a ping without an answer is not
-- counted as a query.
pub run-new_client-IsValid :
    (config : Option ClientConfig) (ks : List Call) → IsValid (run (new_client config) ks)
unfolding new_client
run-new_client-IsValid config ks =
    run-IsValid (new_client config) ks (record { serving = λ h. cc; answered = refl })

-- A bootstrap pings one address at most for each node of the configuration.
pub length-resolve_bootstrap_nodes :
    (net : Resolver) (nodes : List Bytes)
    → length (resolve_bootstrap_nodes net nodes) ≤ length nodes
unfolding resolve_bootstrap_nodes
length-resolve_bootstrap_nodes net [] = omega arith
length-resolve_bootstrap_nodes net (node ∷ nodes) =
    ground (arith, length-resolve_bootstrap_nodes net nodes)
