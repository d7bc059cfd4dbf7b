-- ===== src/Dht/Client.antt =====
-- pkg/dht/client.go: the wrapper of the DHT server. The server, the network and the clock are
-- arguments; the goroutines of a bootstrap are counted by what their pings return.
pub mod Calls
use libreseed.Prelude.{
  ℕ, ◌+◌, ◌*◌, Bool, true, false, not, Option, none, some, List, [], ◌∷◌, ◌++◌, add_word, signed_lt,
  sub_time, if◌then◌else◌, Result, ok, err,
}
use libreseed.Text.{Bytes, codes, bytes_eq}

pub record ClientConfig : Type 0 where
  pub port : ℕ
  pub bootstrap_nodes : List Bytes
  pub node_id : Bytes
  pub announce_interval : ℕ

pub record ClientStats : Type 0 where
  pub nodes_in_routing_table : ℕ
  pub total_queries : ℕ
  pub total_responses : ℕ
  pub total_announces : ℕ
  pub total_lookups : ℕ
  pub last_bootstrap : ℕ

-- `has_server` says that the server is not nil, `cancelled` that the context is.
pub record Client : Type 0 where
  pub config : ClientConfig
  pub has_server : Bool
  pub started : Bool
  pub cancelled : Bool
  pub stats : ClientStats
  pub node_id : Bytes

abbrev pub default_client_config : Bytes → ClientConfig
default_client_config zero_id = record {
  port = 6881;
  bootstrap_nodes =
      codes "router.bittorrent.com:6881"
      ∷ codes "dht.transmissionbt.com:6881"
      ∷ codes "router.utorrent.com:6881"
      ∷ [];
  node_id = zero_id;
  announce_interval = 30 * 60000000000;
}

-- The zero value of a [20]byte.
abbrev pub zero_id : Bytes
zero_id = 0 ∷ 0 ∷ 0 ∷ 0 ∷ 0 ∷ 0 ∷ 0 ∷ 0 ∷ 0 ∷ 0 ∷ 0 ∷ 0 ∷ 0 ∷ 0 ∷ 0 ∷ 0 ∷ 0 ∷ 0 ∷ 0 ∷ 0 ∷ []

abbrev pub or_default : Option ClientConfig → ClientConfig
or_default none = default_client_config zero_id
or_default (some config) = config

abbrev pub zero_stats : ClientStats
zero_stats = record {
  nodes_in_routing_table = 0;
  total_queries = 0;
  total_responses = 0;
  total_announces = 0;
  total_lookups = 0;
  last_bootstrap = 0;
}

-- `NewClient`: a nil configuration is the default one.
unfoldable pub new_client : Option ClientConfig → Client
new_client o =
    let config : ClientConfig = or_default o in
    record {
      config = config;
      has_server = false;
      started = false;
      cancelled = false;
      stats = zero_stats;
      node_id =
          if bytes_eq config.node_id zero_id then codes "libreseed-node-00000" else config.node_id;
    }

pub data ClientError : Type 0 where
  already_started no_connection no_server not_started not_announced : ClientError

-- `Start`: whether the socket and the server can be created.
unfoldable pub start : Client → Bool → Bool → Result ClientError (Unit {0}) × Client
start c connects serves =
    if c.started
    then (err already_started, c)
    else if not connects
    then (err no_connection, c)
    else if not serves
    then (err no_server, c)
    else (ok tt, record c { has_server = true; started = true })

-- `Stop` returns no error.
unfoldable pub stop : Client → Client
stop c = if c.started then record c { cancelled = true; started = false } else c

-- `Announce`: `accepted` says that the server's Announce returns no error.
unfoldable pub announce : Client → Bool → Result ClientError (Unit {0}) × Client
announce c accepted =
    if not c.started
    then (err not_started, c)
    else if not accepted
    then (err not_announced, c)
    else (
      ok tt,
      (let s : ClientStats = record c.stats {
        total_announces = add_word c.stats.total_announces 1;
      } in
          record c { stats = s }),
    )

-- The loop of `GetPeers` over what comes from the channel before the timeout: a batch of peers, or
-- the closing of the channel (`none`).
unfoldable pub collect : List Bytes → List (Option (List Bytes)) → List Bytes
collect peers [] = peers
collect peers (none ∷ es) = peers
collect peers (some batch ∷ es) = collect (peers ++ batch) es

-- `GetPeers`.
unfoldable pub get_peers :
    Client → Bool → List (Option (List Bytes)) → Result ClientError (List Bytes) × Client
unfolding collect
get_peers c accepted events =
    if not c.started
    then (err not_started, c)
    else if not accepted
    then (err not_announced, c)
    else (
      ok (collect [] events),
      (let s : ClientStats = record c.stats { total_lookups = add_word c.stats.total_lookups 1 } in
          record c { stats = s }),
    )

-- `GetStats` reads the size of the routing table first, if there is a server, and returns the
-- figures that it has stored.
unfoldable pub get_stats : Client → ℕ → ClientStats × Client
get_stats c num_nodes =
    let s : ClientStats =
      if c.has_server then record c.stats { nodes_in_routing_table = num_nodes } else c.stats in
    (s, record c { stats = s })

-- What the network library makes of a host: its parts, its addresses, and which are IPv4.
pub record Resolver : Type 0 where
  pub split_host_port : Bytes → Option (Bytes × Bytes)
  pub lookup_ip : Bytes → Option (List Bytes)
  pub to4 : Bytes → Option Bytes
  pub scan_int : Bytes → Option ℕ

-- The port of an address: 0 if the text is not a number.
abbrev pub parse_port : Option ℕ → ℕ
parse_port none = 0
parse_port (some port) = port

pub record Address : Type 0 where
  pub ip : Bytes
  pub port : ℕ

-- The loop over the addresses of a host: its first IPv4 address.
unfoldable pub first_v4 : Resolver → List Bytes → Option Bytes
first_v4 net [] = none
first_v4 net (ip ∷ ips) = elim (net.to4 ip) [ some v4 ↦ some v4 | none ↦ first_v4 net ips ]

unfoldable pub resolve_host : Resolver → Bytes → Bytes → Option Address
unfolding first_v4
resolve_host net host port = elim (net.lookup_ip host) [
  | none ↦ none
  | some ips ↦ elim (first_v4 net ips) [
    | none ↦ none
    | some v4 ↦ some (record { ip = v4; port = parse_port (net.scan_int port) })
  ]
]

unfoldable pub resolve_node : Resolver → Bytes → Option Address
unfolding resolve_host
resolve_node net node = elim (net.split_host_port node) [
  | none ↦ none
  | some parts ↦ resolve_host net parts.0 parts.1
]

-- `resolveBootstrapNodes`, which returns no error.
unfoldable pub resolve_bootstrap_nodes : Resolver → List Bytes → List Address
unfolding resolve_node
resolve_bootstrap_nodes net [] = []
resolve_bootstrap_nodes net (node ∷ nodes) =
    let rest = resolve_bootstrap_nodes net nodes in
    elim (resolve_node net node) [ none ↦ rest | some a ↦ a ∷ rest ]

-- The pings of a bootstrap; only one that is answered is counted.
unfoldable pub count_pings : (Address → Bool) → List Address → ClientStats → ClientStats
count_pings answers [] s = s
count_pings answers (a ∷ rest) s =
    let t : ClientStats = record s {
      total_queries = add_word s.total_queries 1;
      total_responses = add_word s.total_responses 1;
    } in
    count_pings answers rest (if answers a then t else s)

-- `bootstrap`: whether there was a server, and the client when its pings are done.
unfoldable pub bootstrap : Client → Resolver → (Address → Bool) → ℕ → Bool × Client
unfolding count_pings resolve_bootstrap_nodes
bootstrap c net answers now =
    if c.has_server
    then (
      true,
      (let s : ClientStats =
            count_pings answers (resolve_bootstrap_nodes net c.config.bootstrap_nodes) c.stats in
          let t : ClientStats = record s { last_bootstrap = now } in record c { stats = t }),
    )
    else (false, c)

-- One tick of `periodicTasks`: a bootstrap if the last is more than half an hour ago.
unfoldable pub periodic_tick : Client → Resolver → (Address → Bool) → ℕ → ℕ → Client
unfolding bootstrap
periodic_tick c net answers now now' =
    if signed_lt (30 * 60000000000) (sub_time now c.stats.last_bootstrap)
    then (bootstrap c net answers now').1
    else c
