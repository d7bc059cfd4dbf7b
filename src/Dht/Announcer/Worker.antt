-- ===== src/Dht/Announcer/Worker.antt =====
-- pkg/dht/announcer.go, `worker`, and what the rest of the daemon does to the announcer meanwhile:
-- `AddPackage`, `RemovePackage` and the end of the context, at any moment. A round copies the map
-- under the lock and then takes the lock once for each announcement; between these the other calls
-- may come.
pub mod Announcing
use libreseed.Prelude.{ℕ, ◌+◌, Bool, true, false, Option, List, [], ◌∷◌, map}
use libreseed.Text.{Bytes}
use libreseed.GoMap.{values}
use libreseed.Dht.Announcer.{Announcer, add_package, remove_package, announce_package}

-- Where the worker is: before its first round, in a round with these hashes still to be announced,
-- at the `select`, or returned.
pub data Phase : Type 0 where
  beginning selecting returned : Phase
  announcing : Bytes → List Bytes → Phase

pub record Worker : Type 0 where
  pub packages : Announcer
  pub cancelled : Bool
  pub phase : Phase

-- The calls of the other goroutines, and the steps of the worker: it copies the map, at its start
-- or when `select` takes a tick; the client answers, and the answer is written down; `select` takes
-- the context.
pub data Event : Type 0 where
  adds : Bytes → Bytes → Bytes → Bytes → Event
  removes : Bytes → Event
  cancels copies takes_done : Event
  answers : Option Bytes → ℕ → Event

-- What is left of a round.
abbrev pub remaining : List Bytes → Phase
remaining [] = selecting
remaining (h ∷ hs) = announcing h hs

-- The hashes that `announceAll` copies.
abbrev pub copied : Announcer → List Bytes
copied a = map (λ p. p.info_hash) (values a)

-- `announceAll` up to the end of its copy.
unfoldable pub copy : Worker → Phase → Phase
copy w beginning = remaining (copied w.packages)
copy w selecting = remaining (copied w.packages)
copy w (announcing h hs) = announcing h hs
copy w returned = returned

-- `announcePackage` from the answer of the client on.
unfoldable pub answer : Worker → Option Bytes → ℕ → Phase → Worker
answer w result now (announcing h hs) = record w {
  packages = announce_package w.packages h result now;
  phase = remaining hs;
}
answer w result now _ = w

-- `select` takes `ctx.Done()`, which it can once the context has ended.
unfoldable pub take_done : Bool → Phase → Phase
take_done true selecting = returned
take_done _ phase = phase

-- One event. A step that the worker cannot take where it is changes nothing.
unfoldable pub step : Worker → Event → Worker
unfolding copy answer take_done
step w (adds h name creator maintainer) = record w {
  packages = add_package w.packages h name creator maintainer;
}
step w (removes h) = record w { packages = remove_package w.packages h }
step w cancels = record w { cancelled = true }
step w copies = record w { phase = copy w w.phase }
step w (answers result now) = answer w result now w.phase
step w takes_done = record w { phase = take_done w.cancelled w.phase }

unfoldable pub run : Worker → List Event → Worker
unfolding step
run w [] = w
run w (e ∷ es) = run (step w e) es

-- The worker that `Announcer.Start` starts, over the map of that moment.
abbrev pub started : Announcer → Worker
started a = record { packages = a; cancelled = false; phase = beginning }
