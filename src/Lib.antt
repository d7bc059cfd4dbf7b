-- ===== src/Lib.antt =====
-- The verification library of libreseed, a decentralised package store: a daemon that keeps
-- signed packages on disk, announces them in a DHT and answers HTTP requests.
--
-- The program's parts and the files that model them:
--   * pkg/crypto: Crypto/Keys (keys.go: `NewPublicKey`, `Fingerprint`, `Verify`, `String`),
--     Crypto/Signer (signer.go: `Sign`, `Verify`, `VerifyDualSignature`, `SignatureFromBytes`,
--     `Bytes`), with theorems in Crypto/Verifying, and Crypto/KeyManager (keymanager.go:
--     `EnsureKeysExist`, `GenerateAndSaveKeypair`, `LoadKeys`), with theorems below it.
--   * pkg/package: Package/Manifest (manifest.go: all types, each `Validate`, `ComputePackageID`),
--     with theorems in Package/WellFormed, Package/Description (description.go: `Validate`,
--     `ComputeDHTKey`, `UpdateDHTKey`), and Package/Loader (loader.go: packages in files).
--   * pkg/storage: Storage (filesystem.go: `AtomicWriteFile`, `FileExists`, `SafeRemove`), with
--     theorems in Storage/Atomic and Storage/WriteFile, Storage/Copy (`CopyFile`,
--     `ComputeFileHash`), Storage/Yaml (metadata.go: `SaveYAMLFile`, `LoadYAMLFile`), and
--     Storage/OsFiles (the functions of package os on whole files).
--   * pkg/daemon/package_manager.go: Daemon/PackageInfo (`validatePackageInfo`) and
--     Daemon/Packages (every method of `PackageManager`), with theorems below Daemon/Packages;
--     Daemon/Packages/Refinement has the abstract database.
--   * pkg/daemon/handlers.go: Daemon/AddHandler (`handlePackageAdd`, with `LoadPackageFromBytes`
--     and `SerializeManifest` of pkg/package/loader.go) and Daemon/RemoveHandler
--     (`handlePackageRemove`), with theorems below each.
--   * pkg/daemon/daemon.go: Daemon/Init (`New`, and `NewKeyManager` of pkg/crypto/keymanager.go), with
--     what it reads in Init/Reads and a restart in Init/Restarts; Daemon/Mux (`registerRoutes`, and
--     the choice of a handler) and Daemon/Routes (the handlers, with `handlePackageList` of
--     handlers.go), with GET requests in Routes/Reading,
--     sequences of requests in Routes/Keeping and a reply after an upload in Routes/Listing.
--   * pkg/daemon/daemon.go: Daemon/Lifecycle (`Start`, `Stop`, the background worker, the periodic
--     tasks), with what `Start` gives to the announcer in Lifecycle/Populate and its hashes beside those
--     of the handlers in Lifecycle/Hashes, sequences of steps in Lifecycle/Runs, what comes after a `Stop`
--     in Lifecycle/Restart, and Lifecycle/Tasks.
--   * pkg/daemon/state.go and statistics.go: Daemon/State and Daemon/Statistics.
--   * pkg/daemon/config.go: Daemon/Config (`DefaultConfig`, `Validate`) and
--     Daemon/Config/Environment (`LoadFromEnv`, and `loadOrCreateConfig` of cmd/lbsd/main.go).
--   * pkg/dht: Dht/Peers (peers.go: every method of `PeerManager`; Peers/Order: the order of
--     `range`), Dht/Announcer (announcer.go: the map of packages, one announcement, one round, the
--     statistics; Announcer/Worker: `worker` among the calls of the other goroutines, with its
--     rounds counted in Worker/Announcing), Dht/Discovery (discovery.go: every method of
--     `Discovery`) and Dht/Client (client.go), with theorems below each.
--   * cmd: Commands/PidFile (`writePIDFile` of cmd/lbsd/main.go; `isRunning` and `getDaemonAddr` of
--     cmd/lbs/start.go), Commands/Options (the flags of both programs), Commands/Shutdown (the
--     signals of cmd/lbsd/main.go), Commands/Control (`lbs start`, `stop` and `restart`: start.go,
--     stop.go, restart.go of cmd/lbs), with its loops in Control/Waiting and the commands in
--     Control/Commanding; Commands/Requests (`lbs add`, `list` and `remove`: add.go, list.go,
--     remove.go), with the daemon behind them in Requests/EndToEnd and Requests/Adding;
--     Commands/Display (what list.go and stats.go show); and Commands/Client (status.go, stats.go
--     and `main` of main.go), with `lbs status` of a running daemon in Client/Watching.
--   * Shared: Prelude (tests on numbers, lists, results, machine words, splits), Text (byte
--     strings, hexadecimal, decimal numbers, white space) and GoMap (Go's maps as association
--     lists, and their laws). Tests holds the theorems at concrete inputs.
-- The handlers call the loader, the signatures, the package database and the announcer; the
-- database calls its validation and the atomic write. The life cycle starts and stops the client and
-- the announcer, fills the announcer from the database, and cleans the peers and the cache. `New` puts
-- these parts together from the disk, and the routes lead a request to them.
--
-- How code and model correspond. A method is a function from state to state and result, and an
-- interleaving of calls is a list of calls; methods that give up their lock inside (the package
-- database before a save) are modelled without another call in that gap, except that a round of
-- announcements is also modelled one announcement at a time. A Go error is a value of the error
-- type of its function, one constructor for each place that returns it. A Go map is a list of
-- entries, and iteration goes through that list. Strings and byte slices are lists of numbers; a
-- nil slice or pointer is `none` where the code can tell. An int or int64 is its bit pattern modulo
-- 2 ^ 64. A time is its nanoseconds since the zero time, so the zero time is 0, and every clock
-- reading is an argument. The loops are recursions on lists, which need no fuel; the digits of a
-- number have fuel for twenty, which is enough for 64 bits, and the waiting of `lbs stop` has fuel
-- for 61 looks, which is enough for thirty seconds of sleeps of half a second. A panic is `none`.
-- Goroutines are events of a sequence (the life cycle, the announcer), or steps of a relation (the
-- signals), in any order; a call that holds a lock from its beginning to its end is one event.
--
-- Parameters, since their code is not in the repository: Ed25519, SHA-256 and SHA-1, with the
-- lengths of what they return as hypotheses where they are used; gopkg.in/yaml.v3, with the
-- hypothesis that what is written is read back; the generator of keys, with the sizes of its keys;
-- the DHT server and the network; net/url, mime/multipart and encoding/json between the client and
-- the daemon; time.ParseDuration; path/filepath; what other programs do while the client sleeps or
-- waits for an answer; and the operating system, by a record that says which system call fails,
-- what the temporary file is called, and what a write that failed leaves in it. The theorems about
-- writes suppose that the name of the temporary file, which os.CreateTemp has just made up, is not
-- the target's. A crash is a stop after any of the system calls; that a rename is one step, and
-- that what was synced stays, is the file system's.
--
-- Not modelled: the functions on directories and sizes of pkg/storage/filesystem.go, the timeouts
-- of the HTTP server and of the clients, `removeCommandWithJSON` of cmd/lbs/remove.go, which
-- nothing calls, the attributes of the process that cmd/lbs/start_unix.go and start_windows.go set,
-- and the printing. The texts of the HTTP replies and the log are left out: a reply is its status
-- code and its data. `TrimSpace` and `ToLower` are those of ASCII.
pub mod GoMap
pub mod Commands
pub mod Crypto
pub mod Daemon
pub mod Dht
pub mod Package
pub mod Prelude
pub mod Storage
pub mod Tests
pub mod Text
