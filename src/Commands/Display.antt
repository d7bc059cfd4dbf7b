-- ===== src/Commands/Display.antt =====
-- What the client shows: the statistics (stats.go), and the table of packages (list.go of cmd/lbs).
-- A quotient stands for the floating-point number that is printed with two decimals.
use libreseed.Prelude.{
  ℕ, ◌+◌, ◌*◌, ◌^◌, ◌≡◌, ◌≤◌, ◌<◌, ◌⊎◌, refl, Option, none, some, List, [], ◌∷◌, ◌++◌, length,
  length-append, length-take, take, arith, ltb, leb, is_empty, if◌then◌else◌, Result, ok, err,
  ◌>>=◌,
}
use libreseed.Text.{Bytes, codes, bytes_discrete}
use libreseed.GoMap.{lookup}
use libreseed.Daemon.PackageInfo.{PackageInfo}
use libreseed.Daemon.Statistics.{DaemonStatistics, snapshot}

-- A JSON object of numbers and texts; a number is the bit pattern of an int64.
pub data Json : Type 0 where
  number : ℕ → Json
  text : Bytes → Json

abbrev pub Object : Type 0
Object = List (Bytes × Json)

-- The object of `handleStats`, with the text of the time.
unfoldable pub stats_object : (ℕ → Bytes) → DaemonStatistics → Object
stats_object show_time stats =
    let s = snapshot stats in
    (codes "total_bytes_uploaded", number s.total_bytes_uploaded)
    ∷ (codes "total_bytes_downloaded", number s.total_bytes_downloaded)
    ∷ (codes "total_packages_seeded", number s.total_packages_seeded)
    ∷ (codes "total_peers_connected", number s.total_peers_connected)
    ∷ (codes "current_upload_rate", number s.current_upload_rate)
    ∷ (codes "current_download_rate", number s.current_download_rate)
    ∷ (codes "peak_upload_rate", number s.peak_upload_rate)
    ∷ (codes "peak_download_rate", number s.peak_download_rate)
    ∷ (codes "last_update_time", text (show_time s.last_update_time))
    ∷ []

-- `statsResponse`.
pub record StatsResponse : Type 0 where
  pub bytes_uploaded : ℕ
  pub bytes_downloaded : ℕ
  pub packages_seeded : ℕ
  pub peers_connected : ℕ
  pub upload_rate : ℕ
  pub download_rate : ℕ
  pub peak_upload_rate : ℕ
  pub peak_download_rate : ℕ

pub data DecodeError : Type 0 where
  wrong_type : Bytes → DecodeError

-- What a number becomes: an int, a uint64, which is not negative, or a float64, by `float`.
abbrev pub as_int : Bytes → ℕ → Result DecodeError ℕ
as_int name n = ok n

abbrev pub as_unsigned : Bytes → ℕ → Result DecodeError ℕ
as_unsigned name n = if ltb n (2 ^ 63) then ok n else err (wrong_type name)

abbrev pub as_float : (ℕ → ℕ) → Bytes → ℕ → Result DecodeError ℕ
as_float float name n = ok (float n)

abbrev pub as_number :
    (Bytes → ℕ → Result DecodeError ℕ) → Bytes → Option Json → Result DecodeError ℕ
as_number convert name none = ok 0
as_number convert name (some (number n)) = convert name n
as_number convert name (some (text t)) = err (wrong_type name)

-- A field that the object does not have stays 0.
unfoldable pub field : (Bytes → ℕ → Result DecodeError ℕ) → Bytes → Object → Result DecodeError ℕ
field convert name object = as_number convert name (lookup bytes_discrete name object)

-- The decoding into `statsResponse`, by the names of its fields.
unfoldable pub decode_stats : (ℕ → ℕ) → Object → Result DecodeError StatsResponse
unfolding field
decode_stats float object = do
  uploaded ← field as_unsigned (codes "bytes_uploaded") object
  downloaded ← field as_unsigned (codes "bytes_downloaded") object
  seeded ← field as_int (codes "packages_seeded") object
  connected ← field as_int (codes "peers_connected") object
  upload ← field (as_float float) (codes "upload_rate") object
  download ← field (as_float float) (codes "download_rate") object
  peak_upload ← field (as_float float) (codes "peak_upload_rate") object
  peak_download ← field (as_float float) (codes "peak_download_rate") object
  ok (record {
    bytes_uploaded = uploaded;
    bytes_downloaded = downloaded;
    packages_seeded = seeded;
    peers_connected = connected;
    upload_rate = upload;
    download_rate = download;
    peak_upload_rate = peak_upload;
    peak_download_rate = peak_download;
  })

-- Whatever the daemon has counted, `lbs stats` and `lbs status` show no bytes, no packages, no peers
-- and no current rates: of what the daemon sends they take over the two peak rates alone.
pub decode_stats-stats_object :
    (float : ℕ → ℕ) (show_time : ℕ → Bytes) (s : DaemonStatistics)
    → decode_stats float (stats_object show_time s)
      ≡ ok (record {
        bytes_uploaded = 0;
        bytes_downloaded = 0;
        packages_seeded = 0;
        peers_connected = 0;
        upload_rate = 0;
        download_rate = 0;
        peak_upload_rate = float s.peak_upload_rate;
        peak_download_rate = float s.peak_download_rate;
      })
unfolding decode_stats stats_object lookup bytes_discrete
decode_stats-stats_object float show_time s = refl

pub data ByteUnit : Type 0 where
  bytes kilobytes megabytes gigabytes terabytes : ByteUnit

abbrev pub size_of : ByteUnit → ℕ
size_of bytes = 1
size_of kilobytes = 1024
size_of megabytes = 1048576
size_of gigabytes = 1073741824
size_of terabytes = 1099511627776

-- `formatBytes`: the unit; the number shown is the quotient of the argument by its size.
unfoldable pub format_bytes : ℕ → ByteUnit
format_bytes n =
    if leb (size_of terabytes) n
    then terabytes
    else if leb (size_of gigabytes) n
    then gigabytes
    else if leb (size_of megabytes) n
    then megabytes
    else if leb (size_of kilobytes) n
    then kilobytes
    else bytes

-- The number that `formatBytes` shows is at least 1, except of no bytes, and below 1024, except of
-- terabytes, which stay below 2^24 for a number of 64 bits.
format_bytes_bounds :
    (n : ℕ)
    → n < 2 ^ 64
    → ((n ≡ 0) ⊎ (size_of (format_bytes n) ≤ n))
      × ((n < 1024 * size_of (format_bytes n))
          ⊎ ((format_bytes n ≡ terabytes) × (n < 2 ^ 24 * size_of (format_bytes n))))
unfolding format_bytes
format_bytes_bounds n h = ground arith

-- A line of the table, less the time.
pub record Row : Type 0 where
  pub name : Bytes
  pub version : Bytes
  pub description : Bytes
  pub file_hash : Bytes

abbrev pub shortened : Bytes → Bytes
shortened s = if ltb 40 (length s) then take 37 s ++ codes "..." else s

abbrev pub or_dash : Bytes → Bytes
or_dash s = if is_empty s then codes "-" else s

-- The loop over the packages in `listCommand`.
unfoldable pub row : PackageInfo → Row
row pkg = record {
  name = pkg.name;
  version = pkg.version;
  description = or_dash (shortened pkg.description);
  file_hash =
      if ltb 16 (length pkg.file_hash) then take 16 pkg.file_hash ++ codes "..." else pkg.file_hash;
}

length-dots : (n : ℕ) (s : Bytes) → length (take n s ++ codes "...") ≤ n + 3
length-dots n s = omega (arith, length-append (take n s) (codes "..."), length-take n s)

shortened_le : (s : Bytes) → length (shortened s) ≤ 40
shortened_le s = ground (arith, length-dots 37 s)

or_dash_bounds : (s : Bytes) → length s ≤ 40 → (1 ≤ length (or_dash s)) × (length (or_dash s) ≤ 40)
or_dash_bounds [] h = omega arith
or_dash_bounds (c ∷ s) h = omega (arith, h)

-- A line of the table has a description of 1 to 40 bytes and a hash of at most 19 bytes, whatever
-- the package holds.
pub row_bounds :
    (pkg : PackageInfo)
    → (1 ≤ length (row pkg).description)
      × (length (row pkg).description ≤ 40)
      × (length (row pkg).file_hash ≤ 19)
unfolding row
row_bounds pkg =
    let shown = or_dash_bounds (shortened pkg.description) (shortened_le pkg.description) in
    (shown.0, shown.1, ground (arith, length-dots 16 pkg.file_hash))
