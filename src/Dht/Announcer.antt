-- ===== src/Dht/Announcer.antt =====
-- pkg/dht/announcer.go: the packages that are announced, and the round that announces them. The
-- answer of `client.Announce` (`none` is success) and the clock are functions of the hash.
pub mod Rounds
pub mod Worker
pub mod Figures
use libreseed.Prelude.{
  ℕ, ◌+◌, ◌≡◌, Bool, true, false, not, ◌&&◌, ◌||◌, Option, none, some, List, [], ◌∷◌, length,
  add_word, ltb, ◌==◌, if◌then◌else◌, is_some,
}
use libreseed.Text.{Bytes, bytes_discrete}
use libreseed.GoMap.{GoMap, values, lookup, insert, delete}

pub record PackageAnnouncement : Type 0 where
  pub info_hash : Bytes
  pub package_name : Bytes
  pub creator_fingerprint : Bytes
  pub maintainer_fingerprint : Bytes
  pub last_announced : ℕ
  pub announce_count : ℕ
  pub failed : Bool
  pub last_error : Option Bytes

-- The map of the announcer, which its lock protects.
abbrev pub Announcer : Type 0
Announcer = GoMap Bytes PackageAnnouncement

abbrev pub new_announcement : Bytes → Bytes → Bytes → Bytes → PackageAnnouncement
new_announcement info_hash name creator maintainer = record {
  info_hash = info_hash;
  package_name = name;
  creator_fingerprint = creator;
  maintainer_fingerprint = maintainer;
  last_announced = 0;
  announce_count = 0;
  failed = false;
  last_error = none;
}

-- `AddPackage`: a hash that is known keeps its announcement.
unfoldable pub add_package : Announcer → Bytes → Bytes → Bytes → Bytes → Announcer
add_package a info_hash name creator maintainer =
    if is_some (lookup bytes_discrete info_hash a)
    then a
    else insert bytes_discrete info_hash (new_announcement info_hash name creator maintainer) a

-- `RemovePackage`.
unfoldable pub remove_package : Announcer → Bytes → Announcer
remove_package a info_hash = delete bytes_discrete info_hash a

-- `GetPackages` and `GetPackage`.
unfoldable pub get_packages : Announcer → List PackageAnnouncement
get_packages a = values a

unfoldable pub get_package : Announcer → Bytes → Option PackageAnnouncement
get_package a info_hash = lookup bytes_discrete info_hash a

-- What one announcement writes.
unfoldable pub note_announced : Option Bytes → ℕ → PackageAnnouncement → PackageAnnouncement
note_announced none now p = record p {
  last_announced = now;
  announce_count = add_word p.announce_count 1;
  failed = false;
  last_error = none;
}
note_announced (some e) now p = record p {
  last_announced = now;
  announce_count = add_word p.announce_count 1;
  failed = true;
  last_error = some e;
}

-- `announcePackage`, after the client has answered: the package may be gone by then.
unfoldable pub announce_package : Announcer → Bytes → Option Bytes → ℕ → Announcer
unfolding note_announced
announce_package a info_hash answer now = elim (lookup bytes_discrete info_hash a) [
  | none ↦ a
  | some p ↦ insert bytes_discrete info_hash (note_announced answer now p) a
]

-- The loop of `announceAll` over the entries that were copied.
unfoldable pub announce_each :
    (Bytes → Option Bytes) → (Bytes → ℕ) → Announcer → Announcer → Announcer
unfolding announce_package
announce_each client clock [] a = a
announce_each client clock ((k, p) ∷ rest) a =
    announce_each client clock rest
      (announce_package a p.info_hash (client p.info_hash) (clock p.info_hash))

-- `announceAll`, with no other call between its steps.
unfoldable pub announce_all : (Bytes → Option Bytes) → (Bytes → ℕ) → Announcer → Announcer
unfolding announce_each
announce_all client clock a = announce_each client clock a a

pub record AnnouncerStats : Type 0 where
  pub total_packages : ℕ
  pub active_packages : ℕ
  pub failed_packages : ℕ
  pub total_announces : ℕ
  pub last_announce : ℕ

-- The later of two times that are not zero.
unfoldable pub later : ℕ → ℕ → ℕ
later last t = if not (t == 0) && (last == 0 || ltb last t) then t else last

-- The body of the loop of `GetStats`.
unfoldable pub count_package : AnnouncerStats → PackageAnnouncement → AnnouncerStats
unfolding later
count_package s p = record s {
  total_announces = add_word s.total_announces p.announce_count;
  failed_packages = if p.failed then s.failed_packages + 1 else s.failed_packages;
  active_packages = if p.failed then s.active_packages else s.active_packages + 1;
  last_announce = later s.last_announce p.last_announced;
}

unfoldable pub count_packages : AnnouncerStats → List PackageAnnouncement → AnnouncerStats
unfolding count_package
count_packages s [] = s
count_packages s (p ∷ ps) = count_packages (count_package s p) ps

-- `GetStats`.
unfoldable pub get_stats : Announcer → AnnouncerStats
unfolding count_packages
get_stats a =
    count_packages
      (record {
        total_packages = length a;
        active_packages = 0;
        failed_packages = 0;
        total_announces = 0;
        last_announce = 0;
      })
      (values a)
