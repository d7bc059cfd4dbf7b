-- ===== src/Dht/Announcer/Figures.antt =====
-- What `GetStats` of the announcer reports.
use Prim.Native.Nat.{max}
use libreseed.Prelude.{
  ℕ, ◌+◌, ◌%◌, ◌≡◌, ◌<◌, refl, not, List, [], ◌∷◌, arith, length, count_if, sum_of, add_word, word,
  add_word-lt,
}
use libreseed.GoMap.{values}
use libreseed.Dht.Announcer.{
  PackageAnnouncement, Announcer, AnnouncerStats, later, count_package, count_packages, get_stats,
}

-- The latest of the times, 0 if there is none.
abbrev pub latest : List PackageAnnouncement → ℕ
latest [] = 0
latest (p ∷ ps) = max p.last_announced (latest ps)

later-max : (last t : ℕ) → later last t ≡ max last t
unfolding later
later-max last t = ground arith

counted :
    (s : AnnouncerStats) (ps : List PackageAnnouncement)
    → let r = count_packages s ps in
      (r.total_packages ≡ s.total_packages)
      × (r.failed_packages ≡ s.failed_packages + count_if (λ p. p.failed) ps)
      × (r.active_packages ≡ s.active_packages + count_if (λ p. not p.failed) ps)
      × (r.last_announce ≡ max s.last_announce (latest ps))
unfolding count_packages
counted s [] = (refl, omega arith, omega arith, omega arith)
counted s (p ∷ ps) =
    let r = counted (count_package s p) ps in
    let m = later-max s.last_announce p.last_announced in
    (r.0, ground arith, ground arith, omega arith)

announces :
    (s : AnnouncerStats) (ps : List PackageAnnouncement)
    → (count_packages s ps).total_announces % word
      ≡ (s.total_announces + sum_of (λ p. p.announce_count) ps) % word
unfolding count_packages add_word
announces s [] = omega arith
announces s (p ∷ ps) = omega (arith, announces (count_package s p) ps)

announces-lt :
    (s : AnnouncerStats) (ps : List PackageAnnouncement)
    → s.total_announces < word
    → (count_packages s ps).total_announces < word
unfolding count_packages
announces-lt s [] h = h
announces-lt s (p ∷ ps) h =
    announces-lt (count_package s p) ps (add_word-lt s.total_announces p.announce_count)

count_if-total :
    (ps : List PackageAnnouncement)
    → count_if (λ p. not p.failed) ps + count_if (λ p. p.failed) ps ≡ length ps
count_if-total [] = refl
count_if-total (p ∷ ps) = ground (arith, count_if-total ps)

length-values : (a : Announcer) → length (values a) ≡ length a
length-values [] = refl
length-values ((k, p) ∷ a) = omega (arith, length-values a)

-- `GetStats` counts the failed packages and the others, which together are all, adds up the
-- announcements modulo 2 ^ 64, and reports the latest announcement time.
pub get_stats_counts_packages :
    (a : Announcer)
    → let s = get_stats a in
      (s.total_packages ≡ length a)
      × (s.failed_packages ≡ count_if (λ p. p.failed) (values a))
      × (s.active_packages + s.failed_packages ≡ s.total_packages)
      × (s.total_announces ≡ sum_of (λ p. p.announce_count) (values a) % word)
      × (s.last_announce ≡ latest (values a))
unfolding get_stats
get_stats_counts_packages a =
    let zero_stats : AnnouncerStats = record {
      total_packages = length a;
      active_packages = 0;
      failed_packages = 0;
      total_announces = 0;
      last_announce = 0;
    } in
    let r = counted zero_stats (values a) in
    (
      r.0,
      omega (arith, r.1),
      omega (arith, r.0, r.1, r.2, count_if-total (values a), length-values a),
      omega (arith, announces zero_stats (values a), announces-lt zero_stats (values a)),
      omega (arith, r.3),
    )
