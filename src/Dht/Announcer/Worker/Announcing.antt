-- ===== src/Dht/Announcer/Worker/Announcing.antt =====
-- How often the worker announces a package, whatever the other goroutines do meanwhile.
use mathlib.Core.Option
use libreseed.Prelude.{
  ℕ, ◌+◌, ◌%◌, ◌≡◌, ◌≢◌, ◌∙◌, refl, sym, ap, Bool, true, false, Option, none, some, List, [], ◌∷◌,
  All, arith, ite, is_some, add_word, word, Bool-cases, Option-cases, inl, inr, if_pos, if_neg,
}
use libreseed.Text.{Bytes, bytes_discrete}
use libreseed.GoMap.{lookup}
use libreseed.GoMap.Laws.{lookup-insert, lookup-delete}
use libreseed.Dht.Announcer.{
  PackageAnnouncement, Announcer, new_announcement, add_package, remove_package, announce_package,
}
use libreseed.Dht.Announcer.Rounds
use libreseed.Dht.Announcer.Rounds.{
  IsIndexed, announced, step-IsIndexed, announce_package-IsIndexed, lookup-announce_package,
}
use libreseed.Dht.Announcer.Worker.{
  Phase, beginning, selecting, returned, announcing, Worker, Event, adds, removes, cancels, copies,
  takes_done, answers, remaining, copied, copy, answer, take_done, step, run,
}

-- The count of an announcement in the map.
abbrev pub count_of : Announcer → Bytes → Option ℕ
count_of a key = Option.map (λ p. p.announce_count) (lookup bytes_discrete key a)

abbrev pub occurrences : Bytes → List Bytes → ℕ
occurrences key [] = 0
occurrences key (h ∷ hs) = ite (bytes_discrete key h) 1 0 + occurrences key hs

-- How often the round that goes on still has to announce a hash.
abbrev pub pending : Bytes → Phase → ℕ
pending key (announcing h hs) = occurrences key (h ∷ hs)
pending key _ = 0

-- Whether a copy of the map begins a round, and whether an event does.
abbrev pub opens : Phase → ℕ
opens beginning = 1
opens selecting = 1
opens (announcing h hs) = 0
opens returned = 0

abbrev pub begins : Phase → Event → ℕ
begins phase copies = opens phase
begins phase _ = 0

-- The rounds that begin in a run.
abbrev pub rounds : Worker → List Event → ℕ
rounds w [] = 0
rounds w (e ∷ es) = begins w.phase e + rounds (step w e) es

-- Not the removal of this package.
abbrev pub Spares : Bytes → Event → Type 0
Spares key (removes h) = key ≢ h
Spares key _ = Unit {0}

pending-remaining :
    (key : Bytes) (hs : List Bytes) → pending key (remaining hs) ≡ occurrences key hs
pending-remaining key [] = refl
pending-remaining key (h ∷ hs) = refl

occurrences_absent :
    (key : Bytes) (a : Announcer)
    → IsIndexed a
    → lookup bytes_discrete key a ≡ none
    → occurrences key (copied a) ≡ 0
unfolding lookup
occurrences_absent key [] v e = refl
occurrences_absent key ((k, p) ∷ a) v e =
    let same : p.info_hash ≡ k = v.1.0 in
    let rest = occurrences_absent key a (v.0.1, v.1.1) (ground arith) in
    rw same (ground (arith, rest))

occurrences_present :
    (key : Bytes) (p : PackageAnnouncement) (a : Announcer)
    → IsIndexed a
    → lookup bytes_discrete key a ≡ some p
    → occurrences key (copied a) ≡ 1
unfolding lookup
occurrences_present key p [] v e = absurd (cc e)
occurrences_present key p ((k, q) ∷ a) v e =
    let same : q.info_hash ≡ k = v.1.0 in
    elim (bytes_discrete key k) [
      | yes here ↦
          let rest = occurrences_absent key a (v.0.1, v.1.1) (rw here v.0.0) in
          rw same (ground (arith, rest))
      | no apart ↦
          let rest = occurrences_present key p a (v.0.1, v.1.1) (ground arith) in
          rw same (ground (arith, rest))
    ]

entry_of :
    (a : Announcer) (key : Bytes) (n : ℕ)
    → count_of a key ≡ some n
    → (p : PackageAnnouncement) × (lookup bytes_discrete key a ≡ some p) × (p.announce_count ≡ n)
entry_of a key n e = elim (Option-cases (lookup bytes_discrete key a)) [
  | inl q ↦ absurd (cc (rw q at e))
  | inr (p, q) ↦ (p, q, ground (arith, rw q at e))
]

count_of-add_package :
    (a : Announcer) (h name creator maintainer key : Bytes) (n : ℕ)
    → count_of a key ≡ some n
    → count_of (add_package a h name creator maintainer) key ≡ some n
unfolding add_package
count_of-add_package a h name creator maintainer key n e =
    let fresh = new_announcement h name creator maintainer in
    let (p, found, same) = entry_of a key n e in
    elim (Bool-cases (is_some (lookup bytes_discrete h a))) [
      | inl known ↦ rw known e
      | inr unknown ↦
          let apart : key ≢ h = λ q. absurd (cc (rw (sym q, found) at unknown)) in
          rw
            (
              unknown,
              lookup-insert bytes_discrete h key fresh a,
              if_neg (bytes_discrete key h) apart,
            )
            e
    ]

count_of-remove_package :
    (a : Announcer) (h key : Bytes) → key ≢ h → count_of (remove_package a h) key ≡ count_of a key
unfolding remove_package
count_of-remove_package a h key apart =
    rw (lookup-delete bytes_discrete h key a, if_neg (bytes_discrete key h) apart) refl

count_of-announce_package :
    (a : Announcer) (h key : Bytes) (result : Option Bytes) (now n : ℕ)
    → count_of a key ≡ some n
    → count_of (announce_package a h result now) key
      ≡ some (ite (bytes_discrete key h) (add_word n 1) n)
count_of-announce_package a h key result now n e =
    let (p, found, same) = entry_of a key n e in
    let once = lookup-announce_package a h key result now in
    elim (bytes_discrete key h) [
      | yes here ↦
          let at_hash : lookup bytes_discrete h a ≡ some p = rw here at found in
          rw (once, if_pos (bytes_discrete key h) here, if_pos (bytes_discrete key h) here, at_hash)
            (ap (λ m. some (add_word m 1)) same)
      | no apart ↦
          rw (once, if_neg (bytes_discrete key h) apart, if_neg (bytes_discrete key h) apart) e
    ]

-- The package is in the map, and its count and what its round still owes it make this total.
abbrev pub Counted : Bytes → Worker → ℕ → Type 0
Counted key w total =
    (c : ℕ) × (count_of w.packages key ≡ some c) × ((c + pending key w.phase) % word ≡ total % word)

pending-copy :
    (key : Bytes) (w : Worker) (n : ℕ)
    → IsIndexed w.packages
    → count_of w.packages key ≡ some n
    → (phase : Phase) → pending key (copy w phase) ≡ pending key phase + opens phase
unfolding copy
pending-copy key w n v e beginning =
    let (p, found, same) = entry_of w.packages key n e in
    pending-remaining key (copied w.packages) ∙ occurrences_present key p w.packages v found
pending-copy key w n v e selecting =
    let (p, found, same) = entry_of w.packages key n e in
    pending-remaining key (copied w.packages) ∙ occurrences_present key p w.packages v found
pending-copy key w n v e (announcing h hs) = omega arith
pending-copy key w n v e returned = refl

pending-take_done :
    (key : Bytes) (b : Bool) (phase : Phase) → pending key (take_done b phase) ≡ pending key phase
unfolding take_done
pending-take_done key true selecting = refl
pending-take_done key true beginning = refl
pending-take_done key true returned = refl
pending-take_done key true (announcing h hs) = refl
pending-take_done key false phase = refl

Counted-answer :
    (key : Bytes) (w : Worker) (result : Option Bytes) (now n : ℕ) (phase : Phase)
    → phase ≡ w.phase
    → count_of w.packages key ≡ some n
    → Counted key (answer w result now phase) (n + pending key w.phase)
unfolding answer add_word
Counted-answer key w result now n (announcing h hs) q e =
    let counted = count_of-announce_package w.packages h key result now n e in
    let left = pending-remaining key hs in
    rw (sym q) (ite (bytes_discrete key h) (add_word n 1) n, counted, rw left (ground arith))
Counted-answer key w result now n beginning q e = (n, e, refl)
Counted-answer key w result now n selecting q e = (n, e, refl)
Counted-answer key w result now n returned q e = (n, e, refl)

Counted-step :
    (key : Bytes) (w : Worker) (e : Event) (n : ℕ)
    → IsIndexed w.packages
    → Spares key e
    → count_of w.packages key ≡ some n
    → Counted key (step w e) (n + pending key w.phase + begins w.phase e)
unfolding step
Counted-step key w (adds h name creator maintainer) n v s e =
    (n, count_of-add_package w.packages h name creator maintainer key n e, omega arith)
Counted-step key w (removes h) n v s e =
    (n, count_of-remove_package w.packages h key s ∙ e, omega arith)
Counted-step key w cancels n v s e = (n, e, omega arith)
Counted-step key w copies n v s e = (n, e, omega (arith, pending-copy key w n v e w.phase))
Counted-step key w takes_done n v s e =
    (n, e, omega (arith, pending-take_done key w.cancelled w.phase))
Counted-step key w (answers result now) n v s e =
    let (c, counted, same) = Counted-answer key w result now n w.phase refl e in
    (c, counted, omega (arith, same))

packages-answer :
    (w : Worker) (result : Option Bytes) (now : ℕ) (phase : Phase)
    → IsIndexed w.packages
    → IsIndexed (answer w result now phase).packages
unfolding answer
packages-answer w result now (announcing h hs) v =
    announce_package-IsIndexed w.packages h result now v
packages-answer w result now beginning v = v
packages-answer w result now selecting v = v
packages-answer w result now returned v = v

packages-step : (w : Worker) (e : Event) → IsIndexed w.packages → IsIndexed (step w e).packages
unfolding step Rounds.step
packages-step w (adds h name creator maintainer) v =
    step-IsIndexed w.packages (Rounds.adds h name creator maintainer) v
packages-step w (removes h) v = step-IsIndexed w.packages (Rounds.removes h) v
packages-step w cancels v = v
packages-step w copies v = v
packages-step w takes_done v = v
packages-step w (answers result now) v = packages-answer w result now w.phase v

-- From any moment at which the map has one entry for each hash, under its own hash, and holds a
-- package, as long as this package is not removed, and whatever else the other goroutines do: the
-- package stays in the map, and each round that the worker begins announces it exactly once.
-- That is, its count grows, modulo 2^64, by what the round of that moment still owed it and by
-- the rounds that began since, less what the last round still owes it.
pub count_of-run :
    (key : Bytes) (w : Worker) (es : List Event) (n : ℕ)
    → IsIndexed w.packages
    → count_of w.packages key ≡ some n
    → All (Spares key) es
    → Counted key (run w es) (n + pending key w.phase + rounds w es)
unfolding run
count_of-run key w [] n v e s = (n, e, omega arith)
count_of-run key w (ev ∷ es) n v e s =
    let (m, counted, one) = Counted-step key w ev n v s.0 e in
    let (c, found, rest) = count_of-run key (step w ev) es m (packages-step w ev v) counted s.1 in
    (c, found, omega (arith, one, rest))
