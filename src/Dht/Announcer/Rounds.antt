-- ===== src/Dht/Announcer/Rounds.antt =====
-- One round of announcements, and sequences of calls.
use mathlib.Core.Option
use libreseed.Prelude.{
  ℕ, ◌≡◌, refl, sym, ◌∙◌, Option, none, some, List, [], ◌∷◌, arith, ite, is_some, ap, if_pos,
  Option-cases, Bool-cases, inl, inr, add_word,
}
use libreseed.Text.{Bytes, bytes_discrete}
use libreseed.GoMap.{lookup, insert, Distinct, Keyed}
use libreseed.GoMap.Laws.{lookup-insert, insert-Distinct, delete-Distinct}
use libreseed.GoMap.Keys.{insert-Keyed, delete-Keyed, lookup-Keyed}
use libreseed.Dht.Announcer.{
  PackageAnnouncement, Announcer, new_announcement, add_package, remove_package, note_announced,
  announce_package, announce_each, announce_all,
}

-- What a round writes to one package, field by field.
abbrev pub announced : Option Bytes → ℕ → PackageAnnouncement → PackageAnnouncement
announced answer now p = record p {
  last_announced = now;
  announce_count = add_word p.announce_count 1;
  failed = is_some answer;
  last_error = answer;
}

note_announced-announced :
    (answer : Option Bytes) (now : ℕ) (p : PackageAnnouncement)
    → note_announced answer now p ≡ announced answer now p
unfolding note_announced
note_announced-announced none now p = refl
note_announced-announced (some e) now p = refl

pub lookup-announce_package :
    (a : Announcer) (h key : Bytes) (answer : Option Bytes) (now : ℕ)
    → lookup bytes_discrete key (announce_package a h answer now)
      ≡ ite
          (bytes_discrete key h)
          (Option.map (announced answer now) (lookup bytes_discrete h a))
          (lookup bytes_discrete key a)
unfolding announce_package
lookup-announce_package a h key answer now = elim (Option-cases (lookup bytes_discrete h a)) [
  | inl e ↦ rw (e, announce_package) (ground arith)
  | inr (p, e) ↦
      rw (e, announce_package, note_announced-announced)
        (lookup-insert bytes_discrete h key (announced answer now p) a)
]

module _ (client : Bytes → Option Bytes) (clock : Bytes → ℕ) where
  each_absent :
      (key : Bytes) (rest a : Announcer)
      → Keyed (λ p. p.info_hash) rest
      → lookup bytes_discrete key rest ≡ none
      → lookup bytes_discrete key (announce_each client clock rest a) ≡ lookup bytes_discrete key a
  unfolding announce_each lookup
  each_absent key [] a k h = refl
  each_absent key ((i, p) ∷ rest) a k h =
      each_absent key rest (announce_package a p.info_hash (client p.info_hash) (clock p.info_hash))
        k.1 (ground arith)
      ∙ ground (
        arith,
        lookup-announce_package a p.info_hash key (client p.info_hash) (clock p.info_hash),
      )

  here :
      (key i : Bytes) (p : PackageAnnouncement) (a : Announcer)
      → i ≡ p.info_hash
      → key ≡ i
      → lookup bytes_discrete key
          (announce_package a p.info_hash (client p.info_hash) (clock p.info_hash))
        ≡ Option.map (announced (client key) (clock key)) (lookup bytes_discrete key a)
  here key i p a k e =
      let same : key ≡ p.info_hash = e ∙ k in
      lookup-announce_package a p.info_hash key (client p.info_hash) (clock p.info_hash)
      ∙ rw (if_pos (bytes_discrete key p.info_hash) same) (
          ap
            (λ (j : Bytes). Option.map (announced (client j) (clock j)) (lookup bytes_discrete j a))
            (sym same))

  each_present :
      (key : Bytes) (rest a : Announcer) (q : PackageAnnouncement)
      → Keyed (λ p. p.info_hash) rest
      → Distinct bytes_discrete rest
      → lookup bytes_discrete key rest ≡ some q
      → lookup bytes_discrete key (announce_each client clock rest a)
        ≡ Option.map (announced (client key) (clock key)) (lookup bytes_discrete key a)
  unfolding announce_each lookup
  each_present key [] a q k d h = absurd (ground arith)
  each_present key ((i, p) ∷ rest) a q k d h =
      let once =
        lookup-announce_package a p.info_hash key (client p.info_hash) (clock p.info_hash) in
      let next = announce_package a p.info_hash (client p.info_hash) (clock p.info_hash) in
      elim (bytes_discrete key i) [
        | yes e ↦ each_absent key rest next k.1 (rw e d.0) ∙ here key i p a (sym k.0) e
        | no e ↦
            each_present key rest next q k.1 d.1 (ground arith)
            ∙ ap (Option.map (announced (client key) (clock key))) (ground (arith, once))
      ]

  -- One round over packages with one entry for each hash, under its own hash, announces each once:
  -- all are stamped with the time of their announcement, counted once more, and marked failed
  -- exactly if the client returned an error for their hash. No package comes or goes.
  pub lookup-announce_all :
      (a : Announcer) (key : Bytes)
      → Keyed (λ p. p.info_hash) a
      → Distinct bytes_discrete a
      → lookup bytes_discrete key (announce_all client clock a)
        ≡ Option.map (announced (client key) (clock key)) (lookup bytes_discrete key a)
  unfolding announce_all
  lookup-announce_all a key k d = elim (Option-cases (lookup bytes_discrete key a)) [
    | inl e ↦ each_absent key a a k e ∙ rw e refl
    | inr (q, e) ↦ each_present key a a q k d e
  ]

-- The calls of the announcer, one announcement of a round among them, in any interleaving.
pub data Call : Type 0 where
  adds : Bytes → Bytes → Bytes → Bytes → Call
  removes : Bytes → Call
  announces : Bytes → Option Bytes → ℕ → Call

unfoldable pub step : Announcer → Call → Announcer
step a (adds h name creator maintainer) = add_package a h name creator maintainer
step a (removes h) = remove_package a h
step a (announces h answer now) = announce_package a h answer now

unfoldable pub run : Announcer → List Call → Announcer
run a [] = a
run a (c ∷ cs) = run (step a c) cs

abbrev pub IsIndexed : Announcer → Type 0
IsIndexed a = Distinct bytes_discrete a × Keyed (λ p. p.info_hash) a

insert-IsIndexed :
    (h : Bytes) (p : PackageAnnouncement) (a : Announcer)
    → p.info_hash ≡ h
    → IsIndexed a
    → IsIndexed (insert bytes_discrete h p a)
insert-IsIndexed h p a e v = (
  insert-Distinct bytes_discrete h p a v.0,
  insert-Keyed bytes_discrete (λ q. q.info_hash) h p a e v.1,
)

-- One announcement keeps the map indexed.
pub announce_package-IsIndexed :
    (a : Announcer) (h : Bytes) (answer : Option Bytes) (now : ℕ)
    → IsIndexed a
    → IsIndexed (announce_package a h answer now)
unfolding announce_package
announce_package-IsIndexed a h answer now v = elim (Option-cases (lookup bytes_discrete h a)) [
  | inl e ↦ rw (e, announce_package) v
  | inr (p, e) ↦
      rw (e, announce_package, note_announced-announced)
        (insert-IsIndexed h (announced answer now p) a
          (lookup-Keyed bytes_discrete (λ q. q.info_hash) h p a v.1 e) v)
]

pub step-IsIndexed : (a : Announcer) (c : Call) → IsIndexed a → IsIndexed (step a c)
unfolding step add_package remove_package
step-IsIndexed a (adds h name creator maintainer) v =
    elim (Bool-cases (is_some (lookup bytes_discrete h a))) [
      | inl e ↦ rw e v
      | inr e ↦ rw e (insert-IsIndexed h (new_announcement h name creator maintainer) a refl v)
    ]
step-IsIndexed a (removes h) v =
    (delete-Distinct bytes_discrete h a v.0, delete-Keyed bytes_discrete (λ q. q.info_hash) h a v.1)
step-IsIndexed a (announces h answer now) v = announce_package-IsIndexed a h answer now v

-- Whatever calls come, in whatever order, and also between the announcements of a round, they keep
-- the announcer indexed: each hash has one announcement at most, and each stands under its own
-- hash.
pub run-IsIndexed : (a : Announcer) (cs : List Call) → IsIndexed a → IsIndexed (run a cs)
unfolding run
run-IsIndexed a [] v = v
run-IsIndexed a (c ∷ cs) v = run-IsIndexed (step a c) cs (step-IsIndexed a c v)
