-- ===== src/Commands/Shutdown/Signals.antt =====
-- What can end the daemon program, and how a signal can be lost.
use libreseed.Prelude.{◌≡◌, ◌<◌, ◌≤◌, ◌⊎◌, inl, inr, refl, true, false, arith}
use libreseed.Daemon.State.{DaemonStatus}
use libreseed.Commands.Shutdown.{
  waiting, stopping, Program, started, Step, changes, signals, looks, closes, watcher_takes,
  main_takes, main_sees, Reach, here, after,
}

-- What holds of every state of the program.
pub record IsValid (p : Program) : Type 0 where
  pub once : p.watching ≡ true → p.shutdown_closed ≡ false
  pub heard : p.pending ≡ true → 0 < p.received
  pub reason : p.main ≡ stopping → (0 < p.received) ⊎ (p.shutdown_closed ≡ true)

Step-IsValid : (p q : Program) → Step p q → IsValid p → IsValid q
Step-IsValid p _ (changes status) v = record { once = v.once; heard = v.heard; reason = v.reason }
Step-IsValid p _ signals v = record {
  once = v.once;
  heard = λ _. omega arith;
  reason = λ _. inl (omega arith);
}
Step-IsValid p _ (looks w h) v = v
Step-IsValid p _ (closes w h) v = record {
  once = λ e. ground arith;
  heard = v.heard;
  reason = λ _. inr refl;
}
Step-IsValid p _ (watcher_takes w h) v = record {
  once = λ e. ground arith;
  heard = λ e. ground arith;
  reason = v.reason;
}
Step-IsValid p _ (main_takes w h) v = record {
  once = v.once;
  heard = λ e. ground arith;
  reason = λ _. inl (v.heard h);
}
Step-IsValid p _ (main_sees w h) v = record { once = v.once; heard = v.heard; reason = λ _. inr h }

-- However the goroutines of the daemon program are scheduled, the watching goroutine closes its
-- channel at most once, and the program stops the daemon only if a signal has come or the watching
-- goroutine has seen the daemon stop.
pub Reach-IsValid : (status : DaemonStatus) (p : Program) → Reach (started status) p → IsValid p
Reach-IsValid status _ here = record {
  once = λ _. refl;
  heard = λ e. ground arith;
  reason = λ e. ground arith;
}
Reach-IsValid status p (after {q} r s) = Step-IsValid q p s (Reach-IsValid status q r)

-- A state in which nothing but another signal can end the program.
pub record IsDeaf (p : Program) : Type 0 where
  pub at : p.main ≡ waiting
  pub gone : p.watching ≡ false
  pub empty : p.pending ≡ false
  pub unclosed : p.shutdown_closed ≡ false

Step-IsDeaf :
    (p q : Program)
    → Step p q
    → IsDeaf p
    → (p.received < q.received) ⊎ (IsDeaf q × (q.received ≡ p.received))
Step-IsDeaf p _ (changes status) v =
    inr (record { at = v.at; gone = v.gone; empty = v.empty; unclosed = v.unclosed }, refl)
Step-IsDeaf p _ signals v = inl (omega arith)
Step-IsDeaf p _ (looks w h) v = inr (v, refl)
Step-IsDeaf p _ (closes w h) v = absurd (ground (arith, v.gone))
Step-IsDeaf p _ (watcher_takes w h) v = absurd (ground (arith, v.gone))
Step-IsDeaf p _ (main_takes w h) v = absurd (ground (arith, v.empty))
Step-IsDeaf p _ (main_sees w h) v = absurd (ground (arith, v.unclosed))

Step-received : (p q : Program) → Step p q → p.received ≤ q.received
Step-received p _ (changes status) = omega arith
Step-received p _ signals = omega arith
Step-received p _ (looks w h) = omega arith
Step-received p _ (closes w h) = omega arith
Step-received p _ (watcher_takes w h) = omega arith
Step-received p _ (main_takes w h) = omega arith
Step-received p _ (main_sees w h) = omega arith

Reach-IsDeaf :
    (p q : Program)
    → IsDeaf p
    → Reach p q
    → (p.received < q.received) ⊎ (IsDeaf q × (q.received ≡ p.received))
Reach-IsDeaf p _ v here = inr (v, refl)
Reach-IsDeaf p r v (after {q} before s) = elim (Reach-IsDeaf p q v before) [
  | inl more ↦ inl (omega (arith, more, Step-received q r s))
  | inr (w, same) ↦ elim (Step-IsDeaf q r s w) [
    | inl more ↦ inl (omega (arith, more, same))
    | inr (w', same') ↦ inr (w', omega (arith, same, same'))
  ]
]

-- A signal that comes to the daemon program can be lost: it can lead to a state in which, until
-- another signal comes, the main goroutine waits for ever, also when the daemon is stopped by a
-- request.
pub signal_lost :
    (status : DaemonStatus)
    → (p : Program) × Reach (started status) p
      × (p.received ≡ 1)
      × ((q : Program) → Reach p q → q.received ≡ 1 → q.main ≡ waiting)
signal_lost status =
    let lost = watcher_takes refl refl in
    let way = after (after here signals) lost in
    (
      _,
      way,
      refl,
      λ q r one.
          elim (Reach-IsDeaf _ q (record { at = refl; gone = refl; empty = refl; unclosed = refl })
            r) [ inl more ↦ absurd (omega (arith, more, one)) | inr (w, same) ↦ w.at ],
    )
