-- ===== src/Commands/Control/Waiting.antt =====
-- The two loops that wait for the daemon.
use libreseed.Prelude.{
  ℕ, zero, suc, ◌+◌, ◌-◌, ◌*◌, ◌≤◌, ◌<◌, ◌≡◌, ◌↔◌, ◌⊎◌, inl, inr, refl, Bool, true, false, none,
  some, arith, ltb, Bool-cases, Result, ok, err, Option,
}
use libreseed.Text.{Bytes}
use libreseed.Commands.PidFile
use libreseed.Commands.PidFile.{Processes}
use libreseed.Commands.Control.{
  World, System, check, wait_started, wait_stopped, StopError, timed_out, max_wait,
}

-- A look at the PID file after a sleep.
abbrev pub look : System → World → Bool × World
look env w = check (env.sleep w)

-- The world after some looks.
abbrev pub after_looks : System → ℕ → World → World
after_looks env zero w = w
after_looks env (suc n) w = after_looks env n (look env w).1

wait_started_found :
    (env : System) (n : ℕ) (w : World)
    → (wait_started env n w).0 ≡ true
    → (k : ℕ) × (k < n) × ((look env (after_looks env k w)).0 ≡ true)
unfolding wait_started
wait_started_found env zero w h = absurd (cc)
wait_started_found env (suc n) w h = elim (Bool-cases (look env w).0) [
  | inl q ↦ (0, omega arith, q)
  | inr q ↦
      let (k, less, found) = wait_started_found env n (look env w).1 (ground arith) in
      (suc k, omega (arith, less), found)
]

wait_started_of :
    (env : System) (n k : ℕ) (w : World)
    → k < n
    → (look env (after_looks env k w)).0 ≡ true
    → (wait_started env n w).0 ≡ true
unfolding wait_started
wait_started_of env zero k w less found = absurd (omega (arith, less))
wait_started_of env (suc n) zero w less found = rw found refl
wait_started_of env (suc n) (suc k) w less found =
    ground (arith, wait_started_of env n k (look env w).1 (omega (arith, less)) found)

-- The waiting of `startCommand` succeeds exactly if one of its looks finds the daemon.
pub wait_started_iff :
    (env : System) (n : ℕ) (w : World)
    → ((wait_started env n w).0 ≡ true)
      ↔ ((k : ℕ) × (k < n) × ((look env (after_looks env k w)).0 ≡ true))
wait_started_iff env n w =
    (λ h. wait_started_found env n w h, λ h. wait_started_of env n h.0 w h.1 h.2)

-- A sleep of half a second takes that long at least.
abbrev pub IsClock : System → Type 0
IsClock env = (w : World) → w.now + 500000000 ≤ (env.sleep w).now

-- What the waiting of `stopCommand` ends with: a look that finds no daemon, or the time is over.
abbrev pub IsWaited : ℕ → Result StopError (Unit {0}) × World → Type 0
IsWaited start r =
    ((r.0 ≡ ok tt) × ((check r.1).0 ≡ false))
    ⊎ ((r.0 ≡ err timed_out) × (start + max_wait ≤ r.1.now))

is_running-again :
    (sys : Processes) (file : Option Bytes)
    → (PidFile.is_running sys file).0 ≡ false
    → (PidFile.is_running sys (PidFile.is_running sys file).1).0 ≡ false
unfolding PidFile.is_running
is_running-again sys none h = refl
is_running-again sys (some text) h = elim (Bool-cases (PidFile.file_runs sys text)) [
  | inl q ↦ absurd (ground arith)
  | inr q ↦ elim (Bool-cases sys.removable) [
    | inl r ↦ rw (q, r) refl
    | inr r ↦ rw (q, r) (rw q refl)
  ]
]

-- A look that found no daemon finds none when it is repeated at once.
pub check-again : (w : World) → (check w).0 ≡ false → (check (check w).1).0 ≡ false
unfolding check
check-again w h = is_running-again w.sys w.file h

now-check : (w : World) → (check w).1.now ≡ w.now
unfolding check
now-check w = refl

pub wait_stopped_total :
    (env : System) (fuel start : ℕ) (w : World)
    → IsClock env
    → start ≤ w.now
    → start + max_wait ≤ w.now + fuel * 500000000
    → (r : Result StopError (Unit {0}) × World) × (wait_stopped env (suc fuel) start w ≡ some r)
      × IsWaited start r
unfolding wait_stopped
wait_stopped_total env zero start w clock ahead enough =
    elim (Bool-cases (ltb (w.now - start) max_wait)) [
      | inl q ↦ absurd (ground arith)
      | inr q ↦ ((err timed_out, w), rw q refl, inr (refl, omega (arith, enough)))
    ]
wait_stopped_total env (suc fuel) start w clock ahead enough =
    elim (Bool-cases (ltb (w.now - start) max_wait)) [
      | inr q ↦ ((err timed_out, w), rw q refl, inr (refl, ground arith))
      | inl q ↦ elim (Bool-cases (check w).0) [
        | inr c ↦ ((ok tt, (check w).1), rw (q, c) refl, inl (refl, check-again w c))
        | inl c ↦
            let later = env.sleep (check w).1 in
            let passed : w.now + 500000000 ≤ later.now =
              omega (arith, clock (check w).1, now-check w) in
            let (r, e, done) =
              wait_stopped_total env fuel start later clock (omega arith) (omega arith) in
            (r, rw (q, c) e, done)
      ]
    ]
