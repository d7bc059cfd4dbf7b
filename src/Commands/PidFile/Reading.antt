-- ===== src/Commands/PidFile/Reading.antt =====
-- The client reads from the PID file what the daemon has written.
use libreseed.Prelude.{
  ℕ, ◌≡◌, ◌<◌, ◌^◌, ◌⊎◌, refl, subst, sym, ap, Bool, true, false, Option, none, some, [], ◌∷◌, ◌++◌,
  is_empty, arith, All, signed_lt, signed_lt_pos_iff, if◌then◌else◌, Bool-cases, Option-cases, inl,
  inr,
}
use libreseed.Text.{Bytes, codes}
use libreseed.Text.Decimal.{show_nat, parse_int-show, show_nat-IsDigit, is_empty-show_nat, IsDigit}
use libreseed.Text.Trim.{
  trim_space, trim_left, cut, ends_well, trim_right-line, ends_well-append, ends_well-cons,
  trim_left-digit, cut-append,
}
use libreseed.Commands.PidFile.{
  Processes, pid_line, write_pid_file, pid_text, parse_pid, is_daemon, pid_runs, file_runs,
  is_running, get_daemon_addr, remove_pid_file,
}

trim_left-digits : (a b : Bytes) → All IsDigit a → is_empty a ≡ false → trim_left (a ++ b) ≡ a ++ b
trim_left-digits [] b d h = absurd (cc h)
trim_left-digits (c ∷ a) b d h = trim_left-digit c (a ++ b) d.0

append_assoc : (a b c : Bytes) → (a ++ b) ++ c ≡ a ++ (b ++ c)
append_assoc [] b c = refl
append_assoc (x ∷ a) b c = ap (λ l. x ∷ l) (append_assoc a b c)

-- The line without its end.
trim_space-pid_line :
    (pid : ℕ) (addr : Bytes)
    → ends_well addr ≡ true
    → trim_space (pid_line pid addr) ≡ show_nat pid ++ b':' ∷ addr
unfolding trim_space pid_line
trim_space-pid_line pid addr h =
    let d = show_nat pid in
    let left : trim_left ((d ++ b':' ∷ addr) ++ 10 ∷ []) ≡ (d ++ b':' ∷ addr) ++ 10 ∷ [] =
      subst (λ s. trim_left s ≡ s) (sym (append_assoc d (b':' ∷ addr) (10 ∷ [])))
        (trim_left-digits d _ (show_nat-IsDigit pid) (is_empty-show_nat pid)) in
    rw left (
      trim_right-line (d ++ b':' ∷ addr)
        (ends_well-append d (b':' ∷ addr) (ends_well-cons b':' addr h)))

cut-pid_line :
    (pid : ℕ) (addr : Bytes)
    → ends_well addr ≡ true
    → cut (trim_space (pid_line pid addr)) ≡ some (show_nat pid, addr)
cut-pid_line pid addr h =
    rw (trim_space-pid_line pid addr h) (cut-append (show_nat pid) addr (show_nat-IsDigit pid))

nonempty_of_end : (addr : Bytes) → ends_well addr ≡ true → is_empty addr ≡ false
unfolding ends_well
nonempty_of_end [] h = absurd (cc h)
nonempty_of_end (c ∷ s) h = refl

pid_text-pid_line :
    (pid : ℕ) (addr : Bytes)
    → ends_well addr ≡ true
    → pid_text (trim_space (pid_line pid addr)) ≡ show_nat pid
unfolding pid_text
pid_text-pid_line pid addr h = rw (cut-pid_line pid addr h, pid_text) refl

parse_pid-pid_line :
    (pid : ℕ) (addr : Bytes)
    → 0 < pid
    → pid < 2 ^ 63
    → ends_well addr ≡ true
    → parse_pid (pid_text (trim_space (pid_line pid addr))) ≡ some pid
unfolding parse_pid
parse_pid-pid_line pid addr p b h =
    let positive : signed_lt 0 pid ≡ true =
      (signed_lt_pos_iff pid).1 (omega (arith, p, b), omega (arith, b)) in
    rw (pid_text-pid_line pid addr h, parse_int-show pid b, positive, parse_pid) refl

file_runs-pid_line :
    (sys : Processes) (pid : ℕ) (addr : Bytes)
    → 0 < pid
    → pid < 2 ^ 63
    → ends_well addr ≡ true
    → sys.readable ≡ true
    → file_runs sys (pid_line pid addr) ≡ is_daemon sys pid
unfolding file_runs pid_runs
file_runs-pid_line sys pid addr p b h r = rw (parse_pid-pid_line pid addr p b h) (if_true r)
  where
    if_true : {b : Bool} → sys.readable ≡ true → (if sys.readable then b else false) ≡ b
    if_true e = ground arith

-- What `writePIDFile` has written of a process with a positive number below 2^63 and of an address
-- that does not end in white space, the client reads back if it can read the file: its address is
-- the daemon's, whatever the environment says, and `isRunning` keeps the file and holds exactly
-- if the process is found, takes the signal, and is the daemon as far as /proc tells; otherwise it
-- removes the file if it can.
pub is_running-write_pid_file :
    (sys : Processes) (pid : ℕ) (addr env_addr : Bytes) (partial file : Option Bytes)
    → 0 < pid
    → pid < 2 ^ 63
    → ends_well addr ≡ true
    → sys.readable ≡ true
    → let written = (write_pid_file true true partial pid addr file).1 in
      (get_daemon_addr true env_addr written ≡ codes "http://" ++ addr)
      × (is_running sys written ≡ (
        is_daemon sys pid,
        if is_daemon sys pid then written else remove_pid_file sys.removable written,
      ))
unfolding write_pid_file get_daemon_addr is_running
is_running-write_pid_file sys pid addr env_addr partial file p b h r = (
  rw (cut-pid_line pid addr h, nonempty_of_end addr h) refl,
  rw (file_runs-pid_line sys pid addr p b h r) (ground arith),
)

file_runs-eq_true :
    (sys : Processes) (text : Bytes)
    → file_runs sys text ≡ true
    → (pid : ℕ) × (parse_pid (pid_text (trim_space text)) ≡ some pid) × (is_daemon sys pid ≡ true)
unfolding file_runs pid_runs
file_runs-eq_true sys text h = elim (Option-cases (parse_pid (pid_text (trim_space text)))) [
  | inl e ↦ absurd (ground arith)
  | inr (pid, e) ↦ (pid, e, ground arith)
]

-- `isRunning` tells the truth about the file that it leaves: if it holds, the file is as it was
-- and names a process that is the daemon; if it does not and the file can be removed, there is no
-- file.
pub is_running_lem :
    (sys : Processes) (file : Option Bytes)
    → sys.removable ≡ true
    → (((is_running sys file).0 ≡ false) × ((is_running sys file).1 ≡ none))
      ⊎ ((text : Bytes) × (pid : ℕ) × (file ≡ some text)
          × (is_running sys file ≡ (true, some text))
          × (parse_pid (pid_text (trim_space text)) ≡ some pid)
          × (is_daemon sys pid ≡ true))
unfolding is_running
is_running_lem sys none h = inl (refl, refl)
is_running_lem sys (some text) h = elim (Bool-cases (file_runs sys text)) [
  | inr r ↦ inl (ground arith)
  | inl r ↦ let (pid, e, d) = file_runs-eq_true sys text r in inr (text, pid, refl, rw r refl, e, d)
]
