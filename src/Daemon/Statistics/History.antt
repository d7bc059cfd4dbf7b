-- ===== src/Daemon/Statistics/History.antt =====
-- The counters against the history of the calls since the last reset.
use mathlib.Core.List.{Mem, mem-cons_self, mem-cons}
use libreseed.Prelude.{
  ℕ, ◌+◌, ◌%◌, ◌≡◌, ◌⊎◌, refl, inl, inr, true, false, List, [], ◌∷◌, arith, All, Bool-cases,
  add_word, signed_lt, word, if◌then◌else◌,
}
use libreseed.Daemon.Statistics.{
  DaemonStatistics, new_daemon_statistics, add_bytes_uploaded, add_bytes_downloaded,
  increment_packages_seeded, increment_peers_connected, update_upload_rate, update_download_rate,
  reset,
}

pub data Call : Type 0 where
  uploads downloads : ℕ → ℕ → Call
  seeds connects resets : ℕ → Call
  upload_rates download_rates : ℕ → ℕ → Call

pub step : DaemonStatistics → Call → DaemonStatistics
step s (uploads bytes now) = add_bytes_uploaded bytes now s
step s (downloads bytes now) = add_bytes_downloaded bytes now s
step s (seeds now) = increment_packages_seeded now s
step s (connects now) = increment_peers_connected now s
step s (upload_rates rate now) = update_upload_rate rate now s
step s (download_rates rate now) = update_download_rate rate now s
step s (resets now) = reset now s

pub run : DaemonStatistics → List Call → DaemonStatistics
run s [] = s
run s (c ∷ cs) = run (step s c) cs

-- What has been reported since the last reset.
pub record History : Type 0 where
  pub uploaded : ℕ
  pub downloaded : ℕ
  pub seeded : ℕ
  pub connected : ℕ
  pub upload_rates_seen : List ℕ
  pub download_rates_seen : List ℕ

abbrev pub empty_history : History
empty_history = record {
  uploaded = 0;
  downloaded = 0;
  seeded = 0;
  connected = 0;
  upload_rates_seen = [];
  download_rates_seen = [];
}

-- One more call, with sums that do not wrap.
pub remember : History → Call → History
remember h (uploads bytes now) = record h { uploaded = h.uploaded + bytes }
remember h (downloads bytes now) = record h { downloaded = h.downloaded + bytes }
remember h (seeds now) = record h { seeded = h.seeded + 1 }
remember h (connects now) = record h { connected = h.connected + 1 }
remember h (upload_rates rate now) = record h { upload_rates_seen = rate ∷ h.upload_rates_seen }
remember h (download_rates rate now) = record h {
  download_rates_seen = rate ∷ h.download_rates_seen;
}
remember h (resets now) = empty_history

pub remember_all : History → List Call → History
remember_all h [] = h
remember_all h (c ∷ cs) = remember_all (remember h c) cs

-- A peak of rates: none is above it, and it is 0 or one of them.
pub record IsPeak (peak : ℕ) (rates : List ℕ) : Type 0 where
  pub highest : All (λ r. signed_lt peak r ≡ false) rates
  pub attained : (peak ≡ 0) ⊎ Mem peak rates

pub record Matches (h : History) (s : DaemonStatistics) : Type 0 where
  pub uploaded : s.total_bytes_uploaded ≡ h.uploaded % word
  pub downloaded : s.total_bytes_downloaded ≡ h.downloaded % word
  pub seeded : s.total_packages_seeded ≡ h.seeded % word
  pub connected : s.total_peers_connected ≡ h.connected % word
  pub upload_peak : IsPeak s.peak_upload_rate h.upload_rates_seen
  pub download_peak : IsPeak s.peak_download_rate h.download_rates_seen

empty-Matches : (now : ℕ) → Matches empty_history (new_daemon_statistics now)
empty-Matches now = record {
  uploaded = refl;
  downloaded = refl;
  seeded = refl;
  connected = refl;
  upload_peak = record { highest = tt; attained = inl refl };
  download_peak = record { highest = tt; attained = inl refl };
}

raise_All :
    (peak rate : ℕ) (rates : List ℕ)
    → signed_lt peak rate ≡ true
    → All (λ r. signed_lt peak r ≡ false) rates
    → All (λ r. signed_lt rate r ≡ false) rates
unfolding signed_lt
raise_All peak rate [] h a = tt
raise_All peak rate (r ∷ rs) h a = (ground arith, raise_All peak rate rs h a.1)

signed_lt_irrefl : (n : ℕ) → signed_lt n n ≡ false
unfolding signed_lt
signed_lt_irrefl n = ground arith

raise-IsPeak :
    (peak rate : ℕ) (rates : List ℕ)
    → IsPeak peak rates
    → IsPeak (if signed_lt peak rate then rate else peak) (rate ∷ rates)
raise-IsPeak peak rate rates p = elim (Bool-cases (signed_lt peak rate)) [
  | inl h ↦ rw h (record {
    highest = (signed_lt_irrefl rate, raise_All peak rate rates h p.highest);
    attained = inr mem-cons_self;
  })
  | inr h ↦ rw h (record { highest = (h, p.highest); attained = kept p.attained })
]
  where
    kept : (peak ≡ 0) ⊎ Mem peak rates → (peak ≡ 0) ⊎ Mem peak (rate ∷ rates)
    kept (inl e) = inl e
    kept (inr m) = inr (mem-cons.1 ∣ (inr m) ∣₁)

-- One more call.
step-Matches :
    (h : History) (s : DaemonStatistics) (c : Call)
    → Matches h s
    → Matches (remember h c) (step s c)
unfolding remember step add_bytes_uploaded add_bytes_downloaded increment_packages_seeded
    increment_peers_connected update_upload_rate update_download_rate reset add_word
step-Matches h s (uploads bytes now) m = record {
  uploaded = omega (arith, m.uploaded);
  downloaded = m.downloaded;
  seeded = m.seeded;
  connected = m.connected;
  upload_peak = m.upload_peak;
  download_peak = m.download_peak;
}
step-Matches h s (downloads bytes now) m = record {
  uploaded = m.uploaded;
  downloaded = omega (arith, m.downloaded);
  seeded = m.seeded;
  connected = m.connected;
  upload_peak = m.upload_peak;
  download_peak = m.download_peak;
}
step-Matches h s (seeds now) m = record {
  uploaded = m.uploaded;
  downloaded = m.downloaded;
  seeded = omega (arith, m.seeded);
  connected = m.connected;
  upload_peak = m.upload_peak;
  download_peak = m.download_peak;
}
step-Matches h s (connects now) m = record {
  uploaded = m.uploaded;
  downloaded = m.downloaded;
  seeded = m.seeded;
  connected = omega (arith, m.connected);
  upload_peak = m.upload_peak;
  download_peak = m.download_peak;
}
step-Matches h s (upload_rates rate now) m = record {
  uploaded = m.uploaded;
  downloaded = m.downloaded;
  seeded = m.seeded;
  connected = m.connected;
  upload_peak = raise-IsPeak s.peak_upload_rate rate h.upload_rates_seen m.upload_peak;
  download_peak = m.download_peak;
}
step-Matches h s (download_rates rate now) m = record {
  uploaded = m.uploaded;
  downloaded = m.downloaded;
  seeded = m.seeded;
  connected = m.connected;
  upload_peak = m.upload_peak;
  download_peak = raise-IsPeak s.peak_download_rate rate h.download_rates_seen m.download_peak;
}
step-Matches h s (resets now) m = empty-Matches now

run-Matches :
    (h : History) (s : DaemonStatistics) (cs : List Call)
    → Matches h s
    → Matches (remember_all h cs) (run s cs)
unfolding remember_all run
run-Matches h s [] m = m
run-Matches h s (c ∷ cs) m = run-Matches (remember h c) (step s c) cs (step-Matches h s c m)

-- After any sequence of calls on new statistics the totals are the sums of what was reported since
-- the last reset, modulo 2 ^ 64, and each peak is 0 or one of the rates reported since then, none
-- of which is higher as an int64.
pub run-new-Matches :
    (now : ℕ) (cs : List Call)
    → Matches (remember_all empty_history cs) (run (new_daemon_statistics now) cs)
run-new-Matches now cs =
    run-Matches empty_history (new_daemon_statistics now) cs (empty-Matches now)
