-- ===== src/Prelude/Words.antt =====
-- Go's 64-bit integers as bit patterns below 2 ^ 64, and differences of clock readings.
use Prim.Native.Nat.{ℕ, ◌+◌, ◌-◌, ◌%◌, ◌<◌, ◌^◌}
use mathlib.Core.Path.{◌≡◌}
use mathlib.Core.Logic.{◌↔◌}
use mathlib.Core.Bool.{Bool, true}
use native.Mathlib.Omega.{arith}
use libreseed.Prelude.Tests.{ltb, leb, if◌then◌else◌}

-- The number of bit patterns of an int64 (and of an int, on a 64-bit machine).
abbrev pub word : ℕ
word = 2 ^ 64

-- `a + b` on int64: it wraps.
unfoldable pub add_word : ℕ → ℕ → ℕ
add_word a b = (a + b) % word

-- `a < b` on int64, read off the bit patterns.
unfoldable pub signed_lt : ℕ → ℕ → Bool
signed_lt a b = ltb ((a + 2 ^ 63) % word) ((b + 2 ^ 63) % word)

-- `now.Sub(t)` as the bit pattern of a time.Duration. Clock readings are nanoseconds since the
-- zero time; the difference saturates at the ends of int64.
unfoldable pub sub_time : ℕ → ℕ → ℕ
sub_time now t =
    if leb t now
    then (if ltb (now - t) (2 ^ 63) then now - t else 2 ^ 63 - 1)
    else (if leb (t - now) (2 ^ 63) then word - (t - now) else 2 ^ 63)

pub add_word-lt : (a b : ℕ) → add_word a b < word
unfolding add_word
add_word-lt a b = omega arith

pub add_word-mod : (a b c : ℕ) → add_word (add_word a b) c ≡ (a + b + c) % word
unfolding add_word
add_word-mod a b c = omega arith

pub mod_word_idem : (a b : ℕ) → (a % word + b) % word ≡ (a + b) % word
mod_word_idem a b = omega arith

-- A positive int64 has a bit pattern below the sign bit.
pub signed_lt_pos_iff : (n : ℕ) → (signed_lt 0 n ≡ true) ↔ ((0 < n % word) × (n % word < 2 ^ 63))
unfolding signed_lt
signed_lt_pos_iff n = ground arith
