-- ===== src/Monitor/Tests.antt =====
-- Two rounds of the display, with rational numbers for the language's doubles and whole ones for its
-- floats.
use cpp_rpc.Prelude.{
  ℕ, ◌+◌, ◌*◌, ◌/◌, ◌≤◌, ◌<◌, ◌^◌, ◌≡◌, refl, Bool, true, false, List, [], ◌∷◌, ltb, arith,
}
use cpp_rpc.Config.Text.{str}
use cpp_rpc.Monitor.{Monitor, new_monitor}
use cpp_rpc.Monitor.Display.{
  point_end, trim, to_string, in_units, bytes2str, Watch, Report, new_watch, raise, monite_round,
  monite,
}
use cpp_rpc.Monitor.Peaks.{watched}

-- a non-negative rational number, as its numerator and a divisor
abbrev Rational : Type 0
Rational = ℕ × ℕ

abbrev rate : ℕ → ℕ → Rational
rate d timeout = (d * 1000, timeout)

abbrev greater : Rational → ℕ → Bool
greater (p, q) n = ltb (n * q) p

abbrev to_long : Rational → ℕ
to_long (p, q) = p / q

abbrev whole : ℕ → ℕ
whole d = d

-- A difference below 2 ^ 40 in two seconds is a speed below 2 ^ 50.
above :
    (d n : ℕ) → d < 2 ^ 40 → n < 2 ^ 50 → greater (rate d 2000) n ≡ true → n ≤ to_long (rate d 2000)
above d n few slow h = ground arith

within :
    (d n : ℕ)
    → d < 2 ^ 40
    → n < 2 ^ 50
    → greater (rate d 2000) n ≡ false
    → to_long (rate d 2000) ≤ n
within d n few slow h = ground arith

small : (d : ℕ) → d < 2 ^ 40 → to_long (rate d 2000) < 2 ^ 50
small d few = omega arith

-- a number below ten, with two decimals
abbrev digits : ℕ → List ℕ
digits f = (48 + f) ∷ 46 ∷ 53 ∷ 48 ∷ []

abbrev below : ℕ → Bool
below f = ltb f 1024

abbrev shrink : ℕ → ℕ
shrink f = f / 1024

cut : trim (str "3.50") ≡ str "3.5"
unfolding trim point_end str
cut = refl

units : bytes2str digits whole below shrink 5000 ≡ str "4.5KB"
unfolding bytes2str in_units to_string trim point_end str
units = refl

abbrev counted : ℕ → Monitor
counted n = record (new_monitor 0 0) { recv_bytes = n; recv_requests = n }

abbrev samples : List (Bool × Monitor)
samples = (false, counted 10) ∷ (false, counted 14) ∷ (true, counted 20) ∷ []

abbrev shown : List (Bool × Monitor) → Watch → List Report × Watch
shown =
    watched rate greater to_long 2000 (2 ^ 40) (2 ^ 50) above within small digits whole below shrink
      to_long

shown_peak : (shown samples new_watch).1.max_recv_data_speed.value ≡ 5
unfolding monite monite_round raise new_watch
shown_peak = refl
