-- ===== src/Int32.antt =====
-- The `int`, `unsigned int` and `size_t` arithmetic that RPC_util/buffer.cc computes with.
-- A 32-bit value is its bit pattern, a number below 2 ^ 32; as an `int`, a pattern from 2 ^ 31 on
-- is negative. A `size_t` is a number below 2 ^ 64.
use cpp_rpc.Prelude.{ℕ, ◌+◌, ◌-◌, ◌%◌, ◌^◌, ◌≤◌, ◌<◌, ◌≡◌, Bool, arith, ltb, leb, if◌then◌else◌}

-- `int` and `unsigned int` addition and subtraction
abbrev pub add_int : ℕ → ℕ → ℕ
add_int a b = (a + b) % 2 ^ 32

abbrev pub sub_int : ℕ → ℕ → ℕ
sub_int a b = (a + 2 ^ 32 - b) % 2 ^ 32

-- the signed comparisons `a < b` and `a <= b`
abbrev pub lt_int : ℕ → ℕ → Bool
lt_int a b = ltb ((a + 2 ^ 31) % 2 ^ 32) ((b + 2 ^ 31) % 2 ^ 32)

abbrev pub le_int : ℕ → ℕ → Bool
le_int a b = leb ((a + 2 ^ 31) % 2 ^ 32) ((b + 2 ^ 31) % 2 ^ 32)

-- An `int` that becomes a `size_t` is extended by its sign; a `size_t` that becomes an `int` loses
-- its upper half.
abbrev pub to_size : ℕ → ℕ
to_size w = if ltb w (2 ^ 31) then w else w + (2 ^ 64 - 2 ^ 32)

abbrev pub of_size : ℕ → ℕ
of_size n = n % 2 ^ 32

abbrev pub add_size : ℕ → ℕ → ℕ
add_size a b = (a + b) % 2 ^ 64

-- On values that an `int` holds without a sign the operations are those of the numbers.
pub sub_int_lem : (a b : ℕ) → b ≤ a → a < 2 ^ 31 → sub_int a b ≡ a - b
sub_int_lem a b h l = omega arith

pub lt_int_lem : (a b : ℕ) → a < 2 ^ 31 → b < 2 ^ 31 → lt_int a b ≡ ltb a b
lt_int_lem a b h l = ground arith

pub le_int_lem : (a b : ℕ) → a < 2 ^ 31 → b < 2 ^ 31 → le_int a b ≡ leb a b
le_int_lem a b h l = ground arith

pub to_size_lem : (a : ℕ) → a < 2 ^ 31 → to_size a ≡ a
to_size_lem a h = ground arith

-- `tail + cap - head`, whose first sum may pass 2 ^ 31 on the way
pub add-sub_int : (t c h : ℕ) → t ≤ h → h ≤ c → c < 2 ^ 31 → sub_int (add_int t c) h ≡ t + c - h
add-sub_int t c h p q l = omega arith
