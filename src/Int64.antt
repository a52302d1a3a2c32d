-- ===== src/Int64.antt =====
-- Go's `int64`, as its bit pattern: a number below 2 ^ 64, negative from 2 ^ 63 on.
use insight_collector.Prelude.{ℕ, ◌+◌, ◌-◌, ◌%◌, ◌^◌, Bool, ◌&&◌, ltb}

-- a - b, which wraps
abbrev pub sub64 : ℕ → ℕ → ℕ
sub64 a b = (a + 2 ^ 64 - b) % 2 ^ 64

-- d > k for a constant k ≥ 0: a negative d is a pattern from 2 ^ 63 on
abbrev pub exceeds : ℕ → ℕ → Bool
exceeds d k = ltb k d && ltb d (2 ^ 63)
