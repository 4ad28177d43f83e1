-- ===== src/Common/Clock.antt =====
-- Instants of Go's `time`, in whole units since an epoch before every event.
-- `none` is the zero `time.Time`, which lies further back than the longest `time.Duration`.
use Prim.Native.Nat.{ℕ, ◌+◌}
use mathlib.Core.Bool.{Bool, true, false}
use mathlib.Core.Option.{Option, none, some}
use whatsapp_matrix_bridge.Common.Tests.{ltb}

abbrev pub Instant : Type 0
Instant = Option ℕ

abbrev pub hour : ℕ
hour = 3600

abbrev pub day : ℕ
day = 86400

abbrev pub is_zero : Instant → Bool
is_zero none = true
is_zero (some t) = false

-- `time.Since(t) < d` at the time `now`: the difference may be negative, so it is not subtracted.
abbrev pub since_lt : ℕ → Instant → ℕ → Bool
since_lt now none d = false
since_lt now (some t) d = ltb now (t + d)

-- `time.Since(t) > d`.
abbrev pub since_gt : ℕ → Instant → ℕ → Bool
since_gt now none d = true
since_gt now (some t) d = ltb (t + d) now

-- `t.Add(d).After(other)`, for an `other` that is not the zero time.
abbrev pub add_after : Instant → ℕ → ℕ → Bool
add_after none d other = false
add_after (some t) d other = ltb other (t + d)
