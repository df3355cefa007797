-- ===== src/Base/Time.antt =====
-- Instants (`DateTime<Utc>`) as nanoseconds since the Unix epoch, and the `chrono` arithmetic on
-- them. Instants before 1970 and the ends of `chrono`'s range are outside the model.
use Prim.Native.Nat.{ℕ, ◌+◌, ◌-◌, ◌*◌, ◌/◌}
use chronon.Base.Int.{ℤ, pos, sub_ℕ}
use chronon.Base.Tests.{leb, if◌then◌else◌}

abbrev pub Instant : Type 0
Instant = ℕ

abbrev pub nanos_per_sec : ℕ
nanos_per_sec = 1_000_000_000

abbrev pub nanos_per_milli : ℕ
nanos_per_milli = 1_000_000

-- `t + Duration::seconds(n)` and `t + Duration::milliseconds(n)`
abbrev pub plus_seconds : Instant → ℕ → Instant
plus_seconds t n = t + n * nanos_per_sec

abbrev pub plus_millis : Instant → ℕ → Instant
plus_millis t n = t + n * nanos_per_milli

-- `(a - b).num_milliseconds()` and `(a - b).num_seconds().max(0)`: whole units, towards zero.
unfoldable pub num_milliseconds : Instant → Instant → ℤ
num_milliseconds a b =
    if leb b a then pos ((a - b) / nanos_per_milli) else sub_ℕ 0 ((b - a) / nanos_per_milli)

abbrev pub seconds_late : Instant → Instant → ℕ
seconds_late a b = (a - b) / nanos_per_sec
