-- ===== src/Base/Draws.antt =====
-- What a process draws from outside itself: random UUIDs and readings of the clock. A UUID is
-- its 128-bit value, which is how the database compares it; a time is in microseconds since the
-- epoch, in UTC.
use Prim.Native.Nat.{ℕ, suc}

abbrev pub Uuid : Type 0
Uuid = ℕ

abbrev pub Timestamp : Type 0
Timestamp = ℕ

-- `datetime` counts in microseconds.
abbrev pub second : ℕ
second = 1000000

-- The draws that are still to come.
pub record World : Type 0 where
  -- `uuid4()`
  pub uuids : ℕ → Uuid
  -- `datetime.now(UTC)`
  pub clock : ℕ → Timestamp

abbrev pub draw : World → World
draw w = record w { uuids = λ n. w.uuids (suc n) }

abbrev pub tick : World → World
tick w = record w { clock = λ n. w.clock (suc n) }
