-- ===== src/Base/Keyset/Order.antt =====
-- The order of pairs of numbers, ascending and descending: a timestamp, then an id.
use Prim.Native.Nat.{ℕ}
use mathlib.Core.Bool.{Bool, ◌&&◌, ◌||◌}
use native.Mathlib.Omega.{arith}
use omnisync.Base.Tests.{ltb, ◌==◌}
use omnisync.Base.Keyset.{IsStrictOrder}

-- `ts < ts' or (ts == ts' and id < id')`
abbrev pub before : ℕ × ℕ → ℕ × ℕ → Bool
before (t, i) (t', i') = ltb t t' || (t == t' && ltb i i')

-- The same for a descending order.
abbrev pub later : ℕ × ℕ → ℕ × ℕ → Bool
later a b = before b a

pub before-IsStrictOrder : IsStrictOrder before
before-IsStrictOrder = record {
  irrefl = λ a. ground arith;
  trans = λ a b c h k. ground arith;
  total = λ a b h k. ground arith;
}

pub later-IsStrictOrder : IsStrictOrder later
later-IsStrictOrder = record {
  irrefl = λ a. ground arith;
  trans = λ a b c h k. ground arith;
  total = λ a b h k. ground arith;
}
