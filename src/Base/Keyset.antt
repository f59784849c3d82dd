-- ===== src/Base/Keyset.antt =====
-- `ORDER BY` over a key with a strict total order, and the test of a keyset cursor.
pub mod Order
pub mod Sorted
pub mod Paging
pub mod Growth
use mathlib.Core.Path.{◌≡◌}
use mathlib.Core.Bool.{Bool, true, false}
use mathlib.Core.Option.{Option, none, some}
use mathlib.Core.List.{List, [], ◌∷◌}
use omnisync.Base.Tests.{if◌then◌else◌}

-- What the order of a key column obeys; `lt a b` says that `a` comes before `b`.
pub record IsStrictOrder {ℓ} {K : Type ℓ} (lt : K → K → Bool) : Type ℓ where
  pub irrefl : (a : K) → lt a a ≡ false
  pub trans : (a b c : K) → lt a b ≡ true → lt b c ≡ true → lt a c ≡ true
  pub total : (a b : K) → lt a b ≡ false → lt b a ≡ false → a ≡ b

module _ {ℓ κ} {K : Type ℓ} {A : Type κ} (lt : K → K → Bool) (key : A → K) where
  abbrev pub insert : A → List A → List A
  insert x [] = x ∷ []
  insert x (y ∷ ys) = let rest = insert x ys in if lt (key y) (key x) then y ∷ rest else x ∷ y ∷ ys

  -- Rows with equal keys keep the order of the table.
  abbrev pub sort : List A → List A
  sort [] = []
  sort (x ∷ xs) = insert x (sort xs)

  -- `WHERE key > cursor`, and no condition without a cursor.
  abbrev pub after : Option K → A → Bool
  after none x = true
  after (some c) x = lt c (key x)
