-- ===== src/Base/Keyset/Growth.antt =====
-- A sorted table that grows at its end.
use Prim.Native.Nat.{ℕ, zero, suc}
use mathlib.Core.Path.{◌≡◌, refl, ◌∙◌, ap}
use mathlib.Core.Logic.{inl, inr}
use mathlib.Core.Bool.{Bool, true, false}
use mathlib.Core.List.{List, [], ◌∷◌, ◌++◌}
use native.Mathlib.Omega.{arith}
use omnisync.Base.Tests.{Bool-cases}
use omnisync.Base.Lists.{select, take, drop, All}
use omnisync.Base.Keyset.{IsStrictOrder, insert, sort}

pub take-nil→drop {ℓ} : {A : Type ℓ} (n : ℕ) (xs : List A) → take n xs ≡ [] → drop n xs ≡ xs
take-nil→drop zero xs h = refl
take-nil→drop (suc n) [] h = refl
take-nil→drop (suc n) (x ∷ xs) h = absurd (cc)

module _ {ℓ} {A : Type ℓ} where
  pub select-append :
      (p : A → Bool) (xs ys : List A) → select p (xs ++ ys) ≡ select p xs ++ select p ys
  select-append p [] ys = refl
  select-append p (x ∷ xs) ys = ground (arith, select-append p xs ys)

module _ {ℓ κ} {K : Type ℓ} {A : Type κ} (lt : K → K → Bool) (o : IsStrictOrder lt)
    (key : A → K) where
  insert-append :
      (x n : A) (ys : List A)
      → lt (key n) (key x) ≡ false
      → insert lt key x (ys ++ n ∷ []) ≡ insert lt key x ys ++ n ∷ []
  insert-append x n [] h = rw h refl
  insert-append x n (y ∷ ys) h = ground (arith, insert-append x n ys h)

  not_after : (a b : K) → lt a b ≡ true → lt b a ≡ false
  not_after a b h = elim (Bool-cases (lt b a)) [
    | inl e ↦ cc (o.trans a b a h e, o.irrefl a)
    | inr e ↦ e
  ]

  -- A row that comes after all others is sorted to the end.
  pub sort-append :
      (n : A) (xs : List A)
      → All (λ x. lt (key x) (key n) ≡ true) xs
      → sort lt key (xs ++ n ∷ []) ≡ sort lt key xs ++ n ∷ []
  sort-append n [] h = refl
  sort-append n (x ∷ xs) h =
      ap (insert lt key x) (sort-append n xs h.1)
      ∙ insert-append x n (sort lt key xs) (not_after (key x) (key n) h.0)
