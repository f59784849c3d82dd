-- ===== src/Base/Rows/First.antt =====
-- The first row that passes a test, after a write-back.
use Prim.Native.Nat.{ℕ}
use mathlib.Core.Path.{◌≡◌, refl, ap, sym, ◌∙◌}
use mathlib.Core.Logic.{◌≢◌, inl, inr}
use mathlib.Core.Bool.{Bool, true, false}
use mathlib.Core.Option.{some}
use mathlib.Core.List.{List, [], ◌∷◌, ◌++◌}
use native.Mathlib.Omega.{arith}
use omnisync.Base.Tests.{◌==◌, Bool-cases}
use omnisync.Base.Lists.{first, first-All, All, All-map, any}
use omnisync.Base.Rows.{put, HasUniqueIds}

module _ {ℓ} {A : Type ℓ} (id : A → ℕ) (p : A → Bool) (row : A) where
  pub first-put :
      (rows : List A) {a : A}
      → HasUniqueIds id rows
      → first p rows ≡ some a
      → id row ≡ id a
      → p row ≡ true
      → first p (put id row rows) ≡ some row
  first-put [] u h i q = absurd (cc)
  first-put (b ∷ rows) {a} u h i q = elim (Bool-cases (p b)) [
    | inl here ↦ let e : b ≡ a = ground arith in ground (arith, ap id e)
    | inr there ↦
        let h' : first p rows ≡ some a = ground arith in
        let apart = first-All (λ c. id c ≢ id b) p rows {a = a} u.0 h' in
        ground (arith, apart, first-put rows {a = a} u.1 h' i q)
  ]

  pub first-put_other :
      (rows : List A)
      → All (λ a. id a ≡ id row → p a ≡ false) rows
      → p row ≡ false
      → first p (put id row rows) ≡ first p rows
  first-put_other [] h q = refl
  first-put_other (b ∷ rows) h q = elim (Bool-cases (id b == id row)) [
    | inl here ↦
        let e : p b ≡ false = h.0 (ground arith) in ground (arith, first-put_other rows h.1 q)
    | inr there ↦ ground (arith, first-put_other rows h.1 q)
  ]

pub first_passes {ℓ} :
    {A : Type ℓ} (p : A → Bool) (xs : List A) {a : A} → first p xs ≡ some a → p a ≡ true
first_passes p [] h = absurd (cc)
first_passes p (x ∷ xs) {a} h = elim (Bool-cases (p x)) [
  | inl here ↦ let e : x ≡ a = ground arith in ap p (sym e) ∙ here
  | inr there ↦ first_passes p xs {a = a} (ground arith)
]

-- A row that passes a test is written over one of the table.
pub any-put {ℓ} :
    {A : Type ℓ} (id : A → ℕ) (p : A → Bool) (row : A) (rows : List A)
    → any (λ a. id a == id row) rows ≡ true
    → p row ≡ true
    → any p (put id row rows) ≡ true
any-put id p row [] h q = absurd (cc)
any-put id p row (a ∷ rows) h q = ground (arith, q, any-put id p row rows)

pub any-append {ℓ} :
    {A : Type ℓ} (p : A → Bool) (row : A) (rows : List A)
    → p row ≡ true
    → any p (rows ++ row ∷ []) ≡ true
any-append p row [] q = rw q refl
any-append p row (a ∷ rows) q = ground (arith, any-append p row rows q)

pub any_self {ℓ} :
    {A : Type ℓ} (id : A → ℕ) (rows : List A) → All (λ b. any (λ a. id a == id b) rows ≡ true) rows
any_self id [] = tt
any_self id (a ∷ rows) = (ground arith, All-map (λ b h. ground (arith, h)) rows (any_self id rows))
