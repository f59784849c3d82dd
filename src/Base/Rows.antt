-- ===== src/Base/Rows.antt =====
-- Rows of a table by their id, and the write-back of one row.
pub mod First
use Prim.Native.Nat.{ℕ, zero, suc, ◌≤◌}
use mathlib.Core.Path.{◌≡◌, refl, sym, ap, subst, ◌∙◌}
use mathlib.Core.Logic.{◌≢◌, inl, inr}
use mathlib.Core.Bool.{Bool, true}
use mathlib.Core.Option.{Option, none, some}
use mathlib.Core.List.{List, [], ◌∷◌, ◌++◌}
use native.Mathlib.Omega.{arith}
use omnisync.Base.Tests.{◌==◌, if◌then◌else◌, is_some, Bool-cases}
use omnisync.Base.Lists.{
  first, update, All, length, select, take, All-select, All-take, All-map, All-append,
}
use omnisync.Base.Keyset.{insert, sort}
use omnisync.Base.Keyset.Sorted.{All-insert, All-sort}

module _ {ℓ} {A : Type ℓ} (id : A → ℕ) where
  abbrev pub find : ℕ → List A → Option A
  find i = first (λ a. id a == i)

  -- `UPDATE … WHERE id = …`, the flush of a changed object.
  abbrev pub put : A → List A → List A
  put row = update (λ a. id a == id row) (λ _. row)

  abbrev pub HasUniqueIds : List A → Type 0
  HasUniqueIds [] = Unit
  HasUniqueIds (a ∷ rows) = All (λ b. id b ≢ id a) rows × HasUniqueIds rows

  pub find-put :
      (i : ℕ) (row : A) (rows : List A)
      → find i (put row rows)
        ≡ (if id row == i then (if is_some (find i rows) then some row else none) else find i rows)
  find-put i row [] = ground arith
  find-put i row (a ∷ rows) = ground (arith, find-put i row rows)

  pub find-All {κ} :
      (P : A → Type κ) (i : ℕ) (rows : List A) {a : A}
      → All P rows
      → find i rows ≡ some a
      → P a × (id a ≡ i)
  find-All P i [] h e = absurd (cc)
  find-All P i (b ∷ rows) {a} h e = elim (Bool-cases (id b == i)) [
    | inl here ↦ let q : b ≡ a = ground arith in (subst P q h.0, ground (arith, ap id q))
    | inr there ↦ find-All P i rows {a = a} h.1 (ground arith)
  ]

  find_weaken :
      (b : A) (rows as' : List A)
      → All (λ a. id a ≢ id b) as'
      → All (λ a. find (id a) rows ≡ some a) as'
      → All (λ a. find (id a) (b ∷ rows) ≡ some a) as'
  find_weaken b rows [] n h = tt
  find_weaken b rows (a ∷ as') n h = (ground (arith, n.0, h.0), find_weaken b rows as' n.1 h.1)

  -- With distinct ids each row is the one of its id.
  pub find_self : (rows : List A) → HasUniqueIds rows → All (λ a. find (id a) rows ≡ some a) rows
  find_self [] u = tt
  find_self (a ∷ rows) u = (ground arith, find_weaken a rows rows u.0 (find_self rows u.1))

  pub select-HasUniqueIds :
      (p : A → Bool) (rows : List A) → HasUniqueIds rows → HasUniqueIds (select p rows)
  select-HasUniqueIds p [] u = tt
  select-HasUniqueIds p (a ∷ rows) u = elim (Bool-cases (p a)) [
    | inl e ↦ rw e (All-select (λ b. id b ≢ id a) p rows u.0, select-HasUniqueIds p rows u.1)
    | inr e ↦ rw e (select-HasUniqueIds p rows u.1)
  ]

  pub take-HasUniqueIds : (n : ℕ) (rows : List A) → HasUniqueIds rows → HasUniqueIds (take n rows)
  take-HasUniqueIds zero rows u = tt
  take-HasUniqueIds (suc n) [] u = tt
  take-HasUniqueIds (suc n) (a ∷ rows) u =
      (All-take (λ b. id b ≢ id a) n rows u.0, take-HasUniqueIds n rows u.1)

  put-fresh :
      (i : ℕ) (row : A) (rows : List A)
      → All (λ b. id b ≢ i) rows
      → All (λ b. id b ≢ i) (put row rows)
  put-fresh i row [] h = tt
  put-fresh i row (a ∷ rows) h = ground (arith, h.0, put-fresh i row rows h.1)

  -- A write-back keeps the ids and the number of the rows.
  pub put-HasUniqueIds : (row : A) (rows : List A) → HasUniqueIds rows → HasUniqueIds (put row rows)
  put-HasUniqueIds row [] u = tt
  put-HasUniqueIds row (a ∷ rows) u = elim (Bool-cases (id a == id row)) [
    | inl here ↦ rw here (
      subst (λ i. All (λ b. id b ≢ i) (put row rows)) (ground arith)
          (put-fresh (id a) row rows u.0),
      put-HasUniqueIds row rows u.1,
    )
    | inr there ↦ rw there (put-fresh (id a) row rows u.0, put-HasUniqueIds row rows u.1)
  ]

  pub length-put : (row : A) (rows : List A) → length (put row rows) ≡ length rows
  length-put row [] = refl
  length-put row (a ∷ rows) = ap suc (length-put row rows)

  pub find_absent : (i : ℕ) (rows : List A) → All (λ b. id b ≢ i) rows → find i rows ≡ none
  find_absent i [] h = refl
  find_absent i (b ∷ rows) h = ground (arith, h.0, find_absent i rows h.1)

  pub find-select :
      (i : ℕ) (p : A → Bool) (rows : List A) {a : A}
      → HasUniqueIds rows
      → find i rows ≡ some a
      → p a ≡ true
      → find i (select p rows) ≡ some a
  find-select i p [] u h q = absurd (cc)
  find-select i p (b ∷ rows) {a} u h q = elim (Bool-cases (id b == i)) [
    | inl here ↦ let e : b ≡ a = ground arith in rw (ap p e ∙ q, here, e)
    | inr there ↦ ground (arith, find-select i p rows {a = a} u.1)
  ]

  module _ {κ} {K : Type κ} (lt : K → K → Bool) (key : A → K) where
    insert-HasUniqueIds :
        (a : A) (rows : List A)
        → All (λ b. id b ≢ id a) rows
        → HasUniqueIds rows
        → HasUniqueIds (insert lt key a rows)
    insert-HasUniqueIds a [] n u = (tt, tt)
    insert-HasUniqueIds a (b ∷ rows) n u = elim (Bool-cases (lt (key b) (key a))) [
      | inl e ↦ rw e (
        All-insert lt key (λ c. id c ≢ id b) a rows (λ q. n.0 (sym q)) u.0,
        insert-HasUniqueIds a rows n.1 u.1,
      )
      | inr e ↦ rw e (n, u)
    ]

    pub sort-HasUniqueIds : (rows : List A) → HasUniqueIds rows → HasUniqueIds (sort lt key rows)
    sort-HasUniqueIds [] u = tt
    sort-HasUniqueIds (a ∷ rows) u =
        insert-HasUniqueIds a (sort lt key rows) (All-sort lt key (λ b. id b ≢ id a) rows u.0)
          (sort-HasUniqueIds rows u.1)

    find-insert :
        (i : ℕ) (a : A) (rows : List A)
        → All (λ b. id b ≢ id a) rows
        → find i (insert lt key a rows) ≡ (if id a == i then some a else find i rows)
    find-insert i a [] n = refl
    find-insert i a (b ∷ rows) n = ground (arith, n.0, find-insert i a rows n.1)

    -- Sorting moves rows and loses none.
    pub find-sort :
        (i : ℕ) (rows : List A) → HasUniqueIds rows → find i (sort lt key rows) ≡ find i rows
    find-sort i [] u = refl
    find-sort i (a ∷ rows) u =
        find-insert i a (sort lt key rows) (All-sort lt key (λ b. id b ≢ id a) rows u.0)
        ∙ ground (arith, find-sort i rows u.1)

  -- A write-back that passes a test only where the row it replaces did adds no row that passes it.
  pub length-select-put :
      (p : A → Bool) (row : A) (rows : List A)
      → All (λ a. id a ≡ id row → p row ≡ true → p a ≡ true) rows
      → length (select p (put row rows)) ≤ length (select p rows)
  length-select-put p row [] h = omega arith
  length-select-put p row (a ∷ rows) h = elim (Bool-cases (id a == id row)) [
    | inl here ↦ elim (Bool-cases (p row)) [
      | inl passes ↦
          let q : p a ≡ true = h.0 (ground arith) passes in
          ground (arith, length-select-put p row rows h.1, q)
      | inr fails ↦ ground (arith, length-select-put p row rows h.1)
    ]
    | inr there ↦ ground (arith, length-select-put p row rows h.1)
  ]

  -- A new row with a new id.
  pub append-HasUniqueIds :
      (row : A) (rows : List A)
      → All (λ b. id b ≢ id row) rows
      → HasUniqueIds rows
      → HasUniqueIds (rows ++ row ∷ [])
  append-HasUniqueIds row [] n u = (tt, tt)
  append-HasUniqueIds row (a ∷ rows) n u = (
    All-append (λ b. id b ≢ id a) rows (row ∷ []) u.0 ((λ q. n.0 (sym q)), tt),
    append-HasUniqueIds row rows n.1 u.1,
  )

  pub find-append :
      (i : ℕ) (row : A) (rows : List A)
      → All (λ b. id b ≢ id row) rows
      → find i (rows ++ row ∷ []) ≡ (if id row == i then some row else find i rows)
  find-append i row [] n = refl
  find-append i row (a ∷ rows) n = ground (arith, n.0, find-append i row rows n.1)

  -- The row of an id is the only one with it.
  pub found_only :
      (i : ℕ) (rows : List A) {b : A}
      → HasUniqueIds rows
      → find i rows ≡ some b
      → All (λ a. id a ≡ i → a ≡ b) rows
  found_only i rows {b} u h = All-map (λ a e q. ground (arith, e)) rows (find_self rows u)
