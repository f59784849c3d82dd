-- ===== src/Base/Keyset/Sorted.antt =====
-- Sorting sorts, keeps what holds of every row, and commutes with `WHERE`.
use mathlib.Core.Path.{◌≡◌, refl, sym}
use mathlib.Core.Logic.{inl, inr}
use mathlib.Core.Bool.{Bool, true, false}
use mathlib.Core.List.{List, [], ◌∷◌}
use native.Mathlib.Omega.{arith}
use Prim.Native.Nat.{suc}
use omnisync.Base.Tests.{if◌then◌else◌, Bool-cases}
use omnisync.Base.Lists.{All-select, select, All, length}
use omnisync.Base.Keyset.{IsStrictOrder, insert, sort}

module _ {ℓ κ} {K : Type ℓ} {A : Type κ} (lt : K → K → Bool) (key : A → K) where
  -- No row comes before an earlier one.
  abbrev pub IsSorted : List A → Type ℓ
  IsSorted [] = Unit
  IsSorted (x ∷ xs) = All (λ y. lt (key y) (key x) ≡ false) xs × IsSorted xs

  -- The keys are pairwise different.
  abbrev pub IsDistinct : List A → Type ℓ
  IsDistinct [] = Unit
  IsDistinct (x ∷ xs) = All (λ y. ¬ (key x ≡ key y)) xs × IsDistinct xs

  -- Each row comes strictly before the later ones.
  abbrev pub IsStrict : List A → Type ℓ
  IsStrict [] = Unit
  IsStrict (x ∷ xs) = All (λ y. lt (key x) (key y) ≡ true) xs × IsStrict xs

  module _ {μ} (P : A → Type μ) where
    pub All-insert : (x : A) (ys : List A) → P x → All P ys → All P (insert lt key x ys)
    All-insert x [] p h = (p, tt)
    All-insert x (y ∷ ys) p h = elim (Bool-cases (lt (key y) (key x))) [
      | inl e ↦ rw e (h.0, All-insert x ys p h.1)
      | inr e ↦ rw e (p, h)
    ]

    pub All-sort : (xs : List A) → All P xs → All P (sort lt key xs)
    All-sort [] h = tt
    All-sort (x ∷ xs) h = All-insert x (sort lt key xs) h.0 (All-sort xs h.1)

  pub length-insert : (x : A) (ys : List A) → length (insert lt key x ys) ≡ suc (length ys)
  length-insert x [] = refl
  length-insert x (y ∷ ys) = ground (arith, length-insert x ys)

  pub length-sort : (xs : List A) → length (sort lt key xs) ≡ length xs
  length-sort [] = refl
  length-sort (x ∷ xs) = omega (arith, length-insert x (sort lt key xs), length-sort xs)

module _ {ℓ κ} {K : Type ℓ} {A : Type κ} (lt : K → K → Bool) (o : IsStrictOrder lt)
    (key : A → K) where
  asym : (a b : K) → lt a b ≡ true → lt b a ≡ false
  asym a b h = elim (Bool-cases (lt b a)) [ inl e ↦ cc (o.trans a b a h e, o.irrefl a) | inr e ↦ e ]

  -- "Not before" is transitive too.
  not_before_trans : (a b c : K) → lt b a ≡ false → lt c b ≡ false → lt c a ≡ false
  not_before_trans a b c h k = elim (Bool-cases (lt a b)) [
    | inl e ↦ elim (Bool-cases (lt c a)) [ inl f ↦ cc (o.trans c a b f e) | inr f ↦ f ]
    | inr e ↦ rw (o.total a b e h) k
  ]

  not_before-All :
      (a b : K) (ys : List A)
      → lt b a ≡ false
      → All (λ y. lt (key y) b ≡ false) ys
      → All (λ y. lt (key y) a ≡ false) ys
  not_before-All a b [] h all = tt
  not_before-All a b (y ∷ ys) h all =
      (not_before_trans a b (key y) h all.0, not_before-All a b ys h all.1)

  insert-IsSorted :
      (x : A) (ys : List A) → IsSorted lt key ys → IsSorted lt key (insert lt key x ys)
  insert-IsSorted x [] h = (tt, tt)
  insert-IsSorted x (y ∷ ys) h = elim (Bool-cases (lt (key y) (key x))) [
    | inl e ↦ rw e (
      All-insert lt key (λ z. lt (key z) (key y) ≡ false) x ys (asym (key y) (key x) e) h.0,
      insert-IsSorted x ys h.1,
    )
    | inr e ↦ rw e ((e, not_before-All (key x) (key y) ys e h.0), h)
  ]

  pub sort-IsSorted : (xs : List A) → IsSorted lt key (sort lt key xs)
  sort-IsSorted [] = tt
  sort-IsSorted (x ∷ xs) = insert-IsSorted x (sort lt key xs) (sort-IsSorted xs)

  insert_first :
      (x : A) (ys : List A) → All (λ y. lt (key y) (key x) ≡ false) ys → insert lt key x ys ≡ x ∷ ys
  insert_first x [] h = refl
  insert_first x (y ∷ ys) h = rw h.0

  select-insert :
      (p : A → Bool) (x : A) (ys : List A)
      → IsSorted lt key ys
      → select p (insert lt key x ys) ≡ (if p x then insert lt key x (select p ys) else select p ys)
  select-insert p x [] h = refl
  select-insert p x (y ∷ ys) h = elim (Bool-cases (lt (key y) (key x))) [
    | inl e ↦ ground (arith, select-insert p x ys h.1)
    | inr e ↦ ground (
      arith,
      insert_first x (select p (y ∷ ys)) (
          All-select (λ z. lt (key z) (key x) ≡ false) p (y ∷ ys)
            (e, not_before-All (key x) (key y) ys e h.0)),
    )
  ]

  -- `WHERE` before or after `ORDER BY` gives the same rows.
  pub select-sort :
      (p : A → Bool) (xs : List A) → select p (sort lt key xs) ≡ sort lt key (select p xs)
  select-sort p [] = refl
  select-sort p (x ∷ xs) =
      ground (arith, select-insert p x (sort lt key xs) (sort-IsSorted xs), select-sort p xs)

  insert-IsDistinct :
      (x : A) (ys : List A)
      → All (λ y. ¬ (key x ≡ key y)) ys
      → IsDistinct lt key ys
      → IsDistinct lt key (insert lt key x ys)
  insert-IsDistinct x [] n h = (tt, tt)
  insert-IsDistinct x (y ∷ ys) n h = elim (Bool-cases (lt (key y) (key x))) [
    | inl e ↦ rw e (
      All-insert lt key (λ z. ¬ (key y ≡ key z)) x ys (λ q. n.0 (sym q)) h.0,
      insert-IsDistinct x ys n.1 h.1,
    )
    | inr e ↦ rw e (n, h)
  ]

  sort-IsDistinct : (xs : List A) → IsDistinct lt key xs → IsDistinct lt key (sort lt key xs)
  sort-IsDistinct [] h = tt
  sort-IsDistinct (x ∷ xs) h =
      insert-IsDistinct x (sort lt key xs) (All-sort lt key (λ y. ¬ (key x ≡ key y)) xs h.0)
        (sort-IsDistinct xs h.1)

  strict-All :
      (x : A) (ys : List A)
      → All (λ y. lt (key y) (key x) ≡ false) ys
      → All (λ y. ¬ (key x ≡ key y)) ys
      → All (λ y. lt (key x) (key y) ≡ true) ys
  strict-All x [] h n = tt
  strict-All x (y ∷ ys) h n = elim (Bool-cases (lt (key x) (key y))) [
    | inl e ↦ (e, strict-All x ys h.1 n.1)
    | inr e ↦ absurd (n.0 (o.total (key x) (key y) e h.0))
  ]

  IsStrict-of : (xs : List A) → IsSorted lt key xs → IsDistinct lt key xs → IsStrict lt key xs
  IsStrict-of [] s d = tt
  IsStrict-of (x ∷ xs) s d = (strict-All x xs s.0 d.0, IsStrict-of xs s.1 d.1)

  -- With pairwise different keys the sorted rows ascend strictly.
  pub sort-IsStrict : (xs : List A) → IsDistinct lt key xs → IsStrict lt key (sort lt key xs)
  sort-IsStrict xs d = IsStrict-of (sort lt key xs) (sort-IsSorted xs) (sort-IsDistinct xs d)

  pub select-IsStrict :
      (p : A → Bool) (xs : List A) → IsStrict lt key xs → IsStrict lt key (select p xs)
  select-IsStrict p [] h = tt
  select-IsStrict p (x ∷ xs) h = elim (Bool-cases (p x)) [
    | inl e ↦ rw e (All-select (λ y. lt (key x) (key y) ≡ true) p xs h.0, select-IsStrict p xs h.1)
    | inr e ↦ rw e (select-IsStrict p xs h.1)
  ]
