-- ===== src/Base/Keyset/Paging.antt =====
-- Reading a sorted table page by page: the rows after the last one of a page are the rest.
use Prim.Native.Nat.{ℕ}
use mathlib.Core.Path.{◌≡◌, refl, sym, ◌∙◌, ap, subst}
use mathlib.Core.Logic.{inl, inr}
use mathlib.Core.Bool.{Bool, true, false, ◌&&◌}
use mathlib.Core.Option.{Option, none, some}
use mathlib.Core.List.{List, [], ◌∷◌, ◌++◌}
use native.Mathlib.Omega.{arith}
use omnisync.Base.Tests.{Bool-cases}
use omnisync.Base.Lists.{
  All-of, All-take, All-select_passes, select, All, last, take, drop, select-select,
  take-append-drop,
}
use omnisync.Base.Keyset.{IsStrictOrder, after}
use omnisync.Base.Keyset.Sorted.{IsStrict, select-IsStrict}

module _ {ℓ κ} {K : Type ℓ} {A : Type κ} (lt : K → K → Bool) (o : IsStrictOrder lt)
    (key : A → K) where
  select-All :
      (c : K) (ys : List A)
      → All (λ y. lt c (key y) ≡ true) ys
      → select (after lt key (some c)) ys ≡ ys
  select-All c [] h = refl
  select-All c (y ∷ ys) h = rw h.0 (ap (◌∷◌ y) (select-All c ys h.1))

  -- The first of some ascending rows is not after the last of them.
  first-le-last :
      (x : A) (xs ys : List A)
      → IsStrict lt key (x ∷ (xs ++ ys))
      → lt (key (last x xs)) (key x) ≡ false
  first-le-last x [] ys h = o.irrefl (key x)
  first-le-last x (y ∷ xs) ys h = elim (Bool-cases (lt (key (last y xs)) (key x))) [
    | inl e ↦ cc (o.trans (key (last y xs)) (key x) (key y) e h.0.0, first-le-last y xs ys h.1)
    | inr e ↦ e
  ]

  select-after-last :
      (x : A) (xs ys : List A)
      → IsStrict lt key (x ∷ (xs ++ ys))
      → select (after lt key (some (key (last x xs)))) (x ∷ (xs ++ ys)) ≡ ys
  select-after-last x [] ys h = rw (o.irrefl (key x)) (select-All (key x) ys h.0)
  select-after-last x (y ∷ xs) ys h =
      rw (first-le-last x (y ∷ xs) ys h) (select-after-last y xs ys h.1)

  pub select_congr :
      (p q : A → Bool) (xs : List A) → All (λ x. p x ≡ q x) xs → select p xs ≡ select q xs
  select_congr p q [] h = refl
  select_congr p q (x ∷ xs) h = rw (h.0, select_congr p q xs h.1)

  pub last-All {μ} : (P : A → Type μ) (x : A) (xs : List A) → All P (x ∷ xs) → P (last x xs)
  last-All P x [] h = h.0
  last-All P x (y ∷ xs) h = last-All P y xs h.1

  after_both :
      (c : Option K) (k : K) (y : A)
      → ((a : K) → c ≡ some a → lt a k ≡ true)
      → (after lt key c y && after lt key (some k) y) ≡ after lt key (some k) y
  after_both none k y h = refl
  after_both (some a) k y h = elim (Bool-cases (lt k (key y))) [
    | inl e ↦ rw (e, o.trans a k (key y) (h a refl) e)
    | inr e ↦ ground (arith, e)
  ]

  cursor_before :
      (c : Option K) (n : ℕ) (xs : List A) {x : A} {r : List A}
      → take n (select (after lt key c) xs) ≡ x ∷ r
      → (a : K) → c ≡ some a
      → lt a (key (last x r)) ≡ true
  cursor_before c n xs {x} {r} e a q =
      last-All (λ y. lt a (key y) ≡ true) x r
        (subst (All (λ y. lt a (key y) ≡ true)) e (
          All-take (λ y. lt a (key y) ≡ true) n (select (after lt key c) xs)
            (subst (λ d. All (λ y. lt a (key y) ≡ true) (select (after lt key d) xs)) (sym q)
              (All-select_passes (after lt key (some a)) xs))))

  -- A page of the rows after a cursor, not empty: the rows after its last row are those that the
  -- page left.
  pub select-after_page :
      (xs : List A)
      → IsStrict lt key xs
      → (c : Option K) (n : ℕ) {x : A} {r : List A} → take n (select (after lt key c) xs) ≡ x ∷ r
      → select (after lt key (some (key (last x r)))) xs ≡ drop n (select (after lt key c) xs)
  select-after_page xs s c n {x} {r} e =
      sym (
        select_congr _ _ xs
          (All-of _ (λ y. after_both c (key (last x r)) y (cursor_before c n xs e)) xs))
      ∙ sym (select-select (after lt key (some (key (last x r)))) (after lt key c) xs)
      ∙ ap (select (after lt key (some (key (last x r))))) whole
      ∙ select-after-last x r (drop n rest)
          (subst (IsStrict lt key) whole (select-IsStrict lt o key (after lt key c) xs s))
    where
      rest : List A
      rest = select (after lt key c) xs

      whole : rest ≡ x ∷ (r ++ drop n rest)
      whole = sym (take-append-drop n rest) ∙ ap (λ l. l ++ drop n rest) e
