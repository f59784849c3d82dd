-- ===== src/Telegram/Poll/Offset.antt =====
-- The cursor of the polling task is read back as the number it was written from.
use Prim.Native.Nat.{◌/◌, ◌%◌}
use Prim.Native.Char.{code}
use omnisync.Base.{
  ◌≡◌, ℕ, zero, suc, ◌+◌, ◌*◌, ◌<◌, ◌-◌, refl, ap, ◌∙◌, inl, inr, false, String, Option, none, some,
  arith, Bool-cases, ltb, str_eq, eq_iff,
}
use omnisync.Github.Normalize.{join, digit, digits, decimal}
use omnisync.Telegram.Poll.{int_from, int_of, offset_of}

then_from : Option ℕ → String → Option ℕ
then_from none t = none
then_from (some acc) t = int_from acc t

int_from-join : (acc : ℕ) (s t : String) → int_from acc (join s t) ≡ then_from (int_from acc s) t
unfolding int_from then_from
int_from-join acc String.[] t = refl
int_from-join acc (String.◌∷◌ c s) t = ground (arith, int_from-join (acc * 10 + (code c - 48)) s t)

int_from-digit : (acc d : ℕ) → d < 10 → int_from acc (digit d) ≡ some (acc * 10 + d)
unfolding int_from digit
int_from-digit acc zero h = refl
int_from-digit acc (suc zero) h = refl
int_from-digit acc (suc (suc zero)) h = refl
int_from-digit acc (suc (suc (suc zero))) h = refl
int_from-digit acc (suc (suc (suc (suc zero)))) h = refl
int_from-digit acc (suc (suc (suc (suc (suc zero))))) h = refl
int_from-digit acc (suc (suc (suc (suc (suc (suc zero)))))) h = refl
int_from-digit acc (suc (suc (suc (suc (suc (suc (suc zero))))))) h = refl
int_from-digit acc (suc (suc (suc (suc (suc (suc (suc (suc zero)))))))) h = refl
int_from-digit acc (suc (suc (suc (suc (suc (suc (suc (suc (suc zero))))))))) h = refl
int_from-digit acc (suc (suc (suc (suc (suc (suc (suc (suc (suc (suc d)))))))))) h =
    absurd (omega arith)

int_from-digits : (fuel n : ℕ) → n < fuel → int_from 0 (digits fuel n) ≡ some n
unfolding digits then_from
int_from-digits zero n h = absurd (omega arith)
int_from-digits (suc fuel) n h = elim (Bool-cases (ltb n 10)) [
  | inl small ↦
      rw (small, digits) (int_from-digit 0 n (ground (arith, small)) ∙ ap some (omega arith))
  | inr large ↦
      rw (large, digits)
        (int_from-join 0 (digits fuel (n / 10)) (digit (n % 10))
          ∙ ap (λ o. then_from o (digit (n % 10)))
              (int_from-digits fuel (n / 10) (ground (arith, large)))
          ∙ int_from-digit (n / 10) (n % 10) (omega arith)
          ∙ ap some (omega arith))
]

-- `int` reads back what `str` prints of a number.
pub int_of-decimal : (n : ℕ) → int_of (decimal n) ≡ some n
unfolding int_of decimal
int_of-decimal n = elim (Bool-cases (str_eq (decimal n) "")) [
  | inl empty ↦ absurd (
      cc (
        int_from-digits (suc n) n (omega arith),
        ap (int_from 0) ((eq_iff (decimal n) "").0 empty),
      ))
  | inr given ↦ rw given (int_from-digits (suc n) n (omega arith))
]

decimal-ne-empty : (n : ℕ) → str_eq (decimal n) "" ≡ false
unfolding int_of
decimal-ne-empty n = elim (Bool-cases (str_eq (decimal n) "")) [
  | inl empty ↦
      let q : int_of (decimal n) ≡ none = rw (empty, int_of) refl in
      absurd (cc (int_of-decimal n, q))
  | inr given ↦ given
]

-- The offset of the next poll.
pub offset_of-decimal : (n : ℕ) → offset_of (some (decimal n)) ≡ some (some n)
unfolding offset_of
offset_of-decimal n = ground (arith, decimal-ne-empty n, int_of-decimal n)
