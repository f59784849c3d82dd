-- ===== src/DbTypes/Hex.antt =====
-- A UUID is read back from its 32 digits.
use Prim.Native.Nat.{◌/◌, ◌%◌}
use Prim.Native.Nat.pow
use Prim.Native.Char.{code}
use omnisync.Base.{
  ◌≡◌, refl, ap, ◌∙◌, inl, inr, ℕ, zero, suc, ◌+◌, ◌*◌, ◌^◌, ◌<◌, ◌==◌, String, Option, none, some,
  arith, Bool-cases, Option-cases, Uuid,
}
use omnisync.Github.Normalize.{join}
use omnisync.DbTypes.{
  Dialect, postgresql, other, Stored, chars, hex_digit, hex_digits, hex, nibble, read_hex,
  parse_uuid, bind_uuid, process_result_value,
}

abbrev pub text_length : String → ℕ
text_length String.[] = 0
text_length (String.◌∷◌ c s) = suc (text_length s)

then_read : Option (ℕ × ℕ) → String → Option (ℕ × ℕ)
then_read none t = none
then_read (some (count, acc)) t = read_hex count acc t

read_hex-join :
    (count acc : ℕ) (s t : String)
    → read_hex count acc (join s t) ≡ then_read (read_hex count acc s) t
unfolding read_hex then_read
read_hex-join count acc String.[] t = refl
read_hex-join count acc (String.◌∷◌ c s) t = elim (Bool-cases (code c == 45)) [
  | inl dash ↦ rw (dash, read_hex) (read_hex-join count acc s t)
  | inr digit ↦ elim (Option-cases (nibble (code c))) [
    | inl bad ↦ rw (digit, bad, read_hex, then_read) refl
    | inr (d, good) ↦ rw (digit, good, read_hex) (read_hex-join (suc count) (acc * 16 + d) s t)
  ]
]

read_hex-digit :
    (count acc d : ℕ) → d < 16 → read_hex count acc (hex_digit d) ≡ some (suc count, acc * 16 + d)
unfolding read_hex hex_digit nibble
read_hex-digit count acc zero h = refl
read_hex-digit count acc (suc zero) h = refl
read_hex-digit count acc (suc (suc zero)) h = refl
read_hex-digit count acc (suc (suc (suc zero))) h = refl
read_hex-digit count acc (suc (suc (suc (suc zero)))) h = refl
read_hex-digit count acc (suc (suc (suc (suc (suc zero))))) h = refl
read_hex-digit count acc (suc (suc (suc (suc (suc (suc zero)))))) h = refl
read_hex-digit count acc (suc (suc (suc (suc (suc (suc (suc zero))))))) h = refl
read_hex-digit count acc (suc (suc (suc (suc (suc (suc (suc (suc zero)))))))) h = refl
read_hex-digit count acc (suc (suc (suc (suc (suc (suc (suc (suc (suc zero))))))))) h = refl
read_hex-digit count acc (suc (suc (suc (suc (suc (suc (suc (suc (suc (suc zero)))))))))) h = refl
read_hex-digit count acc (suc (suc (suc (suc (suc (suc (suc (suc (suc (suc (suc zero))))))))))) h =
    refl
read_hex-digit count acc
      (suc (suc (suc (suc (suc (suc (suc (suc (suc (suc (suc (suc zero)))))))))))) h =
    refl
read_hex-digit count acc
      (suc (suc (suc (suc (suc (suc (suc (suc (suc (suc (suc (suc (suc zero))))))))))))) h =
    refl
read_hex-digit count acc
      (suc (suc (suc (suc (suc (suc (suc (suc (suc (suc (suc (suc (suc (suc zero)))))))))))))) h =
    refl
read_hex-digit count acc
      (suc (suc (suc (suc (suc (suc (suc (suc (suc (suc (suc (suc (suc (suc (suc zero)))))))))))))))
      h =
    refl
read_hex-digit count acc
      (suc
        (suc (suc (suc (suc (suc (suc (suc (suc (suc (suc (suc (suc (suc (suc (suc d))))))))))))))))
      h =
    absurd (omega arith)

read_hex-digits : (k n : ℕ) → n < 16 ^ k → read_hex 0 0 (hex_digits k n) ≡ some (k, n)
unfolding hex_digits then_read read_hex
read_hex-digits zero n h = let e : 0 ≡ n = omega (arith, h, pow.zero 16) in ap (λ m. some (0, m)) e
read_hex-digits (suc k) n h =
    let small : n / 16 < 16 ^ k = omega (arith, h, pow.suc 16 k) in
    let whole : n / 16 * 16 + n % 16 ≡ n = omega arith in
    read_hex-join 0 0 (hex_digits k (n / 16)) (hex_digit (n % 16))
    ∙ ap (λ o. then_read o (hex_digit (n % 16))) (read_hex-digits k (n / 16) small)
    ∙ read_hex-digit k (n / 16) (n % 16) (omega arith)
    ∙ ap (λ m. some (suc k, m)) whole

text_length-join : (s t : String) → text_length (join s t) ≡ text_length s + text_length t
text_length-join String.[] t = omega arith
text_length-join (String.◌∷◌ c s) t = omega (arith, text_length-join s t)

text_length-hex_digit : (d : ℕ) → d < 16 → text_length (hex_digit d) ≡ 1
unfolding hex_digit
text_length-hex_digit zero h = refl
text_length-hex_digit (suc zero) h = refl
text_length-hex_digit (suc (suc zero)) h = refl
text_length-hex_digit (suc (suc (suc zero))) h = refl
text_length-hex_digit (suc (suc (suc (suc zero)))) h = refl
text_length-hex_digit (suc (suc (suc (suc (suc zero))))) h = refl
text_length-hex_digit (suc (suc (suc (suc (suc (suc zero)))))) h = refl
text_length-hex_digit (suc (suc (suc (suc (suc (suc (suc zero))))))) h = refl
text_length-hex_digit (suc (suc (suc (suc (suc (suc (suc (suc zero)))))))) h = refl
text_length-hex_digit (suc (suc (suc (suc (suc (suc (suc (suc (suc zero))))))))) h = refl
text_length-hex_digit (suc (suc (suc (suc (suc (suc (suc (suc (suc (suc zero)))))))))) h = refl
text_length-hex_digit (suc (suc (suc (suc (suc (suc (suc (suc (suc (suc (suc zero))))))))))) h =
    refl
text_length-hex_digit (suc (suc (suc (suc (suc (suc (suc (suc (suc (suc (suc (suc zero))))))))))))
      h =
    refl
text_length-hex_digit
      (suc (suc (suc (suc (suc (suc (suc (suc (suc (suc (suc (suc (suc zero))))))))))))) h =
    refl
text_length-hex_digit
      (suc (suc (suc (suc (suc (suc (suc (suc (suc (suc (suc (suc (suc (suc zero)))))))))))))) h =
    refl
text_length-hex_digit
      (suc (suc (suc (suc (suc (suc (suc (suc (suc (suc (suc (suc (suc (suc (suc zero)))))))))))))))
      h =
    refl
text_length-hex_digit
      (suc
        (suc (suc (suc (suc (suc (suc (suc (suc (suc (suc (suc (suc (suc (suc (suc d))))))))))))))))
      h =
    absurd (omega arith)

text_length-hex_digits : (k n : ℕ) → text_length (hex_digits k n) ≡ k
unfolding hex_digits
text_length-hex_digits zero n = refl
text_length-hex_digits (suc k) n =
    text_length-join (hex_digits k (n / 16)) (hex_digit (n % 16))
    ∙ omega (arith, text_length-hex_digits k (n / 16), text_length-hex_digit (n % 16) (omega arith))

parse_uuid-digits : (t : String) (u : Uuid) → read_hex 0 0 t ≡ some (32, u) → parse_uuid t ≡ some u
unfolding parse_uuid
parse_uuid-digits t u h = rw (h, parse_uuid) refl

parsed_value :
    (t : String) (u : Uuid) → parse_uuid t ≡ some u → process_result_value (chars t) ≡ some (some u)
unfolding process_result_value
parsed_value t u h = rw (h, process_result_value) refl

-- What the column of a dialect holds.
abbrev pub IsStorable : Stored → Type 0
IsStorable (chars t) = text_length t ≡ 32
IsStorable _ = Unit

-- A UUID, a number below 16 ^ 32, that is bound in either dialect is read back as itself, and where it is
-- stored as a text, that text has the 32 characters of the column.
pub process_result_value-bind_uuid :
    (d : Dialect) (u : Uuid)
    → u < 16 ^ 32
    → (process_result_value (bind_uuid d u) ≡ some (some u)) × IsStorable (bind_uuid d u)
unfolding process_result_value bind_uuid hex
process_result_value-bind_uuid postgresql u h = (refl, tt)
process_result_value-bind_uuid other u h = (
  parsed_value (hex_digits 32 u) u (parse_uuid-digits (hex_digits 32 u) u (read_hex-digits 32 u h)),
  text_length-hex_digits 32 u,
)
