-- ===== src/DbTypes.antt =====
-- The column types of src/db_types.py: how a UUID is bound and read back in the two dialects. A text of a
-- UUID is read with its dashes; the prefix `urn:uuid:` and braces around it are not.
pub mod Hex
mod Tests
use Prim.Native.Nat.{◌/◌, ◌%◌}
use Prim.Native.Char.{code}
use Prim.Native.String
use omnisync.Base.{
  ℕ, zero, suc, ◌+◌, ◌-◌, ◌*◌, ◌^◌, ◌==◌, Bool, ◌&&◌, String, Option, none, some, leb, ltb,
  if◌then◌else◌, Uuid,
}
use omnisync.Github.Normalize.{join}

pub data Dialect : Type 0 where
  postgresql : Dialect
  other : Dialect

-- What the code binds: None, a UUID, or another value by its text.
pub data Value : Type 0 where
  missing : Value
  uuid : Uuid → Value
  text : String → Value

-- What the driver stores and gives back.
pub data Stored : Type 0 where
  null : Stored
  native : Uuid → Stored
  chars : String → Stored

-- A digit of `hex`, for a number below 16.
unfoldable pub hex_digit : ℕ → String
hex_digit n = elim (ltb n 10) [
  | Bool.true ↦
      if n == 0
      then "0"
      else if n == 1
      then "1"
      else if n == 2
      then "2"
      else if n == 3
      then "3"
      else if n == 4
      then "4"
      else if n == 5
      then "5"
      else if n == 6
      then "6"
      else if n == 7
      then "7"
      else if n == 8
      then "8"
      else "9"
  | Bool.false ↦
      if n == 10
      then "a"
      else if n == 11
      then "b"
      else if n == 12
      then "c"
      else if n == 13
      then "d"
      else if n == 14
      then "e"
      else "f"
]

-- The last digits of a number, so many.
unfoldable pub hex_digits : ℕ → ℕ → String
unfolding hex_digit
hex_digits zero n = ""
hex_digits (suc k) n = join (hex_digits k (n / 16)) (hex_digit (n % 16))

-- `UUID.hex`
unfoldable pub hex : Uuid → String
unfolding hex_digits
hex = hex_digits 32

-- `str` of a UUID
unfoldable pub uuid_text : Uuid → String
unfolding hex_digits
uuid_text u = join (hex_digits 8 (u / 16 ^ 24)) (
    join "-" (
      join (hex_digits 4 (u / 16 ^ 20)) (
        join "-" (
          join (hex_digits 4 (u / 16 ^ 16))
            (join "-" (join (hex_digits 4 (u / 16 ^ 12)) (join "-" (hex_digits 12 u))))))))

-- The value of a digit, in either case.
unfoldable pub nibble : ℕ → Option ℕ
nibble c =
    if leb 48 c && leb c 57
    then some (c - 48)
    else if leb 97 c && leb c 102
    then some (c - 87)
    else if leb 65 c && leb c 70
    then some (c - 55)
    else none

-- The value of the digits after those already read, and how many they are; a dash is left out.
unfoldable pub read_hex : ℕ → ℕ → String → Option (ℕ × ℕ)
unfolding nibble
read_hex count acc String.[] = some (count, acc)
read_hex count acc (String.◌∷◌ c s) =
    let skipped = read_hex count acc s in
    if code c == 45
    then skipped
    else elim (nibble (code c)) [ none ↦ none | some d ↦ read_hex (suc count) (acc * 16 + d) s ]

-- `uuid.UUID(text)`: none is the ValueError.
unfoldable pub parse_uuid : String → Option Uuid
unfolding read_hex
parse_uuid s = elim (read_hex 0 0 s) [
  | none ↦ none
  | some (count, n) ↦ if count == 32 then some n else none
]

unfoldable pub bind_uuid : Dialect → Uuid → Stored
unfolding hex
bind_uuid postgresql u = native u
bind_uuid other u = chars (hex u)

unfoldable pub process_bind_param : Dialect → Value → Option Stored
unfolding bind_uuid parse_uuid
process_bind_param d missing = some null
process_bind_param d (uuid u) = some (bind_uuid d u)
process_bind_param d (text t) = elim (parse_uuid t) [ none ↦ none | some u ↦ some (bind_uuid d u) ]

-- The outer none is the ValueError, the inner one None.
unfoldable pub process_result_value : Stored → Option (Option Uuid)
unfolding parse_uuid
process_result_value null = some none
process_result_value (native u) = some (some u)
process_result_value (chars t) = elim (parse_uuid t) [ none ↦ none | some u ↦ some (some u) ]
