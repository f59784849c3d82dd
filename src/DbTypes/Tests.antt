-- ===== src/DbTypes/Tests.antt =====
-- Concrete values of the column types.
use omnisync.Base.{◌≡◌, refl, none, some, arith}
use omnisync.DbTypes.{
  other, text, chars, parse_uuid, uuid_text, hex_digits, bind_uuid, process_bind_param,
  process_result_value,
}
use omnisync.DbTypes.Hex.{IsStorable, process_result_value-bind_uuid}

process_result_value-bind_uuid_example :
    (process_result_value (bind_uuid other 48879) ≡ some (some 48879))
    × IsStorable (bind_uuid other 48879)
process_result_value-bind_uuid_example = process_result_value-bind_uuid other 48879 (omega arith)

dashed : uuid_text 48879 ≡ "00000000-0000-0000-0000-00000000beef"
unfolding uuid_text
dashed = refl

bound_text :
    process_bind_param other (text "00000000-0000-0000-0000-00000000BEEF")
    ≡ some (chars (hex_digits 32 48879))
unfolding process_bind_param
bound_text = refl

refused : parse_uuid "beef" ≡ none
unfolding parse_uuid
refused = refl
