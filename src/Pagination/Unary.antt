-- ===== src/Pagination/Unary.antt =====
-- An instance of the cursor interface, to run the listings on: a key as two runs of one letter with
-- another letter between them.
use Prim.Native.Char.{code}
use omnisync.Base.{
  ℕ, zero, suc, ◌≡◌, ◌≢◌, refl, ap, String, Option, none, some, ◌==◌, if◌then◌else◌,
}
use omnisync.Pagination.{CursorCodec, CursorKey}

abbrev pub unary : ℕ → String → String
unary zero rest = rest
unary (suc n) rest = String.◌∷◌ "a" (unary n rest)

abbrev pub encode_key : CursorKey → String
encode_key (t, i) = unary t (String.◌∷◌ "b" (unary i ""))

abbrev pub add_first : Option CursorKey → Option CursorKey
add_first none = none
add_first (some (t, i)) = some (suc t, i)

abbrev pub count_unary : String → ℕ
count_unary String.[] = 0
count_unary (String.◌∷◌ c s) = suc (count_unary s)

abbrev pub decode_key : String → Option CursorKey
decode_key String.[] = none
decode_key (String.◌∷◌ c s) =
    let rest = decode_key s in if code c == b'a' then add_first rest else some (0, count_unary s)

count_unary-unary : (n : ℕ) → count_unary (unary n "") ≡ n
count_unary-unary zero = refl
count_unary-unary (suc n) = ap suc (count_unary-unary n)

pub decode_key-encode_key : (t i : ℕ) → decode_key (encode_key (t, i)) ≡ some (t, i)
decode_key-encode_key zero i = ap (λ n. some (0, n)) (count_unary-unary i)
decode_key-encode_key (suc t) i = ap add_first (decode_key-encode_key t i)

pub encode_key-ne-empty : (t i : ℕ) → encode_key (t, i) ≢ ""
encode_key-ne-empty zero i h = cc
encode_key-ne-empty (suc t) i h = cc

abbrev pub unary_codec : CursorCodec
unary_codec = record {
  encode_cursor = encode_key;
  decode_cursor = decode_key;
  decode-encode = λ k. decode_key-encode_key k.0 k.1;
  encode-ne-empty = λ k. encode_key-ne-empty k.0 k.1;
}
