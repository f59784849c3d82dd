-- ===== src/Pagination.antt =====
-- src/pagination.py: the page that a listing returns, and the cursor texts as an interface.
pub mod Unary
use omnisync.Base.{ℕ, ◌≡◌, ◌≢◌, Bool, String, Option, some, List, Uuid, Timestamp}

abbrev pub CursorKey : Type 0
CursorKey = Timestamp × Uuid

-- `encode_cursor` and `decode_cursor`; `none` is the exception on a text that is no cursor.
pub record CursorCodec : Type 0 where
  pub encode_cursor : CursorKey → String
  pub decode_cursor : String → Option CursorKey
  pub decode-encode : (k : CursorKey) → decode_cursor (encode_cursor k) ≡ some k
  pub encode-ne-empty : (k : CursorKey) → encode_cursor k ≢ ""

pub record PaginatedResponse (A : Type 0) : Type 0 where
  pub items : List A
  pub has_more : Bool
  pub next_cursor : Option String
  pub limit : ℕ
