-- ===== src/Storage/Encode.antt =====
-- `percent_encode_metric_key` of crates/pulseon-storage/src/metric_query.rs, and the lock file that
-- crates/pulseon-storage/src/lock.rs names by it.
pub mod Injective
use pulseon.Base.{
  ℕ, ◌+◌, ◌/◌, ◌%◌, Bool, true, false, ◌||◌, ◌&&◌, leb, ◌==◌, ltb, List, [], ◌∷◌, ◌++◌, Text, codes,
  if◌then◌else◌,
}

-- Letters, digits, and the four marks `.`, `_`, `~` and `-`.
abbrev pub is_unreserved : ℕ → Bool
is_unreserved byte =
    (leb 65 byte && leb byte 90)
    || (leb 97 byte && leb byte 122)
    || (leb 48 byte && leb byte 57)
    || byte == 46
    || byte == 95
    || byte == 126
    || byte == 45

-- One upper-case hexadecimal digit.
abbrev pub hex_digit : ℕ → ℕ
hex_digit n = if ltb n 10 then 48 + n else 55 + n

-- `%` and the byte's two digits.
abbrev pub escape_byte : ℕ → Text
escape_byte byte = 37 ∷ hex_digit (byte / 16) ∷ hex_digit (byte % 16) ∷ []

unfoldable pub percent_encode_metric_key : Text → Text
percent_encode_metric_key [] = []
percent_encode_metric_key (byte ∷ value) =
    (if is_unreserved byte then byte ∷ [] else escape_byte byte) ++ percent_encode_metric_key value

-- The lock file's name in the directory of run locks.
unfoldable pub lock_file_name : (run_id : Text) → Text
unfolding percent_encode_metric_key
lock_file_name run_id = percent_encode_metric_key run_id ++ codes ".lock"
