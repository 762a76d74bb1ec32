-- ===== src/Charset.antt =====
-- src/charset.cpp and charset.h: the wrapper of the encoder of the Rust engine, which is the parameter
-- `encode`: `none` is its null result. The buffer that it returns is freed on each way out.
pub mod Latin
use skey.Base.{
  ℕ, ◌+◌, ◌/◌, ◌%◌, Bool, true, false, Option, none, some, List, [], ◌∷◌, ◌++◌, leb, if◌then◌else◌,
  Bytes, is_empty, c_str,
}

pub data Charset : Type 0 where
  unicode tcvn3 vni_windows win_cp1258 viqr vps viscii bkhcm1 vietware_f isc bkhcm2 vietware_x
        vni_mac unicode_decomposed :
      Charset

-- The numbers of the enumeration.
pub charset_id : Charset → ℕ
charset_id unicode = 0
charset_id tcvn3 = 1
charset_id vni_windows = 2
charset_id win_cp1258 = 3
charset_id viqr = 4
charset_id vps = 5
charset_id viscii = 6
charset_id bkhcm1 = 7
charset_id vietware_f = 8
charset_id isc = 9
charset_id bkhcm2 = 10
charset_id vietware_x = 11
charset_id vni_mac = 12
charset_id unicode_decomposed = 13

-- The bits that the source sets with `|` are clear in the other operand.
pub append_byte : Bytes → ℕ → Bytes
append_byte result b =
    if leb b 127 then result ++ b ∷ [] else result ++ (192 + b / 64) ∷ ((128 + b % 64) ∷ [])

pub append_bytes : Bytes → Bytes → Bytes
append_bytes result [] = result
append_bytes result (b ∷ raw) = append_bytes (append_byte result b) raw

abbrev pub is_unicode : Charset → Bool
is_unicode unicode = true
is_unicode _ = false

abbrev pub is_decomposed : Charset → Bool
is_decomposed unicode_decomposed = true
is_decomposed _ = false

pub convert_charset : (Bytes → ℕ → Option Bytes) → Bytes → Charset → Bytes
convert_charset encode utf8 cs =
    if is_unicode cs
    then utf8
    else if is_empty utf8
    then utf8
    else elim (encode (c_str utf8) (charset_id cs)) [
      | none ↦ utf8
      | some raw ↦ if is_decomposed cs then raw else append_bytes [] raw
    ]
