-- ===== src/DebugPrint.antt =====
-- Enclave/src/taws_teep_debug_print.cpp: the debug printer. What it prints is kept, with the error
-- at which it stops; `printf` does not fail.
pub mod Values
pub mod Messages
pub mod Quoting
mod Tests
use Prim.Native.Char.{code}
use Prim.Native.String.{String}
use taws.Base.{
  ℕ, zero, suc, ◌+◌, ◌*◌, ◌/◌, ◌%◌, ℤ, Bool, true, false, not, ◌&&◌, Option, none, some, List, [],
  ◌∷◌, ◌++◌, ltb, leb, ◌==◌, if◌then◌else◌, length, take, replicate, Bytes,
}
use taws.Teep.{RawBuf, null_of, points_to, TeepErr, unexpected_error}

abbrev pub codes : String → Bytes
codes String.[] = []
codes (String.◌∷◌ c s) = code c ∷ codes s

-- The options whose keys are printed: TEEP_OPTIONS_KEY_..., in libteep.
pub data OptionKey : Type 0 where
  token_key attestation_payload_format_key attestation_payload_key suit_reports_key : OptionKey
  unneeded_tc_list_key supported_freshness_mechanisms_key challenge_key versions_key : OptionKey
  selected_version_key tc_list_key requested_tc_list_key component_id_key : OptionKey
  tc_manifest_sequence_number_key have_binary_key manifest_list_key err_code_key : OptionKey
  err_msg_key : OptionKey

-- CBOR_TAG_..., in QCBOR.
pub data CoseTag : Type 0 where
  cose_sign1 cose_sign cose_mac0 cose_mac cose_encrypt0 cose_encrypt : CoseTag

-- An error, and what was printed before it.
abbrev pub Printed : Type 0
Printed = Option TeepErr × Bytes

-- `printf`
abbrev pub prints : Bytes → Printed
prints b = (none, b)

abbrev pub says : String → Printed
says s = prints (codes s)

abbrev pub stops : TeepErr → Printed
stops code = (some code, [])

-- One after the other; nothing follows an error.
infixl 5 ◌>>◌
abbrev pub ◌>>◌ : Printed → Printed → Printed
(none, first) >> (result, rest) = (result, first ++ rest)
(some code, first) >> rest = (some code, first)

-- libteep's constants, and what it prints by itself; `behind` is what lies in memory behind a buffer.
pub record PrintCalls : Type 0 where
  pub max_text_count : ℕ  -- TEEP_MAX_PRINT_TEXT_COUNT
  pub max_byte_count : ℕ  -- TEEP_MAX_PRINT_BYTE_COUNT
  pub max_cipher_suites_length : ℕ  -- TEEP_MAX_CIPHER_SUITES_LENGTH
  pub behind : Bytes → Bytes
  pub key : OptionKey → ℕ
  pub tag : CoseTag → ℕ
  pub algs_key_to_str : ℤ → Bytes  -- teep_cose_algs_key_to_str
  pub err_code_to_str : ℕ → Bytes  -- teep_err_code_to_str

-- TAWS_MAX_PRINT_TEXT_COUNT
abbrev pub max_print_text_count : ℕ
max_print_text_count = 40

-- `taws_is_printable_char`
pub is_printable_char : ℕ → Bool
is_printable_char c = leb b' ' c && leb c b'~'

-- `taws_printable_hex_string`
unfoldable pub printable_hex_string : Bytes → Bool
unfolding is_printable_char
printable_hex_string [] = true
printable_hex_string (c ∷ s) = is_printable_char c && printable_hex_string s

-- The loop that hides line feeds.
unfoldable pub escape : Bytes → Bytes
escape [] = []
escape (c ∷ s) = let rest = escape s in if c == b'\n' then b'\\' ∷ b'n' ∷ rest else c ∷ rest

-- `%s` ends at a NUL.
unfoldable pub c_string : Bytes → Bytes
c_string [] = []
c_string (c ∷ s) = let rest = c_string s in if c == 0 then [] else c ∷ rest

-- `taws_print_text_body`
unfoldable pub print_text_body : PrintCalls → RawBuf → ℕ → Printed
print_text_body e (null_of n) size = if ltb 0 size then stops unexpected_error else prints []
print_text_body e (points_to b) size =
    if ltb e.max_byte_count size
    then stops unexpected_error
    else prints (c_string (escape (take size (b ++ e.behind b))))

abbrev pub raw_len : RawBuf → ℕ
raw_len (null_of n) = n
raw_len (points_to b) = length b

abbrev pub raw_null : RawBuf → Bool
raw_null (null_of n) = true
raw_null (points_to b) = false

abbrev pub quoted_by : String → Printed → Printed
quoted_by q p = says q >> p >> says q

abbrev pub dots_if : Bool → Printed
dots_if true = says ".."
dots_if false = prints []

-- `taws_print_text_within_max`
unfoldable pub print_text_within_max : PrintCalls → RawBuf → Printed
print_text_within_max e text =
    if raw_null text && ltb 0 (raw_len text)
    then stops unexpected_error
    else quoted_by "\"" (
        print_text_body e text
          (if leb (raw_len text) max_print_text_count then raw_len text else e.max_text_count))
      >> dots_if (ltb max_print_text_count (raw_len text))

-- `taws_print_string`; the pointer to the buffer is not NULL.
unfoldable pub print_string : PrintCalls → RawBuf → Printed
print_string e string =
    if raw_null string && ltb 0 (raw_len string)
    then stops unexpected_error
    else print_text_within_max e string

-- `%02x`
abbrev pub hex_digit : ℕ → ℕ
hex_digit n = if ltb n 10 then n + b'0' else n + 87

unfoldable pub hex_of : Bytes → Bytes
hex_of [] = []
hex_of (c ∷ s) = hex_digit (c / 16) ∷ hex_digit (c % 16) ∷ hex_of s

abbrev pub print_size : PrintCalls → Bytes → ℕ
print_size e b = if leb (length b) e.max_byte_count then length b else e.max_byte_count

hex_bytes : PrintCalls → Bytes → Printed
hex_bytes e b =
    if printable_hex_string (take (print_size e b) b)
    then quoted_by "'" (print_text_body e (points_to b) (print_size e b))
    else says "h'" >> prints (hex_of (take (print_size e b) b)) >> says "'"

print_bytes : PrintCalls → RawBuf → Printed
unfolding hex_bytes
print_bytes e (null_of n) = stops unexpected_error
print_bytes e (points_to b) = hex_bytes e b >> dots_if (ltb e.max_byte_count (length b))

-- `taws_print_hex_within_max`
unfoldable pub print_hex_within_max : PrintCalls → RawBuf → Printed
unfolding print_bytes
print_hex_within_max e array = if raw_len array == 0 then says "''" else print_bytes e array
