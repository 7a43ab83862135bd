-- ===== src/DebugPrint/Tests.antt =====
-- Enclave/src/taws_teep_debug_print.cpp: what is printed of concrete bytes.
use taws.Base.{◌≡◌, refl, none, some, [], ◌∷◌, arith}
use taws.Teep.{null_of, points_to, unexpected_error}
use taws.DebugPrint.{
  codes, PrintCalls, print_string, print_text_within_max, print_text_body, escape, c_string,
  print_hex_within_max, printable_hex_string, hex_of,
}
use taws.DebugPrint.Values.{decimal}
use taws.DebugPrint.Quoting.{read_bytes, print_hex-read}

abbrev calls : PrintCalls
calls = record {
  max_text_count = 16;
  max_byte_count = 32;
  max_cipher_suites_length = 2;
  behind = λ b. [];
  key = λ k. 1;
  tag = λ t. 18;
  algs_key_to_str = λ a. [];
  err_code_to_str = λ n. [];
}

print_hex-read_example :
    ((print_hex_within_max calls (points_to (171 ∷ 7 ∷ []))).0 ≡ none)
    × (read_bytes (print_hex_within_max calls (points_to (171 ∷ 7 ∷ []))).1 ≡ some (171 ∷ 7 ∷ []))
print_hex-read_example = print_hex-read calls (171 ∷ 7 ∷ []) refl (omega arith)

prints_digits : print_hex_within_max calls (points_to (171 ∷ 7 ∷ [])) ≡ (none, codes "h'ab07'")
unfolding print_hex_within_max printable_hex_string hex_of
prints_digits = refl

prints_text : print_string calls (points_to (codes "a\nb")) ≡ (none, codes "\"a\\nb\"")
unfolding print_string print_text_within_max print_text_body escape c_string
prints_text = refl

refuses_null : print_string calls (null_of 3) ≡ (some unexpected_error, [])
unfolding print_string
refuses_null = refl

prints_number : decimal 265 ≡ codes "265"
unfolding decimal
prints_number = refl
