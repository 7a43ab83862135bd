-- ===== src/DebugPrint/Values.antt =====
-- Enclave/src/taws_teep_debug_print.cpp: the options and the values in a message.
use Prim.Native.String.{String}
use taws.Base.{
  ℕ, zero, suc, ◌+◌, ◌/◌, ◌%◌, ℤ, Bool, true, false, Option, none, some, List, [], ◌∷◌, map, ltb,
  ◌==◌, if◌then◌else◌, replicate, take, u32, Bytes,
}
use taws.Teep.{RawBuf, Mechanism}
use taws.DebugPrint.{
  codes, OptionKey, token_key, attestation_payload_format_key, attestation_payload_key,
  suit_reports_key, unneeded_tc_list_key, cose_sign1, cose_sign, cose_mac0, cose_mac, cose_encrypt0,
  cose_encrypt, Printed, prints, says, ◌>>◌, PrintCalls, print_string, print_hex_within_max,
}

-- `%u` and `%d`: the decimal digits; there are at most `n + 1`.
digits : ℕ → ℕ → Bytes → Bytes
digits zero n acc = acc
digits (suc fuel) n acc = elim (ltb n 10) [
  | true ↦ (n + b'0') ∷ acc
  | false ↦ digits fuel (n / 10) ((n % 10 + b'0') ∷ acc)
]

unfoldable pub decimal : ℕ → Bytes
unfolding digits
decimal n = digits (suc n) n []

abbrev pub decimal_int : ℤ → Bytes
decimal_int (ℤ.pos n) = decimal n
decimal_int (ℤ.negsuc n) = b'-' ∷ decimal (suc n)

abbrev pub number : ℕ → Printed
number n = prints (decimal n)

-- `%*s` of an empty string.
abbrev pub spaces : ℕ → Printed
spaces n = prints (replicate n b' ')

-- An indented name of an option, and its key.
abbrev pub keyed : PrintCalls → ℕ → String → OptionKey → String → Printed
keyed e indent name key rest = spaces indent >> says name >> number (e.key key) >> says rest

-- `taws_print_option_separator`, in front of each option that is there.
unfoldable pub print_options : Bool → List (Option Printed) → Printed
print_options printed [] = prints []
print_options printed (none ∷ options) = print_options printed options
print_options false (some p ∷ options) = p >> print_options true options
print_options true (some p ∷ options) = says ",\n" >> p >> print_options true options

-- The items of a list with a separator between them.
unfoldable pub between : String → List Printed → Printed
between separator [] = prints []
between separator (p ∷ []) = p
between separator (p ∷ q ∷ ps) = p >> says separator >> between separator (q ∷ ps)

-- Items on lines of their own, with a comma behind all but the last.
unfoldable pub on_lines : List Printed → Printed
on_lines [] = prints []
on_lines (p ∷ []) = p >> says "\n"
on_lines (p ∷ q ∷ ps) = p >> says ",\n" >> on_lines (q ∷ ps)

-- One after the other.
unfoldable pub in_turn : List Printed → Printed
in_turn [] = prints []
in_turn (p ∷ ps) = p >> in_turn ps

-- `taws_print_option_token`
unfoldable pub print_option_token : PrintCalls → RawBuf → ℕ → Bool → Printed
print_option_token e token indent print_key =
    (if print_key
      then keyed e indent "/ token / " token_key " : "
      else spaces indent >> says "/ token : / ")
    >> print_hex_within_max e token

-- `taws_print_option_attestation_payload_format`
unfoldable pub print_option_attestation_payload_format : PrintCalls → RawBuf → ℕ → Printed
print_option_attestation_payload_format e format indent =
    keyed e indent "/ attestation-payload-format / " attestation_payload_format_key " : "
    >> print_string e format

-- `taws_print_option_attestation_payload`
unfoldable pub print_option_attestation_payload : PrintCalls → RawBuf → ℕ → Printed
print_option_attestation_payload e payload indent =
    keyed e indent "/ attestation-payload / " attestation_payload_key " : "
    >> print_hex_within_max e payload

-- `taws_print_component_id`; the pointer to the id is not NULL.
abbrev pub print_component_id : PrintCalls → RawBuf → Printed
print_component_id e component_id = print_hex_within_max e component_id

abbrev bracketed : ℕ → ℕ → (RawBuf → Printed) → List RawBuf → Printed
bracketed indent delta print items =
    between ",\n" (map (λ b. spaces (u32 (indent + delta)) >> print b) items)
    >> says "\n"
    >> spaces indent
    >> says "]"

-- `taws_print_option_suit_reports`
unfoldable pub print_option_suit_reports : PrintCalls → List RawBuf → ℕ → ℕ → Printed
print_option_suit_reports e suit_reports indent delta =
    keyed e indent "/ suit-reports / " suit_reports_key " : [\n"
    >> bracketed indent delta (print_hex_within_max e) suit_reports

-- `taws_print_option_unneeded_manifest_list`
unfoldable pub print_option_unneeded_manifest_list : PrintCalls → List RawBuf → ℕ → ℕ → Printed
print_option_unneeded_manifest_list e component_ids indent delta =
    keyed e indent "/ unneeded-manifest-list / " unneeded_tc_list_key " : [\n"
    >> bracketed indent delta (print_component_id e) component_ids

-- `taws_cose_mechanism_key_to_str`
unfoldable pub cose_mechanism_key_to_str : PrintCalls → ℕ → Option Bytes
cose_mechanism_key_to_str e key =
    if key == e.tag cose_sign1
    then some (codes "COSE_Sign1")
    else if key == e.tag cose_sign
    then some (codes "COSE_Sign")
    else if key == e.tag cose_mac0
    then some (codes "COSE_Mac0")
    else if key == e.tag cose_mac
    then some (codes "COSE_Mac")
    else if key == e.tag cose_encrypt0
    then some (codes "COSE_Encrypt0")
    else if key == e.tag cose_encrypt
    then some (codes "COSE_Encrypt")
    else none

-- `teep_suit_cose_profile_t`
pub record SuitCoseProfile : Type 0 where
  pub hash : ℤ
  pub authentication : ℤ
  pub key_exchange : ℤ
  pub encryption : ℤ

abbrev algorithm_shown : PrintCalls → ℤ → Printed
algorithm_shown e a = prints (decimal_int a) >> says " / " >> prints (e.algs_key_to_str a)

-- `taws_print_suit_cose_profile`
unfoldable pub print_suit_cose_profile : PrintCalls → SuitCoseProfile → Printed
print_suit_cose_profile e profile =
    says "[ "
    >> algorithm_shown e profile.hash
    >> says " /, "
    >> algorithm_shown e profile.authentication
    >> says " /, "
    >> algorithm_shown e profile.key_exchange
    >> says " /, "
    >> algorithm_shown e profile.encryption
    >> says " / ]"

abbrev mechanism_shown : PrintCalls → Mechanism → Bytes → Printed
mechanism_shown e m name =
    says "[ / mechanism: / "
    >> number m.cose_tag
    >> says " / ("
    >> prints name
    >> says "), / algorithm_id: / "
    >> prints (decimal_int m.algorithm_id)
    >> says " / ("
    >> prints (e.algs_key_to_str m.algorithm_id)
    >> says ") / ]"

-- The loop over the mechanisms: it ends at the first without a name.
abbrev mechanism_then : PrintCalls → Bool → Mechanism → Option Bytes → Printed → Printed
mechanism_then e printed m none rest = prints []
mechanism_then e false m (some name) rest = mechanism_shown e m name >> rest
mechanism_then e true m (some name) rest = says ", " >> mechanism_shown e m name >> rest

unfoldable pub print_mechanisms : PrintCalls → Bool → List Mechanism → Printed
print_mechanisms e printed [] = prints []
print_mechanisms e printed (m ∷ ms) =
    mechanism_then e printed m (cose_mechanism_key_to_str e m.cose_tag) (print_mechanisms e true ms)

-- `taws_print_cipher_suite`, of the array of mechanisms.
unfoldable pub print_cipher_suite : PrintCalls → List Mechanism → Printed
print_cipher_suite e mechanisms =
    says "[" >> print_mechanisms e false (take e.max_cipher_suites_length mechanisms) >> says "]"

-- `taws_print_data_item_requested`
unfoldable pub print_data_item_requested : Bool → Bool → Printed
print_data_item_requested attestation trusted_components =
    (if attestation then says "\"attestation\"" else prints [])
    >> (if trusted_components
        then (if attestation then says " | " else prints []) >> says "\"trusted-components\""
        else prints [])
