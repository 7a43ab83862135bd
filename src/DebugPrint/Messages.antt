-- ===== src/DebugPrint/Messages.antt =====
-- Enclave/src/taws_teep_debug_print.cpp: the messages. An option behind its flag is an option.
use Prim.Native.String.{String}
use taws.Base.{
  ℕ, ◌+◌, ◌*◌, Bool, true, false, Option, none, some, List, [], ◌∷◌, map, if◌then◌else◌, u32,
}
use taws.Teep.{RawBuf, Mechanism, TeepErr}
use taws.DebugPrint.{
  supported_freshness_mechanisms_key, challenge_key, versions_key, selected_version_key,
  tc_list_key, requested_tc_list_key, component_id_key, tc_manifest_sequence_number_key,
  have_binary_key, manifest_list_key, err_code_key, err_msg_key, Printed, prints, says, stops, ◌>>◌,
  PrintCalls, print_string, print_hex_within_max,
}
use taws.DebugPrint.Values.{
  number, spaces, keyed, print_options, between, on_lines, in_turn, print_option_token,
  print_option_attestation_payload_format, print_option_attestation_payload, print_component_id,
  print_option_suit_reports, print_option_unneeded_manifest_list, SuitCoseProfile,
  print_suit_cose_profile, print_cipher_suite, print_data_item_requested,
}

-- What is printed of `teep_query_request_t`.
pub record QueryRequestFields : Type 0 where
  pub type_ : ℕ
  pub token : Option RawBuf
  pub supported_freshness_mechanisms : Option (List ℕ)
  pub challenge : Option RawBuf
  pub versions : Option (List ℕ)
  pub attestation_payload_format : Option RawBuf
  pub attestation_payload : Option RawBuf
  pub suit_reports : Option (List RawBuf)
  pub supported_teep_cipher_suites : List (List Mechanism)
  pub supported_suit_cose_profiles : List SuitCoseProfile
  pub data_item_requested : ℕ
  pub attestation : Bool
  pub trusted_components : Bool

-- `teep_requested_tc_t`
pub record RequestedTc : Type 0 where
  pub component_id : RawBuf
  pub tc_manifest_sequence_number : Option ℕ
  pub have_binary : Option Bool

-- What is printed of `teep_query_response_t`.
pub record QueryResponseFields : Type 0 where
  pub type_ : ℕ
  pub token : Option RawBuf
  pub selected_version : Option ℕ
  pub attestation_payload_format : Option RawBuf
  pub attestation_payload : Option RawBuf
  pub suit_reports : Option (List RawBuf)
  pub tc_list : Option (List RawBuf)
  pub requested_tc_list : Option (List RequestedTc)
  pub unneeded_manifest_list : Option (List RawBuf)
  pub ext_list : Option (List ℕ)

-- What is printed of `teep_update_t`.
pub record UpdateFields : Type 0 where
  pub type_ : ℕ
  pub token : Option RawBuf
  pub unneeded_manifest_list : Option (List RawBuf)
  pub manifest_list : Option (List RawBuf)
  pub attestation_payload_format : Option RawBuf
  pub attestation_payload : Option RawBuf
  pub err_code : Option ℕ
  pub err_msg : Option RawBuf

abbrev if_some {ℓ} : {A : Type ℓ} → (A → Printed) → Option A → Option Printed
if_some print none = none
if_some print (some a) = some (print a)

module _ (e : PrintCalls) (indent delta : ℕ) where
  -- The indent at a depth.
  abbrev depth : ℕ → ℕ
  depth k = u32 (indent + k * delta)

  abbrev line_start : ℕ → Printed
  line_start k = spaces (depth k)

  abbrev head_line : String → ℕ → String → Printed
  head_line name type_ options =
      spaces indent
      >> says name
      >> line_start 1
      >> says "/ type : / "
      >> number type_
      >> says ",\n"
      >> line_start 1
      >> says options

  abbrev request_options : QueryRequestFields → List (Option Printed)
  request_options q =
      if_some (λ t. print_option_token e t (depth 2) false) q.token
      ∷ if_some
          (λ ns.
            keyed e (depth 2) "/ supported-freshness-mechanisms / "
              supported_freshness_mechanisms_key " : [ "
            >> in_turn (map (λ n. number n >> says ", ") ns)
            >> says "]")
          q.supported_freshness_mechanisms
      ∷ if_some
          (λ c. keyed e (depth 2) "/ challenge / " challenge_key " :" >> print_hex_within_max e c)
          q.challenge
      ∷ if_some
          (λ vs.
            keyed e (depth 2) "/ versions / " versions_key " :  [ "
            >> between ", " (map number vs)
            >> says " ]")
          q.versions
      ∷ if_some (λ f. print_option_attestation_payload_format e f (depth 2))
          q.attestation_payload_format
      ∷ if_some (λ p. print_option_attestation_payload e p (depth 2)) q.attestation_payload
      ∷ if_some (λ rs. print_option_suit_reports e rs (depth 2) delta) q.suit_reports
      ∷ []

  -- `taws_print_query_request`
  unfoldable pub print_query_request : QueryRequestFields → Printed
  print_query_request q =
      head_line "/ QueryRequest = / [\n" q.type_ "/ options : / {\n"
      >> print_options false (request_options q)
      >> says "\n"
      >> line_start 1
      >> says "},\n"
      >> line_start 1
      >> says "/ supported-teep-cipher-suites : / [\n"
      >> on_lines (map (λ c. line_start 2 >> print_cipher_suite e c) q.supported_teep_cipher_suites)
      >> line_start 1
      >> says "],\n"
      >> line_start 1
      >> says "/ supported-suit-cose-profiles : / [\n"
      >> on_lines
          (map (λ p. line_start 2 >> print_suit_cose_profile e p) q.supported_suit_cose_profiles)
      >> line_start 1
      >> says "],\n"
      >> line_start 1
      >> says "/ data-item-requested : / "
      >> number q.data_item_requested
      >> says " / ("
      >> print_data_item_requested q.attestation q.trusted_components
      >> says ") /\n"
      >> spaces indent
      >> says "]\n"

  -- The items of the list, each on a line that begins with the line feed.
  abbrev printed_tc_list : List RawBuf → Printed
  printed_tc_list items =
      between "," (map (λ b. says "\n" >> line_start 3 >> print_hex_within_max e b) items)

  abbrev requested_tc : RequestedTc → Printed
  requested_tc tc =
      line_start 3
      >> says "{\n"
      >> keyed e (depth 4) "/ component-id / " component_id_key " : "
      >> print_component_id e tc.component_id
      >> sequence_number tc.tc_manifest_sequence_number
      >> binary tc.have_binary
      >> says "\n"
      >> line_start 3
      >> says "}\n"
    where
      sequence_number : Option ℕ → Printed
      sequence_number none = prints []
      sequence_number (some n) =
          says ",\n"
          >> keyed e (depth 4) "/ tc-manifest-sequence-number / " tc_manifest_sequence_number_key
              " : "
          >> number n

      binary : Option Bool → Printed
      binary none = prints []
      binary (some b) =
          says ",\n"
          >> keyed e (depth 4) "/ have-binary / " have_binary_key " : "
          >> (if b then says "true" else says "false")

  abbrev response_options : QueryResponseFields → List (Option Printed)
  response_options r =
      if_some (λ t. print_option_token e t (depth 2) true) r.token
      ∷ if_some
          (λ n. keyed e (depth 2) "/ selected-version / " selected_version_key " : " >> number n)
          r.selected_version
      ∷ if_some (λ f. print_option_attestation_payload_format e f (depth 2))
          r.attestation_payload_format
      ∷ if_some (λ p. print_option_attestation_payload e p (depth 2)) r.attestation_payload
      ∷ if_some (λ rs. print_option_suit_reports e rs (depth 2) delta) r.suit_reports
      ∷ if_some
          (λ items.
            keyed e (depth 2) "/ tc-list / " tc_list_key " : ["
            >> printed_tc_list items
            >> says "\n"
            >> line_start 2
            >> says "]")
          r.tc_list
      ∷ if_some
          (λ tcs.
            keyed e (depth 2) "/ requested-tc-list / " requested_tc_list_key " : [\n"
            >> in_turn (map requested_tc tcs)
            >> line_start 2
            >> says "]")
          r.requested_tc_list
      ∷ if_some (λ ids. print_option_unneeded_manifest_list e ids (depth 2) delta)
          r.unneeded_manifest_list
      ∷ if_some
          (λ ns.
            line_start 2
            >> says "ext-list : ["
            >> in_turn (map (λ n. number n >> says " ") ns)
            >> says "]")
          r.ext_list
      ∷ []

  abbrev end_lines : Printed
  end_lines = says "\n" >> line_start 1 >> says "}\n" >> spaces indent >> says "]\n"

  -- `taws_print_query_response`
  unfoldable pub print_query_response : QueryResponseFields → Printed
  print_query_response r =
      head_line "/ QueryResponse = / [\n" r.type_ "/ options : / {\n"
      >> print_options false (response_options r)
      >> end_lines

  abbrev update_options : UpdateFields → List (Option Printed)
  update_options u =
      if_some (λ t. print_option_token e t (depth 2) true) u.token
      ∷ if_some (λ ids. print_option_unneeded_manifest_list e ids (depth 2) delta)
          u.unneeded_manifest_list
      ∷ if_some
          (λ ms.
            keyed e (depth 2) "/ manifest-list / " manifest_list_key " : [\n"
            >> on_lines (map (λ m. line_start 3 >> print_hex_within_max e m) ms)
            >> line_start 2
            >> says "]")
          u.manifest_list
      ∷ if_some (λ f. print_option_attestation_payload_format e f (depth 2))
          u.attestation_payload_format
      ∷ if_some (λ p. print_option_attestation_payload e p (depth 2)) u.attestation_payload
      ∷ if_some
          (λ n.
            keyed e (depth 2) "/ err-code / " err_code_key " : "
            >> number n
            >> says " / "
            >> prints (e.err_code_to_str n)
            >> says " /")
          u.err_code
      ∷ if_some (λ m. keyed e (depth 2) "/ err-msg / " err_msg_key " : " >> print_string e m)
          u.err_msg
      ∷ []

  -- `taws_print_update`
  unfoldable pub print_update : UpdateFields → Printed
  print_update u =
      head_line "/ Update = / [\n" u.type_ "/ options : {\n"
      >> print_options false (update_options u)
      >> end_lines

-- A message by its type: libteep prints a Success and an Error itself.
pub data DumpMessage : Type 0 where
  query_request : QueryRequestFields → DumpMessage
  query_response : QueryResponseFields → DumpMessage
  update : UpdateFields → DumpMessage
  by_libteep : Printed → DumpMessage
  unknown_type : DumpMessage

print_message : PrintCalls → ℕ → ℕ → TeepErr → DumpMessage → Printed
print_message e indent delta invalid_type (query_request q) = print_query_request e indent delta q
print_message e indent delta invalid_type (query_response r) = print_query_response e indent delta r
print_message e indent delta invalid_type (update u) = print_update e indent delta u
print_message e indent delta invalid_type (by_libteep p) = p
print_message e indent delta invalid_type unknown_type = stops invalid_type

-- A line feed follows, also behind an error.
abbrev with_line_feed : Printed → Printed
with_line_feed (result, out) = (result, ((none, out) >> says "\n").1)

-- `taws_teep_dump_message`; `invalid_type` is TEEP_ERR_INVALID_MESSAGE_TYPE.
unfoldable pub taws_teep_dump_message : PrintCalls → ℕ → ℕ → TeepErr → DumpMessage → Printed
unfolding print_message
taws_teep_dump_message e indent delta invalid_type message =
    with_line_feed (print_message e indent delta invalid_type message)
