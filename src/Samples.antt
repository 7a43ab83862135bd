-- ===== src/Samples.antt =====
-- Concrete libraries, messages and states, on which the tests of the TEEP Agent run.
use taws.Base.{
  zero, suc, ℤ, Bool, true, false, ◌==◌, Option, none, some, [], ◌∷◌, Bytes, replicate, length, ok,
}
use taws.TcManager.{Csuit, initial_table, StoreArgs, suit_store, Mallocs}
use taws.SuitProcessor.{
  suit_success, SuitState, DecodeDigest, sha256, Script, finished, calls_store,
}
use taws.Teep.{Libteep, CipherSuite, QueryRequest, points_to, Update, other_message}
use taws.Cbor.{Qcbor}
use taws.Evidence.{TeepKey, EvidenceCalls, sgx_success}
use taws.Query.{QueryCalls}
use taws.Update.{ManifestCalls, UpdateCalls}
use taws.KeyPair.{KeyCalls}
use taws.Wasm.{WamrCalls}
use taws.Agent.{
  Agent, waiting_query_request, waiting_update_or_query_request, AgentCalls, RecvMessage,
  received_query_request, received_update,
}

abbrev pub csuit : Csuit
csuit = record {
  max_name_length = 8;
  decode_component_identifier = λ b. some (b ∷ []);
  component_identifier_to_filename = λ ids n old. (true, b'a' ∷ []);
  generate_sha256 = λ b old. replicate 32 9;
}

abbrev same_tag : CipherSuite → CipherSuite → Bool
same_tag a b = a.first.cose_tag == b.first.cose_tag

abbrev pub libteep : Libteep
libteep = record {
  cose_sign1_tag = 18;
  algorithm_esp256 = ℤ.negsuc 8;
  invalid16_tag = 65535;
  cose_none = ℤ.pos 0;
  max_array_length = 16;
  cipher_suite_is_same = same_tag;
}

abbrev pub qcbor : Qcbor
qcbor = record {
  finish = λ capacity ops. some (1 ∷ 2 ∷ []);
  finish_get_size = λ ops. some 2;
  slice_tail = λ capacity item. some 90;
}

abbrev pub agent_key : TeepKey
agent_key = record { public_key = some (4 ∷ replicate 64 3); kid = 1 ∷ [] }

abbrev pub evidence_calls : EvidenceCalls
evidence_calls = record {
  public_key_length = 65;
  qcbor = qcbor;
  sha384 = record {
    init = sgx_success;
    update = λ i. sgx_success;
    get_hash = sgx_success;
    close = sgx_success;
    digest = λ b. replicate 48 (length b);
  };
  bridge = λ i. sgx_success;
  quoting = record {
    qe_get_target_info = some (1 ∷ []);
    qe_get_quote_size = some 3;
    qe_get_quote = λ report size. some (replicate size 2);
  };
  create_report = λ target data_. (sgx_success, data_);
  malloc_quote = true;
  malloc_raw_report_data = true;
  cose = record {
    attester_private_key = 5 ∷ [];
    attester_public_key = 6 ∷ [];
    key_init = λ private public. ok (7 ∷ private);
    encode_parameters = true;
    encode_signature = true;
    finish_sign1 = λ key capacity ops. some (8 ∷ 8 ∷ []);
  };
}

abbrev pub query_calls : QueryCalls
query_calls = record {
  sgx_evidence = true;
  evidence = evidence_calls;
  agent_key = some agent_key;
  malloc_tc_list = true;
  malloc_tc_info = λ i. true;
  tc_list_capacity = 16;
  work_buf_len = 100;
}

abbrev pub token : Bytes
token = replicate 8 5

abbrev pub query_request : QueryRequest
query_request = record {
  contains_token = true;
  token = some token;
  versions = some (1 ∷ 0 ∷ []);
  contains_cipher_suites = false;
  cipher_suites = [];
  attestation = true;
  trusted_components = true;
  challenge = some (points_to (replicate 16 6));
}

abbrev decode_digest : DecodeDigest
decode_digest b = (suit_success, record { algorithm_id = sha256; bytes = replicate 32 9 })

abbrev pub enough : Mallocs
enough = record { digest_block = true; src_block = true }

abbrev pub stored_as : Bool → StoreArgs
stored_as is_manifest = record {
  operation = suit_store;
  manifest_digest = some (1 ∷ []);
  is_manifest_itself = is_manifest;
  manifest_sequence_number = 3;
  dst = some (b'a' ∷ []);
  src_buf = some (7 ∷ 7 ∷ []);
}

-- A manifest and its payload are stored, in this order.
abbrev pub install : Script
install =
    calls_store enough (stored_as true)
      λ first. calls_store enough (stored_as false) λ second. finished second

abbrev pub manifest_calls : ManifestCalls
manifest_calls = record {
  calloc_reporting_engine = true;
  calloc_processor_context = true;
  set_sender_key = true;
  report_init_engine = true;
  report_start_encoding = true;
  processor_init = some 100;
  set_recipient_key = true;
  add_recipient_key = true;
  add_manifest = λ envelope. true;
  script = λ envelope. install;
  manifest_digest = λ envelope. some (1 ∷ []);
}

abbrev pub update_calls : UpdateCalls
update_calls = record {
  csuit = csuit;
  decode_digest = decode_digest;
  work_buf_len = 100;
  manifest_calls = λ i. manifest_calls;
}

abbrev pub update : Update
update = record {
  contains_token = true;
  token = some token;
  manifest_list = some (4 ∷ 4 ∷ []) ∷ [];
}

abbrev pub tokenless : Update
tokenless = record update { contains_token = false }

abbrev pub idle : SuitState
idle = record { table = initial_table; suit_report = none }

abbrev pub waiting : Agent
waiting = record { status = waiting_query_request; key_ready = true; suit = idle; heap = 0 }

abbrev pub responded_to : Agent
responded_to = record waiting { status = waiting_update_or_query_request }

-- The first byte of a message tells its type.
abbrev decode_message : Bytes → Option RecvMessage
decode_message [] = none
decode_message (zero ∷ bs) = some (received_query_request query_request)
decode_message (suc n ∷ bs) = some (received_update update)

abbrev pub agent_calls : AgentCalls
agent_calls = record {
  libteep = libteep;
  csuit = csuit;
  qcbor = qcbor;
  query_calls = query_calls;
  update_calls = update_calls;
  verify_cose_sign1 = λ b. some b;
  verify_cose_sign = λ b. none;
  set_message_from_bytes = decode_message;
  send_message = other_message 0;
  encode_message = λ m. some (1 ∷ []);
  sign_cose_sign1 = λ b capacity. some (6 ∷ 6 ∷ b);
}

-- A request that asks for nothing.
abbrev pub plain_request : QueryRequest
plain_request = record query_request { attestation = false; trusted_components = false }

abbrev decode_plain : Bytes → Option RecvMessage
decode_plain [] = none
decode_plain (zero ∷ bs) = some (received_query_request plain_request)
decode_plain (suc n ∷ bs) = some (received_update update)

abbrev pub plain_calls : AgentCalls
plain_calls = record agent_calls { set_message_from_bytes = decode_plain }

abbrev pub wamr_calls : WamrCalls
wamr_calls = record {
  full_init = true;
  malloc_bin = true;
  load = λ bin n. some 1;
  instantiate = λ m. some 2;
  lookup_function = λ i name. some 3;
  create_exec_env = true;
  malloc_input = λ n. (64, true);
  malloc_output = λ n. (128, true);
  first_call = λ f input argv. some 4;
  second_call = λ f input argv. some (2, 8 ∷ 8 ∷ 0 ∷ 0 ∷ []);
}

abbrev pub key_calls : KeyCalls
key_calls = record {
  ctx_new = true;
  keygen_init = true;
  set_curve = true;
  keygen = true;
  get1_ec_key = some (replicate 32 1, 4 ∷ replicate 64 3);
  labels = record {
    kty = ℤ.pos 1;
    kty_ec2 = ℤ.pos 2;
    crv = ℤ.negsuc 0;
    crv_p256 = ℤ.pos 1;
    x = ℤ.negsuc 1;
    y = ℤ.negsuc 2;
  };
  qcbor = qcbor;
  cose_key_bytes = [];
  malloc_kid = true;
  generate_sha256 = λ b block. ok (replicate 32 9);
  teep_key_init = λ private public parts. (none, parts);
  teep_free_key = λ parts. parts;
  teep_key_init_public = none;
  built_in_private = replicate 32 2;
  built_in_public = 4 ∷ replicate 64 5;
  cose_sign1_tag = 18;
}
