-- ===== src/Lib.antt =====
-- TAWS is a TEEP Agent: an SGX enclave that installs Trusted Components (WebAssembly modules) which
-- a TAM sends as SUIT manifests, and runs them. The host program (App/src) posts what the enclave
-- answers to the TAM and hands the TAM's messages to the enclave, until the TAM has nothing to say.
-- In the enclave (Enclave/src) `ecall_process_message` verifies and decodes a message, answers it,
-- encodes and signs the answer. An Update makes libcsuit process each manifest; libcsuit calls back
-- into the SUIT callbacks, which keep what they are given in the table of the TC manager. The
-- WebAssembly runtime takes a module from this table.
--
-- TcTable, TcManager: Enclave/src/tc_manager.cpp. `Table` is `g_manifest_records` with its length,
--   with searches and the removal; then the operations on it. Each function takes the table and
--   returns it; a pointer to a record is its index.
-- SuitProcessor: Enclave/src/suit_processor_wrapper.cpp. The callbacks, and `Script`, a tree of the
--   callbacks that libcsuit may make.
-- Teep, Query, Update, Agent: Enclave/src/Enclave_process_message.cpp. The messages and
--   `create_error`; `process_query_request`; `process_update`; `ecall_process_message` with the
--   globals that it changes. A `goto error` is a value with its code and the state at the jump.
-- Wasm: Enclave/src/Enclave_wasm.cpp. The loaded module and `ecall_invoke_wasm`; the state counts
--   the objects of WAMR that are alive. `Code` is any relation of hashes and
--   instances that holds of what WAMR makes of the records' bytes; it is carried to what runs.
-- HttpClient, Session: App/src/teep_http_client.cpp and App/src/sgx_teep_session.cpp. A POST, and
--   the loop of a session over the rounds in which the TAM and the enclave answer.
-- Evidence, Cbor: Enclave/src/Enclave_generate_evidence.cpp and App/src/dcap_quote_ocalls.cpp. Both
--   kinds of evidence, with which QueryRequest is answered; a CBOR item is the list of QCBOR's calls
--   that build it, and also a tree.
-- KeyPair: Enclave/src/Enclave_generate_keypair.cpp. The Agent's key, its ownership of buffers, and
--   counts of the blocks that are alive and of the frees of what malloc did not return.
-- Enclave: the ecalls over all globals of the enclave, as a relation of the states they lead to.
-- DebugPrint: Enclave/src/taws_teep_debug_print.cpp. What is printed of a message, as bytes.
-- Logger: Enclave/src/taws_logger.cpp and App/src/taws_logger.cpp. A line in the enclave's buffer,
--   and the host's lines with their colors.
-- Attester: App/src/attester_api.cpp. What the host keeps of the enclave; the state counts the
--   enclaves that are alive.
-- Samples: concrete libraries and messages for the tests.
-- Base: names of the standard library, Boolean tests, lists by index, C buffers and words.
--
-- Each loop is structural recursion over the list or the count that bounds it in the code, so no
-- fuel is used but for the decimal digits of `n`, which get `n + 1` steps. A session has no bound in
-- the code: it runs over a list of rounds, and the theorem on its end speaks of lists in which it
-- ends. Of `remove_all` the count is the number of rounds.
-- libcsuit, libteep, QCBOR, t_cose, OpenSSL, WAMR, libcurl, SGX and malloc are parameters: records of
-- functions, or answers by the index of the call.
--
-- Not modelled: the internals of a COSE key, which libteep makes and frees; the Go front end, tests
-- and scripts; the calls of the loggers outside a session, and the debug output of the table.
pub mod Base
pub mod TcTable
pub mod TcManager
pub mod SuitProcessor
pub mod Teep
pub mod Evidence
pub mod Query
pub mod Update
pub mod KeyPair
pub mod Logger
pub mod Agent
pub mod Samples
pub mod Wasm
pub mod Enclave
pub mod DebugPrint
pub mod Cbor
pub mod HttpClient
pub mod Session
pub mod Attester
