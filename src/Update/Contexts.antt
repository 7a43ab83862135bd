-- ===== src/Update/Contexts.antt =====
-- Enclave/src/Enclave_process_message.cpp: `process_update` with the two contexts that it makes for
-- each manifest. Next to its state there are its three local variables and the number of contexts
-- that are alive.
use taws.Base.{
  ℕ, ◌+◌, ◌-◌, Bool, true, false, not, ◌||◌, Option, none, some, List, [], ◌∷◌, if◌then◌else◌,
  length, ltb, Buf,
}
use taws.SuitProcessor.{SuitState}
use taws.Teep.{Libteep, permanent_error, temporary_error, Update, Message}
use taws.Update.{
  ManifestCalls, UpdateCalls, UpdateStep, goto_error, goes_on, with_processor, token_accepted,
  update_answer,
}

-- `reporting_engine` and `processor_context` are not NULL, `processor_initialized`, and how many
-- of each are alive.
pub record Contexts : Type 0 where
  pub reporting_engine : Bool
  pub processor_context : Bool
  pub processor_initialized : Bool
  pub live_engines : ℕ
  pub live_contexts : ℕ
  pub live_processors : ℕ

abbrev pub less : Bool → ℕ → ℕ
less true n = n - 1
less false n = n

-- The releases at the end of a round, and behind the label `error`.
unfoldable pub contexts_freed : Contexts → Contexts
contexts_freed r = record {
  reporting_engine = false;
  processor_context = false;
  processor_initialized = false;
  live_engines = less r.reporting_engine r.live_engines;
  live_contexts = less r.processor_context r.live_contexts;
  live_processors = less r.processor_initialized r.live_processors;
}

abbrev pub with_engine : Contexts → Contexts
with_engine r = record r { reporting_engine = true; live_engines = r.live_engines + 1 }

abbrev pub with_context : Contexts → Contexts
with_context r = record r { processor_context = true; live_contexts = r.live_contexts + 1 }

abbrev pub with_init : Contexts → Contexts
with_init r = record r { processor_initialized = true; live_processors = r.live_processors + 1 }

unfoldable pub round_end : UpdateStep → Contexts → UpdateStep × Contexts
round_end (goto_error code report s) r = (goto_error code report s, r)
round_end (goes_on s) r = (goes_on s, contexts_freed r)

-- From `suit_processor_init` on.
unfoldable pub processor_made :
    UpdateCalls → ManifestCalls → Buf → Option ℕ → SuitState → Contexts → UpdateStep × Contexts
unfolding round_end
processor_made u m manifest none s r = (goto_error temporary_error none s, r)
processor_made u m manifest (some capacity) s r =
    round_end (with_processor u m manifest (some capacity) s) (with_init r)

-- One round of the loop.
unfoldable pub manifest_contexts :
    UpdateCalls → ManifestCalls → Buf → SuitState → Contexts → UpdateStep × Contexts
unfolding processor_made
manifest_contexts u m manifest s r =
    if not m.calloc_reporting_engine
    then (goto_error temporary_error none s, r)
    else if not m.calloc_processor_context
    then (goto_error temporary_error none s, with_engine r)
    else if not m.set_sender_key
    then (goto_error temporary_error none s, with_context (with_engine r))
    else if not m.report_init_engine
    then (goto_error temporary_error none s, with_context (with_engine r))
    else if not m.report_start_encoding
    then (goto_error temporary_error none s, with_context (with_engine r))
    else processor_made u m manifest m.processor_init s (with_context (with_engine r))

unfoldable pub next_round :
    UpdateStep × Contexts → (SuitState → Contexts → UpdateStep × Contexts) → UpdateStep × Contexts
next_round (goto_error code report s, r) rest = (goto_error code report s, r)
next_round (goes_on s, r) rest = rest s r

unfoldable pub manifests_contexts :
    UpdateCalls → ℕ → List Buf → SuitState → Contexts → UpdateStep × Contexts
unfolding next_round
manifests_contexts u i [] s r = (goes_on s, r)
manifests_contexts u i (manifest ∷ manifests) s r =
    next_round (manifest_contexts u (u.manifest_calls i) manifest s r)
      (manifests_contexts u (ℕ.suc i) manifests)

unfoldable pub steps_contexts :
    Libteep → UpdateCalls → Update → SuitState → Contexts → UpdateStep × Contexts
steps_contexts l u up s r =
    if not (token_accepted up)
    then (goto_error permanent_error none s, r)
    else if ltb (length up.manifest_list) 1 || ltb l.max_array_length (length up.manifest_list)
    then (goto_error permanent_error none s, r)
    else manifests_contexts u 0 up.manifest_list s r

unfoldable pub answer_contexts :
    Libteep → Update → UpdateStep × Contexts → Message × SuitState × Contexts
answer_contexts l up (step, r) =
    let (msg, s) = update_answer l up step in (msg, s, contexts_freed r)

-- The values of the local variables where they are declared.
abbrev pub none_made : ℕ → ℕ → ℕ → Contexts
none_made engines contexts processors = record {
  reporting_engine = false;
  processor_context = false;
  processor_initialized = false;
  live_engines = engines;
  live_contexts = contexts;
  live_processors = processors;
}

-- `process_update`
unfoldable pub process_update_contexts :
    Libteep → UpdateCalls → Update → SuitState → ℕ → ℕ → ℕ → Message × SuitState × Contexts
unfolding answer_contexts
process_update_contexts l u up s engines contexts processors =
    answer_contexts l up (steps_contexts l u up s (none_made engines contexts processors))
