-- ===== src/Update/Resources.antt =====
-- Enclave/src/Enclave_process_message.cpp: what `process_update` makes for each manifest is released.
use taws.Base.{
  ℕ, ◌+◌, ◌-◌, ◌≡◌, refl, sym, ap, subst, ◌∙◌, Bool, true, false, not, ◌||◌, Option, none, some,
  List, [], ◌∷◌, if◌then◌else◌, length, ltb, Buf, arith,
}
use taws.SuitProcessor.{SuitState}
use taws.Teep.{Libteep, ErrCode, permanent_error, temporary_error, Update}
use taws.Update.{
  ManifestCalls, UpdateCalls, UpdateStep, goto_error, goes_on, with_processor, process_manifest,
  next_manifest, process_manifests, token_accepted, update_steps, update_answer, process_update,
}
use taws.Update.Contexts.{
  Contexts, less, contexts_freed, with_engine, with_context, with_init, round_end, processor_made,
  manifest_contexts, next_round, manifests_contexts, steps_contexts, answer_contexts, none_made,
  process_update_contexts,
}

-- What is alive besides what the local variables hold.
record Balanced (engines contexts processors : ℕ) (r : Contexts) : Type 0 where
  engine : less r.reporting_engine r.live_engines ≡ engines
  context : less r.processor_context r.live_contexts ≡ contexts
  processor : less r.processor_initialized r.live_processors ≡ processors

-- A step is that of the code without the contexts, and nothing is lost.
record Tracked (engines contexts processors : ℕ) (step : UpdateStep) (x : UpdateStep × Contexts)
    : Type 0 where
  same : x.0 ≡ step
  balanced : Balanced engines contexts processors x.1
  clean : (s : SuitState) → step ≡ goes_on s → x.1 ≡ none_made engines contexts processors

if-Tracked :
    (a b c : ℕ) (t : Bool) (step step' : UpdateStep) (x x' : UpdateStep × Contexts)
    → Tracked a b c step x
    → Tracked a b c step' x'
    → Tracked a b c (if t then step else step') (if t then x else x')
if-Tracked a b c true step step' x x' v v' = v
if-Tracked a b c false step step' x x' v v' = v'

error-Tracked :
    (a b c : ℕ) (code : ErrCode) (report : Buf) (s : SuitState) (r : Contexts)
    → Balanced a b c r
    → Tracked a b c (goto_error code report s) (goto_error code report s, r)
error-Tracked a b c code report s r v = record { same = refl; balanced = v; clean = λ s' h. cc h }

back : (n : ℕ) → n + 1 - 1 ≡ n
back n = omega arith

module _ (a b c : ℕ) where
  abbrev start : Contexts
  start = none_made a b c

  start-Balanced : Balanced a b c start
  start-Balanced = record { engine = refl; context = refl; processor = refl }

  engine-Balanced : Balanced a b c (with_engine start)
  engine-Balanced = record { engine = back a; context = refl; processor = refl }

  context-Balanced : Balanced a b c (with_context (with_engine start))
  context-Balanced = record { engine = back a; context = back b; processor = refl }

  all_made : Contexts
  all_made = with_init (with_context (with_engine start))

  all_freed : contexts_freed all_made ≡ start
  unfolding all_made contexts_freed
  all_freed =
      ap (λ n. none_made n (b + 1 - 1) (c + 1 - 1)) (back a)
      ∙ ap (λ n. none_made a n (c + 1 - 1)) (back b)
      ∙ ap (none_made a b) (back c)

  end-Tracked : (step : UpdateStep) → Tracked a b c step (round_end step all_made)
  unfolding round_end all_made
  end-Tracked (goto_error code report s) =
      error-Tracked a b c code report s all_made
        (record { engine = back a; context = back b; processor = back c })
  end-Tracked (goes_on s) = record {
    same = refl;
    balanced = subst (Balanced a b c) (sym all_freed) start-Balanced;
    clean = λ s' h. all_freed;
  }

  module _ (u : UpdateCalls) where
    made-Tracked :
        (m : ManifestCalls) (manifest : Buf) (o : Option ℕ) (s : SuitState)
        → Tracked a b c
            (with_processor u m manifest o s)
            (processor_made u m manifest o s (with_context (with_engine start)))
    unfolding with_processor processor_made all_made
    made-Tracked m manifest none s = error-Tracked a b c temporary_error none s _ context-Balanced
    made-Tracked m manifest (some capacity) s = end-Tracked _

    round-Tracked :
        (m : ManifestCalls) (manifest : Buf) (s : SuitState)
        → Tracked a b c (process_manifest u m manifest s) (manifest_contexts u m manifest s start)
    unfolding process_manifest manifest_contexts
    round-Tracked m manifest s =
        if-Tracked a b c (not m.calloc_reporting_engine) _ _ _ _
          (error-Tracked a b c temporary_error none s start start-Balanced)
          (if-Tracked a b c (not m.calloc_processor_context) _ _ _ _
            (error-Tracked a b c temporary_error none s _ engine-Balanced)
            (if-Tracked a b c (not m.set_sender_key) _ _ _ _ late (
              if-Tracked a b c (not m.report_init_engine) _ _ _ _ late (
                if-Tracked a b c (not m.report_start_encoding) _ _ _ _ late
                  (made-Tracked m manifest m.processor_init s)))))
      where
        late :
            Tracked a b c
              (goto_error temporary_error none s)
              (goto_error temporary_error none s, with_context (with_engine start))
        late = error-Tracked a b c temporary_error none s _ context-Balanced

    next-Tracked :
        (step : UpdateStep) (x : UpdateStep × Contexts) (rest : SuitState → UpdateStep)
        (rest' : SuitState → Contexts → UpdateStep × Contexts)
        → Tracked a b c step x
        → ((s : SuitState) → Tracked a b c (rest s) (rest' s start))
        → Tracked a b c (next_manifest step rest) (next_round x rest')
    unfolding next_manifest next_round
    next-Tracked (goto_error code report s) (y, r) rest rest' v later =
        subst (λ z. Tracked a b c (goto_error code report s) (next_round (z, r) rest')) (sym v.same)
          (error-Tracked a b c code report s r v.balanced)
    next-Tracked (goes_on s) (y, r) rest rest' v later =
        subst (λ z. Tracked a b c (rest s) (next_round (z, r) rest')) (sym v.same)
          (subst (λ k. Tracked a b c (rest s) (rest' s k)) (sym (v.clean s refl)) (later s))

    loop-Tracked :
        (i : ℕ) (manifests : List Buf) (s : SuitState)
        → Tracked a b c
            (process_manifests u i manifests s)
            (manifests_contexts u i manifests s start)
    unfolding process_manifests manifests_contexts
    loop-Tracked i [] s = record { same = refl; balanced = start-Balanced; clean = λ s' h. refl }
    loop-Tracked i (manifest ∷ manifests) s =
        next-Tracked (process_manifest u (u.manifest_calls i) manifest s)
          (manifest_contexts u (u.manifest_calls i) manifest s start)
          (process_manifests u (ℕ.suc i) manifests) (manifests_contexts u (ℕ.suc i) manifests)
          (round-Tracked (u.manifest_calls i) manifest s) (loop-Tracked (ℕ.suc i) manifests)

    steps-Tracked :
        (l : Libteep) (up : Update) (s : SuitState)
        → Tracked a b c (update_steps l u up s) (steps_contexts l u up s start)
    unfolding update_steps steps_contexts
    steps-Tracked l up s =
        if-Tracked a b c (not (token_accepted up)) _ _ _ _
          (error-Tracked a b c permanent_error none s start start-Balanced)
          (if-Tracked a b c
            (ltb (length up.manifest_list) 1 || ltb l.max_array_length (length up.manifest_list)) _
            _ _ _ (error-Tracked a b c permanent_error none s start start-Balanced)
            (loop-Tracked 0 up.manifest_list s))

-- An Update, with the contexts.
pub record Released (l : Libteep) (u : UpdateCalls) (up : Update) (s : SuitState) (a b c : ℕ)
    : Type 0 where
  pub same_message : (process_update_contexts l u up s a b c).0 ≡ (process_update l u up s).0
  pub same_state : (process_update_contexts l u up s a b c).1 ≡ (process_update l u up s).1
  pub engines : (process_update_contexts l u up s a b c).2.live_engines ≡ a
  pub contexts : (process_update_contexts l u up s a b c).2.live_contexts ≡ b
  pub processors : (process_update_contexts l u up s a b c).2.live_processors ≡ c

-- However an Update ends, and whichever call for which manifest fails, every reporting engine and
-- processor context that it allocated is freed and every processor that it initialised is released,
-- each once; its message and state are those of `process_update` without the contexts.
pub process_update-Released :
    (l : Libteep) (u : UpdateCalls) (up : Update) (s : SuitState) (a b c : ℕ)
    → Released l u up s a b c
unfolding process_update_contexts answer_contexts contexts_freed process_update
process_update-Released l u up s a b c =
    let v = steps-Tracked a b c u l up s in
    record {
      same_message = ap (λ step. (update_answer l up step).0) v.same;
      same_state = ap (λ step. (update_answer l up step).1) v.same;
      engines = v.balanced.engine;
      contexts = v.balanced.context;
      processors = v.balanced.processor;
    }
