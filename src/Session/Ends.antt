-- ===== src/Session/Ends.antt =====
-- App/src/sgx_teep_session.cpp: how a session ends, from what the enclave answered in it.
use taws.Base.{
  ◌≡◌, ◌≢◌, ◌↔◌, refl, sym, ap, ◌∙◌, inl, inr, Bool-cases, Bool, true, false, ◌||◌, none, some,
  List, [], ◌∷◌, if◌then◌else◌, Bytes, is_empty, length,
}
use mathlib.Core.List.{Memᴰ}
use mathlib.Core.List.Memᴰ
use taws.Agent.{EcallResult, fatal, response_is_teep_error, device_activation_flow}
use taws.HttpClient.{HttpResult, http_ok}
use taws.Session.{
  Session, Round, returns, breaks, next_round, SessionResult, session_ok,
  session_ok_device_activated, session_teep_error_response, session_http_error, session_fatal,
  answered, after_ecall, after_post, session_round, session_result, after_round, run_rounds,
  run_teep_session, new_session, is_error, is_activation,
}

-- Does a result occur among those of the rounds?
abbrev any : (EcallResult → Bool) → List EcallResult → Bool
any p [] = false
any p (x ∷ xs) = p x || any p xs

-- How a session ended.
pub data Cause : Type 0 where
  no_content post_failed enclave_failed : Cause

abbrev result_of : Cause → Bool → Bool → SessionResult
result_of no_content error activation =
    if error
    then session_teep_error_response
    else if activation
    then session_ok_device_activated
    else session_ok
result_of post_failed error activation = session_http_error
result_of enclave_failed error activation = session_fatal

-- The result of a session in which the enclave gave `results`, in order, until the cause.
abbrev pub expected_result : Cause → List EcallResult → SessionResult
expected_result cause results = result_of cause (any is_error results) (any is_activation results)

-- The rounds of a session that ends: in each but the last the enclave answers what it receives with
-- a result that is not fatal, and the next POST sends the answer.
pub data Exchange : List Round → Bytes → List EcallResult → Cause → Type 0 where
  tam_done :
      (r : Round) (rs : List Round) (sent received : Bytes)
      → r.post sent ≡ (http_ok, received)
      → is_empty received ≡ true
      → Exchange (r ∷ rs) sent [] no_content
  http_fails :
      (r : Round) (rs : List Round) (sent received : Bytes) (h : HttpResult)
      → r.post sent ≡ (h, received)
      → h ≢ http_ok
      → Exchange (r ∷ rs) sent [] post_failed
  sgx_fails :
      (r : Round) (rs : List Round) (sent received : Bytes)
      → r.post sent ≡ (http_ok, received)
      → is_empty received ≡ false
      → r.ecall received ≡ none
      → Exchange (r ∷ rs) sent [] enclave_failed
  agent_fails :
      (r : Round) (rs : List Round) (sent received answer : Bytes)
      → r.post sent ≡ (http_ok, received)
      → is_empty received ≡ false
      → r.ecall received ≡ some (fatal, answer)
      → Exchange (r ∷ rs) sent [] enclave_failed
  exchanged :
      (r : Round) (rs : List Round) (sent received answer : Bytes) (result : EcallResult)
      (results : List EcallResult) (cause : Cause)
      → r.post sent ≡ (http_ok, received)
      → is_empty received ≡ false
      → r.ecall received ≡ some (result, answer)
      → result ≢ fatal
      → Exchange rs answer results cause
      → Exchange (r ∷ rs) sent (result ∷ results) cause

abbrev logged : Session → Session
logged s = record s { log = (s.send_log_type, length s.cose_send_buf) ∷ s.log }

module _ (r : Round) (s : Session) where
  round_received :
      (received : Bytes)
      → r.post s.cose_send_buf ≡ (http_ok, received)
      → is_empty received ≡ false
      → session_round r s ≡ after_ecall (logged s) (r.ecall received)
  unfolding session_round after_post
  round_received received h full =
      ap (after_post r (logged s)) h
      ∙ ap (λ b. if b then breaks (logged s) else after_ecall (logged s) (r.ecall received)) full

  round_breaks :
      (received : Bytes)
      → r.post s.cose_send_buf ≡ (http_ok, received)
      → is_empty received ≡ true
      → session_round r s ≡ breaks (logged s)
  unfolding session_round after_post
  round_breaks received h empty =
      ap (after_post r (logged s)) h
      ∙ ap (λ b. if b then breaks (logged s) else after_ecall (logged s) (r.ecall received)) empty

  round_http_error :
      (received : Bytes) (h : HttpResult)
      → r.post s.cose_send_buf ≡ (h, received)
      → h ≢ http_ok
      → session_round r s ≡ returns session_http_error (logged s)
  unfolding session_round after_post
  round_http_error received HttpResult.http_ok e bad = absurd (bad refl)
  round_http_error received HttpResult.curl_failed e bad = ap (after_post r (logged s)) e
  round_http_error received HttpResult.bad_status e bad = ap (after_post r (logged s)) e
  round_http_error received HttpResult.unexpected_error e bad = ap (after_post r (logged s)) e

goes_on :
    (s : Session) (x : EcallResult) (answer : Bytes)
    → x ≢ fatal
    → after_ecall s (some (x, answer)) ≡ next_round (answered x answer s)
unfolding after_ecall
goes_on s EcallResult.ok answer h = refl
goes_on s EcallResult.response_is_teep_error answer h = refl
goes_on s EcallResult.fatal answer h = absurd (h refl)
goes_on s EcallResult.device_activation_flow answer h = refl
goes_on s EcallResult.query_response_sent answer h = refl
goes_on s EcallResult.success_sent answer h = refl

or_swap : (a b c : Bool) → ((a || b) || c) ≡ (b || (a || c))
or_swap true true c = refl
or_swap true false c = refl
or_swap false b c = refl

or_false : (a : Bool) → a ≡ (a || false)
or_false true = refl
or_false false = refl

-- A session in progress ends by its flags and by what follows.
rounds_result :
    (rounds : List Round) (s : Session) (results : List EcallResult) (cause : Cause)
    → Exchange rounds s.cose_send_buf results cause
    → (run_rounds rounds s).0
      ≡ some (
          result_of cause
            (s.has_teep_error_response || any is_error results)
            (s.in_device_activation_flow || any is_activation results))
unfolding run_rounds after_round session_result after_ecall
rounds_result rounds s results cause (tam_done r rs _ received h empty) =
    ap (λ x. (after_round (run_rounds rs) x).0) (round_breaks r s received h empty)
    ∙ ap some (
        ap (λ a. result_of no_content a s.in_device_activation_flow)
          (or_false s.has_teep_error_response)
        ∙ ap (result_of no_content (s.has_teep_error_response || false))
            (or_false s.in_device_activation_flow))
rounds_result rounds s results cause (http_fails r rs _ received x h bad) =
    ap (λ y. (after_round (run_rounds rs) y).0) (round_http_error r s received x h bad)
rounds_result rounds s results cause (sgx_fails r rs _ received h full none_) =
    ap (λ y. (after_round (run_rounds rs) y).0)
      (round_received r s received h full ∙ ap (after_ecall (logged s)) none_)
rounds_result rounds s results cause (agent_fails r rs _ received answer h full failed) =
    ap (λ y. (after_round (run_rounds rs) y).0)
      (round_received r s received h full ∙ ap (after_ecall (logged s)) failed)
rounds_result rounds s results cause
      (exchanged r rs _ received answer x xs _ h full answers alive rest) =
    let moved = answered x answer (logged s) in
    ap (λ y. (after_round (run_rounds rs) y).0)
      (round_received r s received h full
        ∙ ap (after_ecall (logged s)) answers
        ∙ goes_on (logged s) x answer alive)
    ∙ rounds_result rs moved xs cause rest
    ∙ ap some (
        ap (λ a. result_of cause a (moved.in_device_activation_flow || any is_activation xs))
          (or_swap (is_error x) s.has_teep_error_response (any is_error xs))
        ∙ ap (result_of cause (s.has_teep_error_response || any is_error (x ∷ xs)))
            (or_swap (is_activation x) s.in_device_activation_flow (any is_activation xs)))

pub rounds_expected :
    (rounds : List Round) (results : List EcallResult) (cause : Cause)
    → Exchange rounds [] results cause
    → (run_teep_session rounds).0 ≡ some (expected_result cause results)
unfolding run_teep_session
rounds_expected rounds results cause x = rounds_result rounds new_session results cause x

-- What a session reports, by its cause and by the results that the enclave gave in it.
pub data Verdict (results : List EcallResult) : Cause → SessionResult → Type 0 where
  error_given :
      Memᴰ response_is_teep_error results → Verdict results no_content session_teep_error_response
  activated :
      ¬ Memᴰ response_is_teep_error results
      → Memᴰ device_activation_flow results
      → Verdict results no_content session_ok_device_activated
  went_well :
      ¬ Memᴰ response_is_teep_error results
      → ¬ Memᴰ device_activation_flow results
      → Verdict results no_content session_ok
  http_error : Verdict results post_failed session_http_error
  is_fatal : Verdict results enclave_failed session_fatal

-- A test for one result finds it exactly where it is in the list.
any_given :
    (p : EcallResult → Bool) (x : EcallResult) (results : List EcallResult)
    → ((y : EcallResult) → p y ≡ true → y ≡ x)
    → p x ≡ true
    → (any p results ≡ true) ↔ Memᴰ x results
any_given p x results only holds = (to results, from results)
  where
    to : (ys : List EcallResult) → any p ys ≡ true → Memᴰ x ys
    to [] h = cc h
    to (y ∷ ys) h = elim (Bool-cases (p y)) [
      | inl yes_ ↦ Memᴰ.head (sym (only y yes_))
      | inr no_ ↦ Memᴰ.tail (to ys (sym (ap (λ b. b || any p ys) no_) ∙ h))
    ]

    from : (ys : List EcallResult) → Memᴰ x ys → any p ys ≡ true
    from [] m = absurd (Memᴰ.not-nil m)
    from (y ∷ ys) (Memᴰ.head e) = ap (λ b. b || any p ys) (sym (ap p e) ∙ holds)
    from (y ∷ ys) (Memᴰ.tail m) = later (p y) (any p ys) (from ys m)
      where
        later : (a b : Bool) → b ≡ true → (a || b) ≡ true
        later true b h = refl
        later false b h = h

errors_given :
    (results : List EcallResult)
    → (any is_error results ≡ true) ↔ Memᴰ response_is_teep_error results
unfolding is_error
errors_given results = any_given is_error response_is_teep_error results only refl
  where
    only : (y : EcallResult) → is_error y ≡ true → y ≡ response_is_teep_error
    only EcallResult.ok h = cc h
    only EcallResult.response_is_teep_error h = refl
    only EcallResult.fatal h = cc h
    only EcallResult.device_activation_flow h = cc h
    only EcallResult.query_response_sent h = cc h
    only EcallResult.success_sent h = cc h

activations_given :
    (results : List EcallResult)
    → (any is_activation results ≡ true) ↔ Memᴰ device_activation_flow results
unfolding is_activation
activations_given results = any_given is_activation device_activation_flow results only refl
  where
    only : (y : EcallResult) → is_activation y ≡ true → y ≡ device_activation_flow
    only EcallResult.ok h = cc h
    only EcallResult.response_is_teep_error h = cc h
    only EcallResult.fatal h = cc h
    only EcallResult.device_activation_flow h = refl
    only EcallResult.query_response_sent h = cc h
    only EcallResult.success_sent h = cc h

expected-Verdict :
    (results : List EcallResult) (cause : Cause)
    → Verdict results cause (expected_result cause results)
expected-Verdict results post_failed = http_error
expected-Verdict results enclave_failed = is_fatal
expected-Verdict results no_content =
    by_flags (any is_error results) (any is_activation results) (errors_given results)
      (activations_given results)
  where
    by_flags :
        (e a : Bool)
        → (e ≡ true) ↔ Memᴰ response_is_teep_error results
        → (a ≡ true) ↔ Memᴰ device_activation_flow results
        → Verdict results no_content (result_of no_content e a)
    by_flags true a (given, _) _ = error_given (given refl)
    by_flags false true (_, none_) (given, _) = activated (λ m. cc (none_ m)) (given refl)
    by_flags false false (_, none_) (_, not_active) =
        went_well (λ m. cc (none_ m)) (λ m. cc (not_active m))

-- A session that starts with an empty message and in which each answer is sent with the next POST
-- ends by its cause: a failed POST, a failed enclave, or a response without content. In the last
-- case it reports a TEEP Error where that is among the results that the enclave gave, and else an
-- activation where that is among them.
pub run_teep_session_result :
    (rounds : List Round) (results : List EcallResult) (cause : Cause)
    → Exchange rounds [] results cause
    → (result : SessionResult) × ((run_teep_session rounds).0 ≡ some result)
      × Verdict results cause result
run_teep_session_result rounds results cause x = (
  expected_result cause results,
  rounds_expected rounds results cause x,
  expected-Verdict results cause,
)
