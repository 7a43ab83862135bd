-- ===== src/SuitProcessor/Report.antt =====
-- Enclave/src/suit_processor_wrapper.cpp: the buffer of the last report. Next to the state there is
-- the number of copies of reports that are alive.
use taws.Base.{
  ℕ, ◌+◌, ◌-◌, ◌≡◌, refl, Bool, true, false, not, none, some, [], ◌∷◌, if◌then◌else◌, Buf,
  is_null_or_empty, arith,
}
use taws.SuitProcessor.{SuitErr, suit_success, err_no_memory, SuitState, report_callback}

-- `suit_clear_report_internal`
abbrev freed_report : Buf → ℕ → ℕ
freed_report none live = live
freed_report (some b) live = live - 1

unfoldable pub suit_clear_report_internal : SuitState × ℕ → SuitState × ℕ
suit_clear_report_internal (s, live) =
    (record s { suit_report = none }, freed_report s.suit_report live)

kept_copy : Buf → SuitState × ℕ → SuitErr × SuitState × ℕ
kept_copy report (s, live) = (suit_success, record s { suit_report = report }, live + 1)

without_copy : SuitState × ℕ → SuitErr × SuitState × ℕ
without_copy (s, live) = (err_no_memory, s, live)

-- `__wrap_suit_report_callback` with its calls of `free` and `malloc`.
unfoldable pub report_callback_copies : Bool → Buf → SuitState × ℕ → SuitErr × SuitState × ℕ
unfolding kept_copy without_copy suit_clear_report_internal
report_callback_copies block report (s, live) =
    if not (is_null_or_empty report)
    then (if block
        then kept_copy report (suit_clear_report_internal (s, live))
        else without_copy (suit_clear_report_internal (s, live)))
    else (suit_success, s, live)

abbrev pub kept : Buf → ℕ
kept none = 0
kept (some b) = 1

-- The copies of reports: the callback is the one without them, and the last report is the only copy.
pub record OneCopy (block : Bool) (report : Buf) (s : SuitState) (live : ℕ) : Type 0 where
  pub same_result :
      (report_callback_copies block report (s, live)).0 ≡ (report_callback block report s).0
  pub same_state :
      (report_callback_copies block report (s, live)).1 ≡ (report_callback block report s).1
  pub one_copy :
      (report_callback_copies block report (s, live)).2
      ≡ kept (report_callback_copies block report (s, live)).1.suit_report

freed_none : (b : Buf) (live : ℕ) → live ≡ kept b → freed_report b live ≡ 0
freed_none none live h = h
freed_none (some b) live h = omega (arith, h)

-- Where the last report is the only copy, it is so behind a report callback too, which returns and
-- leaves what the callback without the copies does.
pub report_callback-OneCopy :
    (block : Bool) (report : Buf) (s : SuitState) (live : ℕ)
    → live ≡ kept s.suit_report
    → OneCopy block report s live
unfolding report_callback_copies report_callback
report_callback-OneCopy block none s live one = record {
  same_result = refl;
  same_state = refl;
  one_copy = one;
}
report_callback-OneCopy block (some []) s live one = record {
  same_result = refl;
  same_state = refl;
  one_copy = one;
}
report_callback-OneCopy true (some (c ∷ b)) s live one = record {
  same_result = refl;
  same_state = refl;
  one_copy = let none_left = freed_none s.suit_report live one in omega (arith, none_left);
}
report_callback-OneCopy false (some (c ∷ b)) s live one = record {
  same_result = refl;
  same_state = refl;
  one_copy = freed_none s.suit_report live one;
}
