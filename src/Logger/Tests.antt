-- ===== src/Logger/Tests.antt =====
-- The enclave's and the host's lines in small buffers, and at a terminal.
use taws.Base.{
  ◌-◌, ◌≡◌, refl, pos, negsuc, true, false, not, ◌&&◌, none, some, [], ◌∷◌, ◌++◌, leb,
  if◌then◌else◌, take,
}
use taws.DebugPrint.{codes, c_string}
use taws.Logger.{
  level_info, level_debug, prefix_of, taws_log_set_level, taws_log, host_taws_log,
  taws_log_print_enclave_ocall,
}
use taws.Logger.Lines.{taws_log-take}

taws_log-take_example :
    taws_log 1 (record { bufsiz = 24; prefix_fails = false; message = some (codes "ready") }) 1 ≡ (
      if leb 1 1 && not false
      then some
          (take (24 - 1) (c_string (prefix_of "[TEEP Agent] [" 1 ++ codes "ready") ++ b'\n' ∷ []))
      else none)
taws_log-take_example = taws_log-take 1 1 24 false (codes "ready")

log_cut :
    taws_log 1 (record { bufsiz = 24; prefix_fails = false; message = some (codes "ready") }) 1
    ≡ some (codes "[TEEP Agent] [INFO] rea")
unfolding taws_log c_string
log_cut = refl

log_whole :
    taws_log 1 (record { bufsiz = 27; prefix_fails = false; message = some (codes "ready") }) 1
    ≡ some (codes "[TEEP Agent] [INFO] ready\n")
unfolding taws_log c_string
log_whole = refl

debug_off :
    taws_log 1 (record { bufsiz = 27; prefix_fails = false; message = some (codes "ready") }) 2
    ≡ none
unfolding taws_log
debug_off = refl

level_kept : taws_log_set_level (negsuc 0) level_info ≡ level_info
level_kept = refl

level_changed : taws_log_set_level (pos 2) level_info ≡ level_debug
level_changed = refl

received_green :
    taws_log_print_enclave_ocall true (codes "received TEEP Update")
    ≡ 27 ∷ codes "[32mreceived TEEP Update" ++ 27 ∷ codes "[0m"
unfolding taws_log_print_enclave_ocall
received_green = refl

error_line :
    host_taws_log 0 (record { isatty = true; message = codes "no" }) level_info (codes "%s") ≡ none
unfolding host_taws_log
error_line = refl
