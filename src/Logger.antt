-- ===== src/Logger.antt =====
-- Enclave/src/taws_logger.cpp and App/src/taws_logger.cpp: the lines that the enclave and the host
-- write. The level of the logger is a number; a formatted text is what `vsnprintf` would write into
-- a buffer that is large enough.
pub mod Lines
mod Tests
use Prim.Native.String.{String}
use taws.Base.{
  ℕ, zero, suc, ◌+◌, ◌-◌, ℤ, pos, negsuc, Bool, true, false, not, ◌&&◌, ◌||◌, Option, none, some,
  [], ◌∷◌, ◌++◌, ltb, leb, ◌==◌, if◌then◌else◌, length, take, Bytes,
}
use taws.DebugPrint.{codes, c_string}

abbrev pub level_error : ℕ
level_error = 0

abbrev pub level_info : ℕ
level_info = 1

abbrev pub level_debug : ℕ
level_debug = 2

-- `level_name`
abbrev pub level_name : ℕ → String
level_name zero = "ERROR"
level_name (suc zero) = "INFO"
level_name (suc (suc zero)) = "DEBUG"
level_name (suc (suc (suc n))) = "INFO"

-- `taws_log_set_level` and `ecall_set_log_level`
abbrev pub taws_log_set_level : ℤ → ℕ → ℕ
taws_log_set_level (negsuc n) current = current
taws_log_set_level (pos n) current = if ltb level_debug n then current else n

-- `taws_log_is_enabled`
abbrev pub taws_log_is_enabled : ℕ → ℕ → Bool
taws_log_is_enabled current level = leb level current

-- What `snprintf` and `fprintf` write in front of a message.
abbrev pub prefix_of : String → ℕ → Bytes
prefix_of program level = codes program ++ codes (level_name level) ++ codes "] "

-- `BUFSIZ`; whether `snprintf` fails; what `vsnprintf` formats, `none` where it fails.
pub record Formatting : Type 0 where
  pub bufsiz : ℕ
  pub prefix_fails : Bool
  pub message : Option Bytes

-- `snprintf` into `size` bytes: the last one is the NUL.
abbrev pub written : ℕ → Bytes → Bytes
written size text = take (size - 1) text

abbrev pub with_newline : ℕ → Bytes → Bytes
with_newline bufsiz buf = if ltb (length buf + 1) bufsiz then buf ++ b'\n' ∷ [] else buf

abbrev pub formatted : ℕ → Bytes → Option Bytes → Option Bytes
formatted bufsiz start none = none
formatted bufsiz start (some message) =
    some (with_newline bufsiz (c_string (start ++ written (bufsiz - length start) message)))

-- `taws_log` of the enclave: what `ocall_print_string` is called with, if it is called.
unfoldable pub taws_log : ℕ → Formatting → ℕ → Option Bytes
taws_log current f level =
    let start = prefix_of "[TEEP Agent] [" level in
    if not (taws_log_is_enabled current level)
    then none
    else if f.prefix_fails
    then none
    else if leb f.bufsiz (length start)
    then some (written f.bufsiz start)
    else formatted f.bufsiz start f.message

-- `isatty`, and what `vfprintf` writes.
pub record HostCalls : Type 0 where
  pub isatty : Bool
  pub message : Bytes

pub data Stream : Type 0 where
  stdout_stream stderr_stream : Stream

abbrev pub starts_with : Bytes → Bytes → Bool
starts_with [] s = true
starts_with (c ∷ p) [] = false
starts_with (c ∷ p) (d ∷ s) = (c == d) && starts_with p s

-- `strstr(s, p) != NULL`
abbrev pub strstr : Bytes → Bytes → Bool
strstr [] p = starts_with p []
strstr (c ∷ s) p = starts_with p (c ∷ s) || strstr s p

-- `strcmp(s, t) == 0`
abbrev pub strcmp : Bytes → Bytes → Bool
strcmp [] [] = true
strcmp [] (d ∷ t) = false
strcmp (c ∷ s) [] = false
strcmp (c ∷ s) (d ∷ t) = (c == d) && strcmp s t

abbrev pub color_cyan : Bytes
color_cyan = 27 ∷ codes "[36m"

abbrev pub color_green : Bytes
color_green = 27 ∷ codes "[32m"

abbrev pub color_reset : Bytes
color_reset = 27 ∷ codes "[0m"

-- `is_teep_receive_log`
abbrev pub is_teep_receive_log : Bytes → Bool
is_teep_receive_log s =
    strstr s (codes "received TEEP QueryRequest") || strstr s (codes "received TEEP Update")

-- `is_teep_install_finished_log`
abbrev pub is_teep_install_finished_log : ℕ → Bytes → Bool
is_teep_install_finished_log level fmt =
    (level == level_info)
    && (strcmp fmt (codes "TEEP install session finished: device activation flow")
        || strcmp fmt (codes "TEEP install session finished"))

-- A text between the color and its reset.
abbrev pub colored : Bool → Bytes → Bytes → Bytes
colored true color text = color ++ text ++ color_reset
colored false color text = text

abbrev pub broker_line : Bool → Bytes → ℕ → Bytes → Bytes
broker_line use_color color level message =
    colored use_color color (prefix_of "[TEEP Broker] [" level ++ message) ++ b'\n' ∷ []

-- `taws_log` of the host: a stream and what is written to it.
pub host_taws_log : ℕ → HostCalls → ℕ → Bytes → Option (Stream × Bytes)
host_taws_log current h level fmt =
    if not (taws_log_is_enabled current level)
    then none
    else some (
      (if level == level_error then stderr_stream else stdout_stream),
      broker_line (is_teep_install_finished_log level fmt && h.isatty) color_green level h.message,
    )

-- `taws_log_teep_send`
pub taws_log_teep_send : ℕ → HostCalls → Option (Stream × Bytes)
taws_log_teep_send current h =
    if not (taws_log_is_enabled current level_info)
    then none
    else some (stdout_stream, broker_line h.isatty color_cyan level_info h.message)

-- `taws_log_print_enclave_ocall`
pub taws_log_print_enclave_ocall : Bool → Bytes → Bytes
taws_log_print_enclave_ocall isatty s = colored (isatty && is_teep_receive_log s) color_green s
