-- ===== src/DebugPrint/Quoting.antt =====
-- Enclave/src/taws_teep_debug_print.cpp: what the printer makes of bytes and of text.
use taws.Base.{
  ℕ, suc, ◌+◌, ◌-◌, ◌*◌, ◌/◌, ◌%◌, ◌≤◌, ◌<◌, ◌≡◌, refl, sym, ap, ◌∙◌, subst, Bool, true, false,
  ◌&&◌, Option, none, some, [], ◌∷◌, ◌++◌, ltb, leb, ◌==◌, if◌then◌else◌, length, take, take_all,
  take-append, Bytes, arith,
}
use taws.Teep.{points_to, unexpected_error}
use taws.DebugPrint.{
  Printed, prints, says, stops, ◌>>◌, PrintCalls, is_printable_char, printable_hex_string, escape,
  c_string, print_text_body, quoted_by, dots_if, hex_digit, hex_of, print_size, hex_bytes,
  print_bytes, print_hex_within_max,
}

-- What a reader makes of printed bytes: a quoted text, or the digits of h'...'.
abbrev drop_last : Bytes → Bytes
drop_last [] = []
drop_last (c ∷ []) = []
drop_last (c ∷ d ∷ s) = c ∷ drop_last (d ∷ s)

abbrev digit_value : ℕ → ℕ
digit_value d = if ltb d 58 then d - b'0' else d - 87

abbrev pub unhex : Bytes → Bytes
unhex [] = []
unhex (a ∷ []) = []
unhex (a ∷ b ∷ s) = (digit_value a * 16 + digit_value b) ∷ unhex s

abbrev read_hex : Bytes → Option Bytes
read_hex [] = none
read_hex (q ∷ s) = if q == b'\'' then some (unhex (drop_last s)) else none

abbrev pub read_bytes : Bytes → Option Bytes
read_bytes [] = none
read_bytes (c ∷ s) =
    let hex = read_hex s in
    if c == b'\'' then some (drop_last s) else if c == b'h' then hex else none

-- Each element is a byte.
abbrev pub are_bytes : Bytes → Bool
are_bytes [] = true
are_bytes (c ∷ s) = ltb c 256 && are_bytes s

drop_last-append : (s : Bytes) (c : ℕ) → drop_last (s ++ c ∷ []) ≡ s
drop_last-append [] c = refl
drop_last-append (a ∷ []) c = refl
drop_last-append (a ∷ b ∷ s) c = ap (◌∷◌ a) (drop_last-append (b ∷ s) c)

both : (a b : Bool) → (a && b) ≡ true → (a ≡ true) × (b ≡ true)
both true b h = (refl, h)
both false b h = cc h

-- A printable character is neither a line feed nor a NUL.
printable_char : (c : ℕ) → is_printable_char c ≡ true → ((c == b'\n') ≡ false) × ((c == 0) ≡ false)
unfolding is_printable_char
printable_char c h = (ground arith, ground arith)

printable_shown : (s : Bytes) → printable_hex_string s ≡ true → c_string (escape s) ≡ s
unfolding printable_hex_string escape c_string
printable_shown [] h = refl
printable_shown (c ∷ s) h =
    let (now, later) = both (is_printable_char c) (printable_hex_string s) h in
    let (no_feed, no_nul) = printable_char c now in
    ap (λ t. c_string (if t then b'\\' ∷ b'n' ∷ escape s else c ∷ escape s)) no_feed
    ∙ ap (λ t. if t then [] else c ∷ c_string (escape s)) no_nul
    ∙ ap (◌∷◌ c) (printable_shown s later)

digit_back : (n : ℕ) → n < 16 → digit_value (hex_digit n) ≡ n
digit_back n h = ground arith

high_digit : (c : ℕ) → ltb c 256 ≡ true → c / 16 < 16
high_digit c h = ground arith

unhex-hex_of : (s : Bytes) → are_bytes s ≡ true → unhex (hex_of s) ≡ s
unfolding hex_of
unhex-hex_of [] h = refl
unhex-hex_of (c ∷ s) h =
    let (small, rest) = both (ltb c 256) (are_bytes s) h in
    let high : c / 16 < 16 = high_digit c small in
    let low : c % 16 < 16 = omega arith in
    let value : digit_value (hex_digit (c / 16)) * 16 + digit_value (hex_digit (c % 16)) ≡ c =
      ap (λ n. n * 16 + digit_value (hex_digit (c % 16))) (digit_back (c / 16) high)
      ∙ ap (λ n. c / 16 * 16 + n) (digit_back (c % 16) low)
      ∙ omega arith in
    ap (λ n. n ∷ unhex (hex_of s)) value ∙ ap (◌∷◌ c) (unhex-hex_of s rest)

-- What is printed of bytes, and how it is read.
record ReadBack (b : Bytes) (p : Printed) : Type 0 where
  printed : p.0 ≡ none
  is_read : read_bytes p.1 ≡ some b

within : (n m : ℕ) → n ≤ m → (leb n m ≡ true) × (ltb m n ≡ false)
within n m h = (ground arith, ground arith)

append_nil : (s : Bytes) → s ++ [] ≡ s
append_nil [] = refl
append_nil (c ∷ s) = ap (◌∷◌ c) (append_nil s)

nothing_more : (p : Printed) → p.0 ≡ none → p >> prints [] ≡ p
nothing_more (none, out) h = ap (λ o. (none, o)) (append_nil out)
nothing_more (some code, out) h = cc h

module _ (e : PrintCalls) (b : Bytes) (fits : length b ≤ e.max_byte_count) where
  body_whole : printable_hex_string b ≡ true → print_text_body e (points_to b) (length b) ≡ prints b
  unfolding print_text_body
  body_whole printable =
      ap (λ t. if t then stops unexpected_error else prints (c_string (escape read)))
        (within (length b) e.max_byte_count fits).1
      ∙ ap (λ s. prints (c_string (escape s))) (take-append b (e.behind b))
      ∙ ap prints (printable_shown b printable)
    where
      read : Bytes
      read = take (length b) (b ++ e.behind b)

  -- The two ways to print the first `n` bytes.
  shown : ℕ → Bytes → Printed
  shown n s =
      if printable_hex_string s
      then quoted_by "'" (print_text_body e (points_to b) n)
      else says "h'" >> prints (hex_of s) >> says "'"

  shown-ReadBack : are_bytes b ≡ true → ReadBack b (shown (length b) b)
  unfolding shown
  shown-ReadBack small = by_flag (printable_hex_string b) refl
    where
      by_flag :
          (t : Bool)
          → printable_hex_string b ≡ t
          → ReadBack b (
              if t
              then quoted_by "'" (print_text_body e (points_to b) (length b))
              else says "h'" >> prints (hex_of b) >> says "'")
      by_flag true printable =
          subst (λ p. ReadBack b (quoted_by "'" p)) (sym (body_whole printable))
            (record { printed = refl; is_read = ap some (drop_last-append b b'\'') })
      by_flag false other = record {
        printed = refl;
        is_read =
            ap (λ s. some (unhex s)) (drop_last-append (hex_of b) b'\'')
            ∙ ap some (unhex-hex_of b small);
      }

  hex_bytes-ReadBack : are_bytes b ≡ true → ReadBack b (hex_bytes e b)
  unfolding hex_bytes shown
  hex_bytes-ReadBack small =
      let whole : print_size e b ≡ length b =
        ap (λ t. if t then length b else e.max_byte_count)
          (within (length b) e.max_byte_count fits).0 in
      subst (λ n. ReadBack b (shown n (take n b))) (sym whole)
        (subst (λ s. ReadBack b (shown (length b) s)) (sym (take_all (length b) b (omega arith)))
          (shown-ReadBack small))

-- Bytes that fit are printed without an error, and whoever reads what was printed, a text in quotes
-- or the digits in h'', gets them back, so that no two print alike.
pub print_hex-read :
    (e : PrintCalls) (b : Bytes)
    → are_bytes b ≡ true
    → length b ≤ e.max_byte_count
    → ((print_hex_within_max e (points_to b)).0 ≡ none)
      × (read_bytes (print_hex_within_max e (points_to b)).1 ≡ some b)
unfolding print_hex_within_max print_bytes
print_hex-read e [] small fits = (refl, refl)
print_hex-read e (c ∷ s) small fits =
    let v = hex_bytes-ReadBack e (c ∷ s) fits small in
    let same : print_hex_within_max e (points_to (c ∷ s)) ≡ hex_bytes e (c ∷ s) =
      ap (λ t. if t then says "''" else print_bytes e (points_to (c ∷ s))) (positive (length s))
      ∙ ap (λ t. hex_bytes e (c ∷ s) >> dots_if t) (within (length (c ∷ s)) e.max_byte_count fits).1
      ∙ nothing_more (hex_bytes e (c ∷ s)) v.printed in
    (
      ap (λ (p : Printed). p.0) same ∙ v.printed,
      ap (λ (p : Printed). read_bytes p.1) same ∙ v.is_read,
    )
  where
    positive : (n : ℕ) → (suc n == 0) ≡ false
    positive n = ground arith
