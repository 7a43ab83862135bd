-- ===== src/Logger/Lines.antt =====
-- Enclave/src/taws_logger.cpp: a line in its buffer.
use taws.Base.{
  ℕ, zero, suc, ◌+◌, ◌-◌, ◌≤◌, ◌<◌, ◌≡◌, refl, sym, ap, ◌∙◌, Bool, true, false, ◌&&◌, Option, none,
  some, [], ◌∷◌, ◌++◌, inl, inr, Bool-cases, not, ltb, leb, ◌==◌, if◌then◌else◌, length, take,
  take_all, length-append, length-take, append_assoc, Bytes, arith,
}
use taws.DebugPrint.{c_string}
use taws.Logger.{prefix_of, written, with_newline, formatted, taws_log}

-- No character is the NUL.
abbrev nul_free : Bytes → Bool
nul_free [] = true
nul_free (c ∷ s) = if c == 0 then false else nul_free s

c_string-append : (s t : Bytes) → nul_free s ≡ true → c_string (s ++ t) ≡ s ++ c_string t
unfolding c_string
c_string-append [] t h = refl
c_string-append (c ∷ s) t h =
    elim (c == 0)
        as (λ z.
          (if z then false else nul_free s) ≡ true
          → (if z then [] else c ∷ c_string (s ++ t)) ≡ c ∷ s ++ c_string t) [
            | true ↦ λ e. cc e
            | false ↦ λ e. ap (◌∷◌ c) (c_string-append s t e)
          ]
      h

c_string-take : (n : ℕ) (s : Bytes) → c_string (take n s) ≡ take n (c_string s)
unfolding c_string
c_string-take zero s = refl
c_string-take (suc n) [] = refl
c_string-take (suc n) (c ∷ s) =
    elim (c == 0)
      as (λ z.
        (if z then [] else c ∷ c_string (take n s))
        ≡ take (suc n) (if z then [] else c ∷ c_string s)) [
          | true ↦ refl
          | false ↦ ap (◌∷◌ c) (c_string-take n s)
        ]

take_within : (n : ℕ) (s t : Bytes) → n ≤ length s → take n (s ++ t) ≡ take n s
take_within zero s t h = refl
take_within (suc n) [] t h = absurd (omega arith)
take_within (suc n) (c ∷ s) t h = ap (◌∷◌ c) (take_within n s t (omega arith))

take_behind : (n m : ℕ) (s t : Bytes) → m ≡ length s + n → take m (s ++ t) ≡ s ++ take n t
take_behind n m [] t e = let same : m ≡ n = omega arith in ap (λ k. take k t) same
take_behind n zero (c ∷ s) t e = absurd (omega arith)
take_behind n (suc m) (c ∷ s) t e = ap (◌∷◌ c) (take_behind n m s t (omega arith))

prefix_nul_free : (level : ℕ) → nul_free (prefix_of "[TEEP Agent] [" level) ≡ true
prefix_nul_free zero = refl
prefix_nul_free (suc zero) = refl
prefix_nul_free (suc (suc zero)) = refl
prefix_nul_free (suc (suc (suc n))) = refl

-- What the buffer holds of a message.
held :
    (k : ℕ) (start text : Bytes)
    → nul_free start ≡ true
    → c_string (start ++ take k text) ≡ start ++ take k (c_string text)
held k start text h =
    c_string-append start (take k text) h ∙ ap (λ r. start ++ r) (c_string-take k text)

newline_kept :
    (bufsiz k : ℕ) (start text : Bytes)
    → bufsiz ≡ suc (length start + k)
    → with_newline bufsiz (start ++ take k text) ≡ start ++ take k (text ++ b'\n' ∷ [])
newline_kept bufsiz k start text e =
    let size = length-append start (take k text) in
    let kept_size = length-take k text in
    let choice : Bool → Bytes =
      λ z. if z then (start ++ take k text) ++ b'\n' ∷ [] else start ++ take k text in
    elim (Bool-cases (leb k (length text))) [
      | inl full ↦
          let no_room : ltb (length (start ++ take k text) + 1) bufsiz ≡ false = ground arith in
          let cut : k ≤ length text = ground arith in
          ap choice no_room ∙ ap (λ r. start ++ r) (sym (take_within k text (b'\n' ∷ []) cut))
      | inr room ↦
          let has_room : ltb (length (start ++ take k text) + 1) bufsiz ≡ true = ground arith in
          let shorter : length text < k = ground arith in
          let whole = take_all k text (omega arith) in
          let line_size = length-append text (b'\n' ∷ []) in
          ap choice has_room
          ∙ append_assoc start (take k text) (b'\n' ∷ [])
          ∙ ap (λ r. start ++ (r ++ b'\n' ∷ [])) whole
          ∙ ap (λ r. start ++ r) (sym (take_all k (text ++ b'\n' ∷ []) (omega arith)))
    ]

line_text :
    (start text : Bytes)
    → nul_free start ≡ true
    → c_string (start ++ text) ++ b'\n' ∷ [] ≡ start ++ (c_string text ++ b'\n' ∷ [])
line_text start text h =
    ap (λ r. r ++ b'\n' ∷ []) (c_string-append start text h)
    ∙ append_assoc start (c_string text) (b'\n' ∷ [])

message_line :
    (bufsiz : ℕ) (start text : Bytes)
    → nul_free start ≡ true
    → length start < bufsiz
    → with_newline bufsiz (c_string (start ++ written (bufsiz - length start) text))
      ≡ take (bufsiz - 1) (c_string (start ++ text) ++ b'\n' ∷ [])
message_line bufsiz start text h fits =
    let room = bufsiz - length start - 1 in
    ap (with_newline bufsiz) (held room start text h)
    ∙ newline_kept bufsiz room start (c_string text) (omega arith)
    ∙ sym (take_behind room (bufsiz - 1) start (c_string text ++ b'\n' ∷ []) (omega arith))
    ∙ ap (take (bufsiz - 1)) (sym (line_text start text h))

short_line :
    (bufsiz : ℕ) (start text : Bytes)
    → nul_free start ≡ true
    → bufsiz ≤ length start
    → written bufsiz start ≡ take (bufsiz - 1) (c_string (start ++ text) ++ b'\n' ∷ [])
short_line bufsiz start text h e =
    sym (take_within (bufsiz - 1) start (c_string text ++ b'\n' ∷ []) (omega arith))
    ∙ ap (take (bufsiz - 1)) (sym (line_text start text h))

by_branch :
    (enabled fails : Bool) (line whole : Option Bytes)
    → line ≡ whole
    → (if not enabled then none else if fails then none else line)
      ≡ (if enabled && not fails then whole else none)
by_branch true true line whole same = refl
by_branch true false line whole same = same
by_branch false fails line whole same = refl

-- A message that is formatted is printed exactly if its level is enabled and the prefix is
-- formatted: the prefix, the message up to a NUL and a line feed, cut behind BUFSIZ - 1 characters.
pub taws_log-take :
    (current level bufsiz : ℕ) (fails : Bool) (message : Bytes)
    → taws_log current
        (record { bufsiz = bufsiz; prefix_fails = fails; message = some message })
        level
      ≡ (if leb level current && not fails
          then some (
              take
                (bufsiz - 1)
                (c_string (prefix_of "[TEEP Agent] [" level ++ message) ++ b'\n' ∷ []))
          else none)
unfolding taws_log
taws_log-take current level bufsiz fails message =
    let start = prefix_of "[TEEP Agent] [" level in
    let no_nul = prefix_nul_free level in
    let cut = some (written bufsiz start) in
    let line = formatted bufsiz start (some message) in
    let by_size : Bool → Option Bytes = λ z. if z then cut else line in
    let whole = some (take (bufsiz - 1) (c_string (start ++ message) ++ b'\n' ∷ [])) in
    let same : by_size (leb bufsiz (length start)) ≡ whole =
      elim (Bool-cases (leb bufsiz (length start))) [
        | inl short ↦
            let le : bufsiz ≤ length start = ground arith in
            ap by_size short ∙ ap some (short_line bufsiz start message no_nul le)
        | inr fits ↦
            let lt : length start < bufsiz = ground arith in
            ap by_size fits ∙ ap some (message_line bufsiz start message no_nul lt)
      ] in
    by_branch (leb level current) fails _ whole same
