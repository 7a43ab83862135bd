-- ===== src/Base/Buffers.antt =====
-- Byte strings, C strings and buffers that may be NULL.
use Prim.Native.Nat.{ℕ}
use mathlib.Core.Path.{◌≡◌, refl}
use mathlib.Core.Logic.{◌↔◌}
use mathlib.Core.Bool.{Bool, true, false, ◌&&◌}
use mathlib.Core.Option.{Option, none, some}
use mathlib.Core.List.{List, [], ◌∷◌}
use native.Mathlib.Omega.{arith}
use taws.Base.Tests.{◌==◌}

-- Bytes, or the characters of a C string in front of its NUL.
abbrev pub Bytes : Type 0
Bytes = List ℕ

-- `memcmp(a, b, n) == 0` at equal lengths, and `strcmp(a, b) == 0`.
unfoldable pub bytes_eq : Bytes → Bytes → Bool
bytes_eq [] [] = true
bytes_eq [] (b ∷ bs) = false
bytes_eq (a ∷ as') [] = false
bytes_eq (a ∷ as') (b ∷ bs) = (a == b) && bytes_eq as' bs

bytes_eq_sound : (a b : Bytes) → bytes_eq a b ≡ true → a ≡ b
unfolding bytes_eq
bytes_eq_sound [] [] h = refl
bytes_eq_sound [] (y ∷ ys) h = cc
bytes_eq_sound (x ∷ xs) [] h = cc
bytes_eq_sound (x ∷ xs) (y ∷ ys) h = ground (arith, bytes_eq_sound xs ys)

pub bytes_eq_refl : (a : Bytes) → bytes_eq a a ≡ true
unfolding bytes_eq
bytes_eq_refl [] = refl
bytes_eq_refl (x ∷ xs) = ground (arith, bytes_eq_refl xs)

pub bytes_eq_iff : (a b : Bytes) → (bytes_eq a b ≡ true) ↔ (a ≡ b)
bytes_eq_iff a b = (bytes_eq_sound a b, λ e. cc (bytes_eq_refl a, e))

-- `s[0] == '\0'` of a C string, and a length of 0 of a buffer.
abbrev pub is_empty : Bytes → Bool
is_empty [] = true
is_empty (b ∷ bs) = false

-- A `UsefulBuf`: `none` is a NULL pointer.
abbrev pub Buf : Type 0
Buf = Option Bytes

-- `UsefulBuf_IsNULLOrEmpty`
abbrev pub is_null_or_empty : Buf → Bool
is_null_or_empty none = true
is_null_or_empty (some bs) = is_empty bs
