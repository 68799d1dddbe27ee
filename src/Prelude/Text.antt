-- ===== src/Prelude/Text.antt =====
-- Texts: Python's `lower` on the ASCII letters, which is all that names, labels and digests hold,
-- `strip`, and character classes for the patterns that the source matches in full.
use qdev_runner_control_plan.Prelude.Tests.{
  Bool-cases, if◌then◌else◌, leb, nat_beq, ◌==◌, string_eq,
}
use Prim.Native.Nat.{ℕ, zero, suc, ◌-◌}
use Prim.Native.Char.{Char, code}
use Prim.Native.String.{String}
use mathlib.Core.Path.{◌≡◌, refl, ap, ◌∙◌}
use mathlib.Core.Logic.{inl, inr}
use native.Mathlib.Omega.{arith}
use mathlib.Core.Bool.{Bool, true, false, ◌&&◌, ◌||◌}
use mathlib.Core.Option.{none, some}
use text.Mathlib.Text.{char_at?, starts_with}

lower_char : Char → Char
lower_char c =
    if leb b'A' (code c) && leb (code c) b'Z'
    then (elim (char_at? "abcdefghijklmnopqrstuvwxyz" (code c - b'A')) [ none ↦ c | some d ↦ d ])
    else c

unfoldable pub lower : String → String
unfolding lower_char
lower String.[] = String.[]
lower (String.◌∷◌ c s) = String.◌∷◌ (lower_char c) (lower s)

between : ℕ → ℕ → ℕ → Bool
between lo hi n = leb lo n && leb n hi

is_space : ℕ → Bool
unfolding between
is_space n =
    between 9 13 n
    || between 28 32 n
    || nat_beq n 133
    || nat_beq n 160
    || nat_beq n 5760
    || between 8192 8202 n
    || between 8232 8233 n
    || nat_beq n 8239
    || nat_beq n 8287
    || nat_beq n 12288

strip_left : String → String
unfolding is_space
strip_left String.[] = String.[]
strip_left (String.◌∷◌ c s) =
    let rest = strip_left s in if is_space (code c) then rest else String.◌∷◌ c s

strip_right : String → String
unfolding is_space
strip_right String.[] = String.[]
strip_right (String.◌∷◌ c s) =
    let rest = strip_right s in
    if is_space (code c) && rest == "" then String.[] else String.◌∷◌ c rest

-- s.strip()
unfoldable pub strip : String → String
unfolding strip_left strip_right
strip s = strip_left (strip_right s)

-- [A-Za-z0-9]
unfoldable pub is_alnum : ℕ → Bool
unfolding between
is_alnum n = between b'A' b'Z' n || between b'a' b'z' n || between b'0' b'9' n

-- [0-9a-f]
unfoldable pub is_hex : ℕ → Bool
unfolding between
is_hex n = between b'0' b'9' n || between b'a' b'f' n

-- [A-Za-z0-9._-]
unfoldable pub is_name_char : ℕ → Bool
unfolding is_alnum
is_name_char n = is_alnum n || nat_beq n b'.' || nat_beq n b'_' || nat_beq n b'-'

-- Every character is of the class.
unfoldable pub all_chars : (ℕ → Bool) → String → Bool
all_chars p String.[] = true
all_chars p (String.◌∷◌ c s) = p (code c) && all_chars p s

-- The number of characters.
unfoldable pub text_length : String → ℕ
text_length String.[] = 0
text_length (String.◌∷◌ c s) = suc (text_length s)

-- The first character is of one class and the others of another.
unfoldable pub starts_then : (ℕ → Bool) → (ℕ → Bool) → String → Bool
unfolding all_chars
starts_then p q String.[] = false
starts_then p q (String.◌∷◌ c s) = p (code c) && all_chars q s

-- s[:n]
unfoldable pub take_text : ℕ → String → String
take_text zero s = String.[]
take_text (suc n) String.[] = String.[]
take_text (suc n) (String.◌∷◌ c s) = String.◌∷◌ c (take_text n s)

-- s[n:]
drop_text : ℕ → String → String
drop_text zero s = s
drop_text (suc n) String.[] = String.[]
drop_text (suc n) (String.◌∷◌ c s) = drop_text n s

-- t in s
unfoldable pub contains : String → String → Bool
contains t String.[] = t == ""
contains t (String.◌∷◌ c s) = starts_with (String.◌∷◌ c s) t || contains t s

-- ^[0-9a-f]{n}$
unfoldable pub is_hex_text : ℕ → String → Bool
unfolding all_chars is_hex text_length
is_hex_text n s = all_chars is_hex s && nat_beq (text_length s) n

-- SQLite's s LIKE 'worker=% exit=%', which compares ASCII letters without their case.
unfoldable pub is_worker_exit : String → Bool
unfolding drop_text contains lower
is_worker_exit s = starts_with (lower s) "worker=" && contains " exit=" (drop_text 7 (lower s))

-- The first character does not matter here.
rest_of : String → String
rest_of String.[] = String.[]
rest_of (String.◌∷◌ c s) = s

head_kept :
    (b : Bool) (c : Char) (s t : String)
    → (if b then String.[] else String.◌∷◌ c s) ≡ String.◌∷◌ c t
    → s ≡ t
unfolding rest_of
head_kept true c s t h = absurd (let e : ("" == String.◌∷◌ c t) ≡ true = rw (← h) refl in cc)
head_kept false c s t h = ap rest_of h

strip_right_idem : (s : String) → strip_right (strip_right s) ≡ strip_right s
unfolding strip_right
strip_right_idem String.[] = refl
strip_right_idem (String.◌∷◌ c s) = elim (Bool-cases (is_space (code c) && strip_right s == "")) [
  | inl y ↦ rw y refl
  | inr n ↦ rw (n, strip_right_idem s, n) refl
]

strip_right-strip_left :
    (s : String) → strip_right s ≡ s → strip_right (strip_left s) ≡ strip_left s
unfolding strip_left strip_right
strip_right-strip_left String.[] h = refl
strip_right-strip_left (String.◌∷◌ c s) h = elim (Bool-cases (is_space (code c))) [
  | inl y ↦ rw y (
      strip_right-strip_left s
        (head_kept (is_space (code c) && strip_right s == "") c (strip_right s) s h))
  | inr n ↦ rw n h
]

strip_left_idem : (s : String) → strip_left (strip_left s) ≡ strip_left s
unfolding strip_left
strip_left_idem String.[] = refl
strip_left_idem (String.◌∷◌ c s) = elim (Bool-cases (is_space (code c))) [
  | inl y ↦ rw y (strip_left_idem s)
  | inr n ↦ rw (n, n) refl
]

-- A stripped text is stripped.
pub strip_idem : (s : String) → strip (strip s) ≡ strip s
unfolding strip
strip_idem s =
    ap strip_left (strip_right-strip_left (strip_right s) (strip_right_idem s))
    ∙ strip_left_idem (strip_right s)

alnum-not-space : (n : ℕ) → is_alnum n ≡ true → is_space n ≡ false
unfolding is_alnum is_space between
alnum-not-space n h = ground arith

strip_right-alnum : (s : String) → all_chars is_alnum s ≡ true → strip_right s ≡ s
unfolding strip_right all_chars
strip_right-alnum String.[] h = refl
strip_right-alnum (String.◌∷◌ c s) h =
    let head : is_alnum (code c) ≡ true = ground arith in
    rw (alnum-not-space (code c) head, strip_right-alnum s (ground arith)) refl

strip_left-alnum : (s : String) → all_chars is_alnum s ≡ true → strip_left s ≡ s
unfolding strip_left all_chars
strip_left-alnum String.[] h = refl
strip_left-alnum (String.◌∷◌ c s) h =
    let head : is_alnum (code c) ≡ true = ground arith in rw (alnum-not-space (code c) head) refl

-- There is nothing to strip from letters and digits.
pub strip-alnum : (s : String) → all_chars is_alnum s ≡ true → strip s ≡ s
unfolding strip
strip-alnum s h = ap strip_left (strip_right-alnum s h) ∙ strip_left-alnum s h
