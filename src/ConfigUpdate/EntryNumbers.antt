-- ===== src/ConfigUpdate/EntryNumbers.antt =====
-- include/pef_config_update.hpp: `findEntryNo` reads the number back that src/pef_config.cpp puts into the path
-- of an object.
use Prim.Native.Char.{Char, code}
use Prim.Native.String.{[], ◌∷◌, ◌++◌}
use text.Mathlib.TextLemmas.{nil-append, cons-append}
use platform_event_filter.Common.{
  ℕ, zero, suc, ◌+◌, ◌-◌, ◌*◌, ◌/◌, ◌%◌, ◌<◌, ◌≤◌, ◌≡◌, refl, ap, ◌∙◌, arith, inl, inr, Bool-cases,
  true, false, ltb, String, ◌&◌, to_string,
}
use platform_event_filter.Common.Texts.{digit, to_string_from}
use platform_event_filter.Validation.{is_digit}
use platform_event_filter.ConfigUpdate.Entries.{
  is_separator, after_last, from_digit, atoi_from, find_entry_no,
}

-- Only digits.
abbrev Digits : String → Type 0
Digits [] = Unit
Digits (c ∷ s) = (is_digit (code c) ≡ true) × Digits s

one : (c : Char) (s : String) → (c ∷ []) ++ s ≡ c ∷ s
one c s = rw cons-append (ap (λ t. c ∷ t) (nil-append s))

-- A digit is a character with its code.
digit-form : (d : ℕ) (s : String) → d < 10 → (c : Char) × (digit d ++ s ≡ c ∷ s) × (code c ≡ 48 + d)
unfolding digit
digit-form zero s h = ("0", one "0" s, refl)
digit-form (suc zero) s h = ("1", one "1" s, refl)
digit-form (suc (suc zero)) s h = ("2", one "2" s, refl)
digit-form (suc (suc (suc zero))) s h = ("3", one "3" s, refl)
digit-form (suc (suc (suc (suc zero)))) s h = ("4", one "4" s, refl)
digit-form (suc (suc (suc (suc (suc zero))))) s h = ("5", one "5" s, refl)
digit-form (suc (suc (suc (suc (suc (suc zero)))))) s h = ("6", one "6" s, refl)
digit-form (suc (suc (suc (suc (suc (suc (suc zero))))))) s h = ("7", one "7" s, refl)
digit-form (suc (suc (suc (suc (suc (suc (suc (suc zero)))))))) s h = ("8", one "8" s, refl)
digit-form (suc (suc (suc (suc (suc (suc (suc (suc (suc zero))))))))) s h = ("9", one "9" s, refl)
digit-form (suc (suc (suc (suc (suc (suc (suc (suc (suc (suc d)))))))))) s h = absurd (omega arith)

is_digit-code : (c : ℕ) (d : ℕ) → d < 10 → c ≡ 48 + d → is_digit c ≡ true
is_digit-code c d h e = ground arith

-- A digit before a text.
digit-Digits : (d : ℕ) (s : String) → d < 10 → Digits s → Digits (digit d ++ s)
digit-Digits d s h k = let (c, e, f) = digit-form d s h in rw (e) (is_digit-code (code c) d h f, k)

atoi_from-digit :
    (v d : ℕ) (s : String) → d < 10 → atoi_from v (digit d ++ s) ≡ atoi_from (10 * v + d) s
unfolding atoi_from
atoi_from-digit v d s h =
    let (c, e, f) = digit-form d s h in
    let n : 10 * v + (code c - 48) ≡ 10 * v + d = omega arith in
    rw (e, is_digit-code (code c) d h f, n) refl

to_string_from-Digits : (fuel n : ℕ) (s : String) → Digits s → Digits (to_string_from fuel n s)
unfolding to_string_from
to_string_from-Digits zero n s h = h
to_string_from-Digits (suc fuel) n s h = elim (Bool-cases (ltb n 10)) [
  | inl e ↦ rw (e) (digit-Digits n s (ground arith) h)
  | inr e ↦ rw (e) (to_string_from-Digits fuel (n / 10) _ (digit-Digits (n % 10) s (omega arith) h))
]

-- With enough rounds the digits are those of the number.
atoi_from-to_string_from :
    (fuel n : ℕ) (s : String) → n < fuel → atoi_from 0 (to_string_from fuel n s) ≡ atoi_from n s
unfolding to_string_from
atoi_from-to_string_from zero n s h = absurd (omega arith)
atoi_from-to_string_from (suc fuel) n s h = elim (Bool-cases (ltb n 10)) [
  | inl e ↦
      let same : 10 * 0 + n ≡ n = omega arith in
      rw (e) (atoi_from-digit 0 n s (ground arith) ∙ ap (λ m. atoi_from m s) same)
  | inr e ↦
      let parts : 10 * (n / 10) + n % 10 ≡ n = omega arith in
      let large : 10 ≤ n = ground arith in
      rw (e) (
        atoi_from-to_string_from fuel (n / 10) (digit (n % 10) ++ s) (omega arith)
        ∙ atoi_from-digit (n / 10) (n % 10) s (omega arith)
        ∙ ap (λ m. atoi_from m s) parts)
]

after_last-append :
    (p s t : String) → after_last (p ++ s) (t ++ s) ≡ after_last s (after_last p t ++ s)
unfolding after_last
after_last-append [] s t = rw nil-append refl
after_last-append (c ∷ p) s t = elim (Bool-cases (is_separator (code c))) [
  | inl e ↦ rw (cons-append, after_last, e) (after_last-append p s p)
  | inr e ↦ rw (cons-append, after_last, e) (after_last-append p s t)
]

no_separator : (c : ℕ) → is_digit c ≡ true → is_separator c ≡ false
no_separator c h = ground arith

after_last-Digits : (s kept : String) → Digits s → after_last s kept ≡ kept
unfolding after_last
after_last-Digits [] kept h = refl
after_last-Digits (c ∷ s) kept h = rw (no_separator (code c) h.0) (after_last-Digits s kept h.1)

from_digit-Digits : (s : String) → Digits s → from_digit s ≡ s
unfolding from_digit
from_digit-Digits [] h = refl
from_digit-Digits (c ∷ s) h = rw (h.0) refl

abbrev pub NoDigits : String → Type 0
NoDigits [] = Unit
NoDigits (c ∷ s) = (is_digit (code c) ≡ false) × NoDigits s

from_digit-append : (p s : String) → NoDigits p → from_digit (p ++ s) ≡ from_digit s
unfolding from_digit
from_digit-append [] s h = rw nil-append refl
from_digit-append (c ∷ p) s h = rw (cons-append, from_digit, h.0) (from_digit-append p s h.1)

-- The number of an object's path, if the last part before it has no digit.
pub find_entry_no-to_string :
    (p : String) → NoDigits (after_last p p) → (n : ℕ) → find_entry_no (p & to_string n) ≡ n
unfolding find_entry_no to_string
find_entry_no-to_string p h n =
    let s : String = to_string_from (suc n) n "" in
    let digits : Digits s = to_string_from-Digits (suc n) n "" tt in
    ap (λ t. atoi_from 0 (from_digit t))
      (after_last-append p s p ∙ after_last-Digits s (after_last p p ++ s) digits)
    ∙ ap (atoi_from 0) (from_digit-append (after_last p p) s h ∙ from_digit-Digits s digits)
    ∙ atoi_from-to_string_from (suc n) n "" (omega arith)
