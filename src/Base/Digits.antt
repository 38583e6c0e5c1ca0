-- ===== src/Base/Digits.antt =====
-- Decimal numerals of a fixed width, most significant digit first: Python's `f"{n:0{w}d}"` for a
-- number below `10 ** w`, `str.isdigit` on ASCII text, and `int` of such a text.
use native.Mathlib.Nat.{pow-suc}
use mathlib.Core.List.{append_assoc}
use cometa_backend.Base.{
  ℕ, zero, suc, ◌+◌, ◌-◌, ◌*◌, ◌/◌, ◌%◌, ◌^◌, ◌<◌, ◌≡◌, refl, sym, ap, ◌∙◌, Bool, true, false, ◌&&◌,
  [], ◌∷◌, ◌++◌, arith, length, leb, ltb, ◌==◌, if◌then◌else◌,
}
use cometa_backend.Base.Text.{Text, text_lt, contains}

-- The numeral in front of a text.
unfoldable pub fixed_decimal : ℕ → ℕ → Text → Text
fixed_decimal zero n rest = rest
fixed_decimal (suc w) n rest = fixed_decimal w (n / 10) ((48 + n % 10) ∷ rest)

abbrev pub is_digit : ℕ → Bool
is_digit c = leb 48 c && leb c 57

all_digits : Text → Bool
all_digits [] = true
all_digits (c ∷ cs) = is_digit c && all_digits cs

-- `s.isdigit()`: false on the empty text
unfoldable pub isdigit : Text → Bool
unfolding all_digits
isdigit [] = false
isdigit (c ∷ cs) = all_digits (c ∷ cs)

unfoldable pub parse_from : ℕ → Text → ℕ
parse_from acc [] = acc
parse_from acc (c ∷ cs) = parse_from (acc * 10 + (c - 48)) cs

-- `int(s)` of a text of digits
abbrev pub parse : Text → ℕ
parse s = parse_from 0 s

pub fixed_decimal-append : (w n : ℕ) (s : Text) → fixed_decimal w n s ≡ fixed_decimal w n [] ++ s
unfolding fixed_decimal
fixed_decimal-append zero n s = refl
fixed_decimal-append (suc w) n s =
    rw
      (
        fixed_decimal-append w (n / 10) ((48 + n % 10) ∷ s),
        fixed_decimal-append w (n / 10) ((48 + n % 10) ∷ []),
      )
      (sym (append_assoc (fixed_decimal w (n / 10) []) ((48 + n % 10) ∷ []) s))

pub length-fixed_decimal : (w n : ℕ) (s : Text) → length (fixed_decimal w n s) ≡ w + length s
unfolding fixed_decimal
length-fixed_decimal zero n s = omega arith
length-fixed_decimal (suc w) n s =
    omega (arith, length-fixed_decimal w (n / 10) ((48 + n % 10) ∷ s))

all_digits-fixed_decimal :
    (w n : ℕ) (s : Text) → all_digits s ≡ true → all_digits (fixed_decimal w n s) ≡ true
unfolding fixed_decimal all_digits
all_digits-fixed_decimal zero n s h = h
all_digits-fixed_decimal (suc w) n s h =
    all_digits-fixed_decimal w (n / 10) ((48 + n % 10) ∷ s) (ground arith)

isdigit-nonempty : (s : Text) → 0 < length s → all_digits s ≡ true → isdigit s ≡ true
unfolding isdigit
isdigit-nonempty [] h d = absurd (omega arith)
isdigit-nonempty (c ∷ cs) h d = d

pub isdigit-fixed_decimal : (w n : ℕ) → isdigit (fixed_decimal (suc w) n []) ≡ true
unfolding all_digits
isdigit-fixed_decimal w n =
    isdigit-nonempty (fixed_decimal (suc w) n []) (omega (arith, length-fixed_decimal (suc w) n []))
      (all_digits-fixed_decimal (suc w) n [] refl)

-- A separator that is no digit is not in a numeral.
pub contains-fixed_decimal :
    (c w n : ℕ) (s : Text) → 57 < c → contains c (fixed_decimal w n s) ≡ contains c s
unfolding fixed_decimal contains
contains-fixed_decimal c zero n s h = refl
contains-fixed_decimal c (suc w) n s h =
    contains-fixed_decimal c w (n / 10) ((48 + n % 10) ∷ s) h ∙ ground arith

parse_from-fixed_decimal :
    (acc w n : ℕ) (s : Text)
    → n < 10 ^ w
    → parse_from acc (fixed_decimal w n s) ≡ parse_from (acc * 10 ^ w + n) s
unfolding fixed_decimal parse_from
parse_from-fixed_decimal acc zero n s h = ap (λ (k : ℕ). parse_from k s) (omega arith)
parse_from-fixed_decimal acc (suc w) n s h =
    parse_from-fixed_decimal acc w (n / 10) ((48 + n % 10) ∷ s) (omega (arith, pow-suc 10 w))
    ∙ ap (λ (k : ℕ). parse_from k s)
        (omega (arith, pow-suc 10 w, ap (λ (k : ℕ). acc * k) (pow-suc 10 w)))

-- `int` undoes the format.
pub parse-fixed_decimal : (w n : ℕ) → n < 10 ^ w → parse (fixed_decimal w n []) ≡ n
unfolding parse_from
parse-fixed_decimal w n h = parse_from-fixed_decimal 0 w n [] h ∙ omega arith

-- Texts that begin with numerals of one width compare by the numbers first.
pub text_lt-fixed_decimal :
    (w a b : ℕ) (s t : Text)
    → a < 10 ^ w
    → b < 10 ^ w
    → text_lt (fixed_decimal w a s) (fixed_decimal w b t)
      ≡ (if ltb a b then true else a == b && text_lt s t)
unfolding fixed_decimal text_lt
text_lt-fixed_decimal zero a b s t h k = ground arith
text_lt-fixed_decimal (suc w) a b s t h k =
    text_lt-fixed_decimal w (a / 10) (b / 10) ((48 + a % 10) ∷ s) ((48 + b % 10) ∷ t)
      (omega (arith, pow-suc 10 w)) (omega (arith, pow-suc 10 w))
    ∙ ground arith
