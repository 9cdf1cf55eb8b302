-- ===== src/Str/Number.antt =====
-- `strtol` of lab8/libs/string.c: reading a number.
use nku_os.Base.{
  ℕ, zero, suc, ◌+◌, ◌-◌, ◌*◌, ◌^◌, ◌<◌, ◌≤◌, ◌≡◌, refl, Bool, true, false, not, ◌&&◌, ◌||◌, List,
  [], ◌∷◌, arith, Option, some, none, length, ◌==◌, ltb, leb, if◌then◌else◌, ◌∙◌, le→leb, lt→ltb,
  ◌>>=◌, ap, ◌⊎◌, inl, inr,
}
use nku_os.Str.{ℤ, pos, negsuc}

-- ' ' and a tab.
unfoldable pub skip_blanks : (fuel s : ℕ) → (ℕ → ℕ) → Option ℕ
skip_blanks zero s m = none
skip_blanks (suc n) s m =
    let rest = skip_blanks n (s + 1) m in if (m s == 32) || (m s == 9) then rest else some s

-- Whether there is a minus, and the address behind the sign.
unfoldable pub skip_sign : (s : ℕ) → (ℕ → ℕ) → Bool × ℕ
skip_sign s m =
    if m s == 43 then (false, s + 1) else if m s == 45 then (true, s + 1) else (false, s)

-- The address behind the prefix, and the base.
unfoldable pub skip_prefix : (s base : ℕ) → (ℕ → ℕ) → ℕ × ℕ
skip_prefix s base m =
    if ((base == 0) || (base == 16)) && ((m s == 48) && (m (s + 1) == 120))
    then (s + 2, 16)
    else if (base == 0) && (m s == 48)
    then (s + 1, 8)
    else if base == 0
    then (s, 10)
    else (s, base)

-- What a character counts as a digit.
unfoldable pub digit : ℕ → Option ℕ
digit c =
    if leb 48 c && leb c 57
    then some (c - 48)
    else if leb 97 c && leb c 122
    then some (c - 97 + 10)
    else if leb 65 c && leb c 90
    then some (c - 65 + 10)
    else none

-- The loop over the digits, with the address behind them and the value. A value that does not fit a
-- long is undefined in C, and `none` here.
unfoldable pub digits_loop : (fuel s base val : ℕ) → (ℕ → ℕ) → Option (ℕ × ℕ)
digits_loop zero s base val m = none
digits_loop (suc n) s base val m = elim (digit (m s)) [
  | none ↦ some (s, val)
  | some dig ↦
      if leb base dig
      then some (s, val)
      else if ltb (val * base + dig) (2 ^ 63)
      then digits_loop n (s + 1) base (val * base + dig) m
      else none
]

-- The address that goes to `endptr`, and the number.
unfoldable pub strtol : (fuel s base : ℕ) → (ℕ → ℕ) → Option (ℕ × ℤ)
unfolding skip_blanks skip_sign skip_prefix digits_loop
strtol fuel s base m = do
  s ← skip_blanks fuel s m
  let (neg, s) = skip_sign s m
  let (s, base) = skip_prefix s base m
  (end, val) ← digits_loop fuel s base 0 m
  some (end, if neg && not (val == 0) then negsuc (val - 1) else pos val)

-- A character is no decimal digit: it is no digit at all, or a letter, which counts as 10 or more.
abbrev pub NoDecimal : ℕ → Type 0
NoDecimal c = (digit c ≡ none) ⊎ ((dig : ℕ) × (digit c ≡ some dig) × (10 ≤ dig))

-- Decimal digits stand at `s`, and something else behind them.
abbrev pub Decimal : (ℕ → ℕ) → ℕ → List ℕ → Type 0
Decimal m s [] = NoDecimal (m s)
Decimal m s (d ∷ ds) = (m s ≡ 48 + d) × (d ≤ 9) × Decimal m (s + 1) ds

-- The number that the digits stand for, behind `val`.
abbrev pub number : ℕ → List ℕ → ℕ
number val [] = val
number val (d ∷ ds) = number (val * 10 + d) ds

number-grows : (val : ℕ) (ds : List ℕ) → val ≤ number val ds
number-grows val [] = omega arith
number-grows val (d ∷ ds) = omega (arith, number-grows (val * 10 + d) ds)

digit_decimal : (d : ℕ) → d ≤ 9 → digit (48 + d) ≡ some d
unfolding digit
digit_decimal d h =
    let lo : leb 48 (48 + d) ≡ true = le→leb 48 (48 + d) (omega arith) in
    let hi : leb (48 + d) 57 ≡ true = le→leb (48 + d) 57 (omega arith) in
    let e : 48 + d - 48 ≡ d = omega arith in rw (lo, hi, e) refl

digits_loop-number :
    (fuel s val : ℕ) (m : ℕ → ℕ) (ds : List ℕ)
    → Decimal m s ds
    → length ds < fuel
    → number val ds < 2 ^ 63
    → digits_loop fuel s 10 val m ≡ some (s + length ds, number val ds)
unfolding digits_loop
digits_loop-number zero s val m ds v fu small = absurd (omega arith)
digits_loop-number (suc n) s val m [] v fu small =
    let e : s + 0 ≡ s = omega arith in
    elim v [
      | inl other ↦ rw (digits_loop, other, e) refl
      | inr (dig, letter, large) ↦ rw (digits_loop, letter, le→leb 10 dig large, e) refl
    ]
digits_loop-number (suc n) s val m (d ∷ ds) v fu small =
    let dec : digit (m s) ≡ some d = ap digit v.0 ∙ digit_decimal d v.1 in
    let less : leb 10 d ≡ false = ground (arith, v.1) in
    let fits = lt→ltb (val * 10 + d) (2 ^ 63) (omega (arith, number-grows (val * 10 + d) ds)) in
    let e : s + 1 + length ds ≡ s + suc (length ds) = omega arith in
    rw
      (
        digits_loop,
        dec,
        less,
        fits,
        digits_loop-number n (s + 1) (val * 10 + d) m ds v.2 (omega arith) small,
        e,
      )
      refl

-- `strtol` in base 10 of decimal digits at `s`, at least one and followed by a character that is none,
-- such as a letter or the end, returns their number and the address behind them, given more rounds
-- than digits, when the number fits a long.
pub strtol_lem :
    (fuel s : ℕ) (m : ℕ → ℕ) (d : ℕ) (ds : List ℕ)
    → Decimal m s (d ∷ ds)
    → length (d ∷ ds) < fuel
    → number 0 (d ∷ ds) < 2 ^ 63
    → strtol fuel s 10 m ≡ some (s + length (d ∷ ds), pos (number 0 (d ∷ ds)))
unfolding strtol
strtol_lem zero s m d ds v fu small = absurd (omega arith)
strtol_lem (suc n) s m d ds v fu small =
    let blank : (m s == 32) ≡ false = ground (arith, v.0) in
    let tab : (m s == 9) ≡ false = ground (arith, v.0) in
    let plus : (m s == 43) ≡ false = ground (arith, v.0) in
    let minus : (m s == 45) ≡ false = ground (arith, v.0) in
    rw (blank, tab, plus, minus, digits_loop-number (suc n) s 0 m (d ∷ ds) v fu small) refl
