-- ===== src/App/Config/Decimal.antt =====
-- Numbers in decimal, as `parse_long` of src/app/app_config.c reads them.
use ideal_broccoli.Base.{
  ℕ, zero, suc, ◌+◌, ◌-◌, ◌*◌, ◌/◌, ◌%◌, ◌^◌, ◌≤◌, ◌<◌, ◌≡◌, refl, sym, ap, ◌∙◌, true, false,
  Bool-cases, inl, inr, some, List, [], ◌∷◌, ◌++◌, arith, ltb, ◌==◌, if◌then◌else◌,
}
use mathlib.Core.List.{append-nil, append_assoc}
use ideal_broccoli.Base.Strtol.{
  is_digit, is_space, digits, skip_spaces, sign, starts_with_digit, strtol,
}
use ideal_broccoli.App.Config.{parse_long}

-- There are no more digits than the rounds that are given.
decimal_on : ℕ → ℕ → List ℕ
decimal_on zero n = (b'0' + n % 10) ∷ []
decimal_on (suc k) n =
    let front = decimal_on k (n / 10) in
    if ltb n 10 then (b'0' + n) ∷ [] else front ++ (b'0' + n % 10) ∷ []

pub decimal : ℕ → List ℕ
decimal n = decimal_on n n

digits_step : (a d : ℕ) (ys : List ℕ) → d < 10 → digits a ((b'0' + d) ∷ ys) ≡ digits (a * 10 + d) ys
unfolding digits
digits_step a d ys small =
    let test : is_digit (48 + d) ≡ true = ground arith in
    let value : 48 + d - 48 ≡ d = omega arith in rw (digits, test, value) refl

digits-decimal_on :
    (k n : ℕ) (ys : List ℕ) → n < k + 10 → digits 0 (decimal_on k n ++ ys) ≡ digits n ys
unfolding decimal_on
digits-decimal_on zero n ys small =
    digits_step 0 (n % 10) ys (omega arith) ∙ ap (λ m. digits m ys) (omega (arith, small))
digits-decimal_on (suc k) n ys small = elim (Bool-cases (ltb n 10)) [
  | inl e ↦
      rw (decimal_on, e)
        (digits_step 0 n ys (ground (arith, e)) ∙ ap (λ m. digits m ys) (omega arith))
  | inr e ↦
      let big : 10 ≤ n = ground (arith, e) in
      rw (decimal_on, e)
        (ap (digits 0) (append_assoc (decimal_on k (n / 10)) ((b'0' + n % 10) ∷ []) ys)
          ∙ digits-decimal_on k (n / 10) ((b'0' + n % 10) ∷ ys) (omega (arith, big, small))
          ∙ digits_step (n / 10) (n % 10) ys (omega arith)
          ∙ ap (λ m. digits m ys) (omega arith))
]

-- The first byte is a digit.
abbrev Leads : List ℕ → Type 0
Leads cs = starts_with_digit cs ≡ true

Leads-append : (xs ys : List ℕ) → Leads xs → Leads (xs ++ ys)
unfolding starts_with_digit
Leads-append [] ys h = cc h
Leads-append (x ∷ xs) ys h = h

decimal_on-Leads : (k n : ℕ) → Leads (decimal_on k n)
unfolding decimal_on starts_with_digit
decimal_on-Leads zero n = ground arith
decimal_on-Leads (suc k) n = elim (Bool-cases (ltb n 10)) [
  | inl e ↦ rw (decimal_on, e) (ground (arith, e))
  | inr e ↦
      rw (decimal_on, e)
        (Leads-append (decimal_on k (n / 10)) ((b'0' + n % 10) ∷ []) (decimal_on-Leads k (n / 10)))
]

-- A text that is read as a number up to its end.
parse_long_lem :
    (n : ℕ) (cs : List ℕ) → Leads cs → digits 0 cs ≡ (n, []) → n < 2 ^ 63 → parse_long cs ≡ some n
unfolding parse_long strtol skip_spaces sign starts_with_digit
parse_long_lem n [] h e small = cc h
parse_long_lem n (c ∷ cs) h e small =
    let no_space : is_space c ≡ false = ground (arith, h) in
    let no_minus : (c == b'-') ≡ false = ground (arith, h) in
    let no_plus : (c == b'+') ≡ false = ground (arith, h) in
    let below : ltb (2 ^ 63 - 1) n ≡ false = ground (arith, small) in
    rw
      (
        parse_long, strtol, skip_spaces, no_space, sign, no_minus, no_plus, starts_with_digit, h, e,
        below,
      )
      refl

pub parse_long-decimal : (n : ℕ) → n < 2 ^ 63 → parse_long (decimal n) ≡ some n
unfolding decimal digits
parse_long-decimal n small =
    parse_long_lem n (decimal_on n n) (decimal_on-Leads n n)
      (ap (digits 0) (sym (append-nil (decimal_on n n))) ∙ digits-decimal_on n n [] (omega arith))
      small
