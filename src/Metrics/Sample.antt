-- ===== src/Metrics/Sample.antt =====
-- What the telemetry takes from the C++ library, on concrete numbers: thousandths for `double`, and
-- decimal texts.
use sequitur.Prelude.{
  ℕ, zero, suc, ◌+◌, ◌*◌, ◌/◌, ◌%◌, ◌≤◌, refl, List, [], ◌∷◌, ◌++◌, ltb, ◌==◌, if◌then◌else◌,
  length, length-append, Bool-cases, inl, inr, arith,
}
use sequitur.Metrics.{Double}
use sequitur.Metrics.Message.{Charconv}
use sequitur.Metrics.Text.{IsCharconv, place}
use sequitur.Metrics.Report.{IsShort}

abbrev pub thousandths : Double
thousandths = record {
  Carrier = ℕ;
  from_uint64 = λ n. n * 1000;
  to_uint64 = λ x. x / 1000;
  multiply = λ x y. x * y / 1000;
  divide = λ x y. if y == 0 then 0 else x * 1000 / y;
  nought = 0;
  one = 1000;
  half = 500;
  most = 990;
  nearly_all = 999;
}

-- The digits of a number, `n` of them at most.
unfoldable pub digits_of : ℕ → ℕ → List ℕ
digits_of zero value = []
digits_of (suc n) value =
    let front = digits_of n (value / 10) in
    (if ltb value 10 then [] else front) ++ (48 + value % 10) ∷ []

unfoldable pub digits : ℕ → List ℕ
digits value = digits_of 20 value

unfoldable pub fixed : ℕ → List ℕ
unfolding digits
fixed x =
    digits (x / 1000) ++ 46 ∷ (48 + x / 100 % 10) ∷ (48 + x / 10 % 10) ∷ (48 + x % 10) ∷ 48 ∷ []

abbrev pub charconv : Charconv ℕ
charconv = record { put_unsigned = λ n. place (digits n); put_fixed4 = λ x. place (fixed x) }

digits_of-short : (n value : ℕ) → length (digits_of n value) ≤ n
unfolding digits_of
digits_of-short zero value = omega arith
digits_of-short (suc n) value = elim (Bool-cases (ltb value 10)) [
  | inl one_digit ↦ rw one_digit (omega arith)
  | inr more ↦ rw more (
      omega (
        arith,
        digits_of-short n (value / 10),
        length-append (digits_of n (value / 10)) ((48 + value % 10) ∷ []),
      ))
]

fixed_short : (x : ℕ) → length (fixed x) ≤ 25
unfolding fixed digits
fixed_short x = omega (
  arith,
  digits_of-short 20 (x / 1000),
  length-append (digits (x / 1000))
      (46 ∷ (48 + x / 100 % 10) ∷ (48 + x / 10 % 10) ∷ (48 + x % 10) ∷ 48 ∷ []),
)

pub charconv-IsCharconv : IsCharconv charconv digits fixed
unfolding digits
charconv-IsCharconv = record {
  puts_digits = λ n b h. refl;
  puts_fixed = λ x b h. refl;
  digits_short = λ n h. digits_of-short 20 n;
}

pub thousandths-IsShort : IsShort thousandths digits fixed
thousandths-IsShort = record {
  quotient = λ a b h p q. fixed_short (thousandths.divide (a * 1000) (b * 1000));
  nought = fixed_short 0;
  one = fixed_short 1000;
}
