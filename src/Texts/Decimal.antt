-- ===== src/Texts/Decimal.antt =====
-- `strconv.ParseInt(s, 10, 64)` as far as it gives a number above zero, and `fmt.Sprintf("%d", n)`.
use cartolensia.Prelude.{
  ℕ, zero, suc, ◌+◌, ◌-◌, ◌*◌, ◌/◌, ◌%◌, ◌^◌, ◌<◌, Bool, true, false, ◌&&◌, Option, none, some, [],
  ◌∷◌, ◌++◌, ◌≡◌, refl, arith, ltb, leb, eqb, inl, inr, Text, text_eq, ◌==◌, all, All, All-append,
  if◌then◌else◌, Bool-cases,
}

unfoldable pub is_digit : ℕ → Bool
is_digit c = leb b'0' c && leb c b'9'

abbrev read_from : ℕ → Text → ℕ
read_from n [] = n
read_from n (c ∷ s) = read_from (n * 10 + (c - b'0')) s

-- The number that the digits write.
unfoldable pub number_of : Text → ℕ
number_of s = read_from 0 s

abbrev without_plus : Text → Text
without_plus [] = []
without_plus (c ∷ s) = if eqb c b'+' then s else c ∷ s

-- What strconv.ParseInt(s, 10, 64) reads, if it is above zero.
unfoldable pub parse_positive : Text → Option ℕ
unfolding is_digit number_of
parse_positive s =
    let t = without_plus s in
    if t == []
    then none
    else if all is_digit t && ltb 0 (number_of t) && ltb (number_of t) (2 ^ 63)
    then some (number_of t)
    else none

abbrev pub digits_within : ℕ → ℕ → Text
digits_within zero n = []
digits_within (suc fuel) n =
    let front = digits_within fuel (n / 10) in
    if ltb n 10 then (b'0' + n) ∷ [] else front ++ ((b'0' + n % 10) ∷ [])

-- The decimal digits of a number; it has no more of them than one more than itself.
unfoldable pub digits : ℕ → Text
digits n = digits_within (suc n) n

-- fmt.Sprintf("%d", int64(n)) for a product that wraps around at 64 bits
unfoldable pub print_int64 : ℕ → Text
unfolding digits
print_int64 n =
    if ltb (n % 2 ^ 64) (2 ^ 63) then digits (n % 2 ^ 64) else b'-' ∷ digits (2 ^ 64 - n % 2 ^ 64)

read_from-append :
    (n : ℕ) (s : Text) (c : ℕ) → read_from n (s ++ (c ∷ [])) ≡ read_from n s * 10 + (c - b'0')
read_from-append n [] c = refl
read_from-append n (d ∷ s) c = read_from-append (n * 10 + (d - b'0')) s c

read_from-digits_within : (fuel n : ℕ) → n < fuel → read_from 0 (digits_within fuel n) ≡ n
read_from-digits_within zero n h = omega (arith, h)
read_from-digits_within (suc fuel) n h = elim (Bool-cases (ltb n 10)) [
  | inl b ↦ rw b (omega arith)
  | inr b ↦
      let smaller : n / 10 < fuel = ground arith in
      rw
        (
          b,
          read_from-append 0 (digits_within fuel (n / 10)) (b'0' + n % 10),
          read_from-digits_within fuel (n / 10) smaller,
        )
        (omega arith)
]

-- The digits of a number write that number.
pub number_of-digits : (n : ℕ) → number_of (digits n) ≡ n
unfolding number_of digits
number_of-digits n = read_from-digits_within (suc n) n (omega arith)

digits_within-All_is_digit : (fuel n : ℕ) → All (λ c. is_digit c ≡ true) (digits_within fuel n)
unfolding is_digit
digits_within-All_is_digit zero n = tt
digits_within-All_is_digit (suc fuel) n = elim (Bool-cases (ltb n 10)) [
  | inl b ↦ rw b (ground arith, tt)
  | inr b ↦ rw b (
      All-append (λ c. is_digit c ≡ true) (digits_within fuel (n / 10)) ((b'0' + n % 10) ∷ [])
        (digits_within-All_is_digit fuel (n / 10)) (ground arith, tt))
]

-- The digits of a number are digits.
pub digits-All_is_digit : (n : ℕ) → All (λ c. is_digit c ≡ true) (digits n)
unfolding digits
digits-All_is_digit n = digits_within-All_is_digit (suc n) n

append_one-not_empty : (s : Text) (c : ℕ) → ((s ++ (c ∷ [])) == []) ≡ false
append_one-not_empty [] c = refl
append_one-not_empty (d ∷ s) c = refl

digits-not_empty : (n : ℕ) → (digits n == []) ≡ false
unfolding digits
digits-not_empty n = elim (Bool-cases (ltb n 10)) [
  | inl b ↦ rw b refl
  | inr b ↦ rw b (append_one-not_empty (digits_within n (n / 10)) (b'0' + n % 10))
]

all-of_All : (s : Text) → All (λ c. is_digit c ≡ true) s → all is_digit s ≡ true
all-of_All [] h = refl
all-of_All (c ∷ s) (h, rest) = rw (h, all-of_All s rest) refl

without_plus-digits : (s : Text) → All (λ c. is_digit c ≡ true) s → without_plus s ≡ s
unfolding is_digit
without_plus-digits [] h = refl
without_plus-digits (c ∷ s) (h, rest) = ground (arith, h)

-- `ParseInt` reads back the digits of a number above zero that fits 64 bits with their sign.
pub parse_positive-digits : (n : ℕ) → 0 < n → n < 2 ^ 63 → parse_positive (digits n) ≡ some n
unfolding parse_positive
parse_positive-digits n above below =
    let are = digits-All_is_digit n in
    rw
      (
        parse_positive,
        without_plus-digits (digits n) are,
        digits-not_empty n,
        all-of_All (digits n) are,
        number_of-digits n,
      )
      (ground (arith, above, below))

-- A number that fits is printed as its digits.
pub print_int64-digits : (n : ℕ) → n < 2 ^ 63 → print_int64 n ≡ digits n
unfolding print_int64
print_int64-digits n below =
    let same : n % 2 ^ 64 ≡ n = omega (arith, below) in
    let fits : ltb (n % 2 ^ 64) (2 ^ 63) ≡ true = ground (arith, same, below) in
    rw (print_int64, fits, same) refl
