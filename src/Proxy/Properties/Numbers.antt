-- ===== src/Proxy/Properties/Numbers.antt =====
-- Numbers printed by `str` and read back by `int` and by the path pattern (Proxy/Text, Proxy/Paths).
use workspaces_backend.Base.{
  ℕ, zero, suc, ◌+◌, ◌*◌, ◌/◌, ◌%◌, ◌<◌, ◌≡◌, refl, ap, ◌∙◌, pos, Bool, true, false, ltb, leb, ◌==◌,
  ◌&&◌, List, [], ◌∷◌, Option, none, some, Bool-cases, inl, inr, arith, All, if◌then◌else◌,
  is_space, lstrip, strip,
}
use mathlib.Core.List.{reverse, reverse_aux, reverse-reverse}
use workspaces_backend.Security.Credentials.{decimal}
use workspaces_backend.Proxy.Text.{digits_of, str_of, int_tail, python_int, signed, positive}
use workspaces_backend.Proxy.Paths.{prefix_tail, prefix_digits, with_number, slashed, line}

abbrev pub is_digit : ℕ → Bool
is_digit c = leb 48 c && leb c 57

digit_of_mod : (n : ℕ) → is_digit (48 + n % 10) ≡ true
digit_of_mod n = ground arith

module _ (others : ℕ → Option ℕ) where
  decimal-digit : (n : ℕ) → decimal others (48 + n % 10) ≡ some (n % 10)
  decimal-digit n = ground arith

  int_tail-digit :
      (after : Bool) (value n : ℕ) (s : List ℕ)
      → int_tail others after value ((48 + n % 10) ∷ s)
        ≡ int_tail others true (10 * value + n % 10) s
  unfolding int_tail
  int_tail-digit after value n s =
      ap
        (λ o. elim o as (λ _. Option ℕ) [
          | some d ↦ int_tail others true (10 * value + d) s
          | none ↦ if after && (48 + n % 10) == 95 then int_tail others false value s else none
        ])
        (decimal-digit n)

  prefix_tail-digit :
      (value n : ℕ) (s : List ℕ)
      → prefix_tail others value ((48 + n % 10) ∷ s) ≡ prefix_tail others (10 * value + n % 10) s
  unfolding prefix_tail
  prefix_tail-digit value n s =
      ap
        (λ o. elim o as (λ _. Option (ℕ × List ℕ)) [
          | some d ↦ prefix_tail others (10 * value + d) s
          | none ↦ if (48 + n % 10) == 47 then with_number value (slashed (line s)) else none
        ])
        (decimal-digit n)

  prefix_digits-digit :
      (n : ℕ) (s : List ℕ)
      → prefix_digits others ((48 + n % 10) ∷ s) ≡ prefix_tail others (n % 10) s
  unfolding prefix_digits
  prefix_digits-digit n s =
      ap
        (λ o. elim o as (λ _. Option (ℕ × List ℕ)) [
          | some d ↦ prefix_tail others d s
          | none ↦ none
        ])
        (decimal-digit n)

  -- The digits in front of a text are read as the number, whatever follows.
  pub int_tail-digits_of :
      (fuel n : ℕ) (after : Bool) (acc : List ℕ)
      → n < fuel
      → int_tail others after 0 (digits_of fuel n acc) ≡ int_tail others true n acc
  unfolding int_tail digits_of
  int_tail-digits_of zero n after acc h = elim h [ ]
  int_tail-digits_of (suc fuel) n after acc h = elim (Bool-cases (ltb n 10)) [
    | inl small ↦
        let same : 10 * 0 + n % 10 ≡ n = ground (arith, small) in
        rw small (int_tail-digit after 0 n acc ∙ ap (λ v. int_tail others true v acc) same)
    | inr large ↦
        let whole : 10 * (n / 10) + n % 10 ≡ n = omega arith in
        rw large (
          int_tail-digits_of fuel (n / 10) after ((48 + n % 10) ∷ acc) (ground (arith, large, h))
          ∙ int_tail-digit true (n / 10) n acc
          ∙ ap (λ v. int_tail others true v acc) whole)
  ]

  prefix_tail-slash :
      (n : ℕ) (q : List ℕ) → prefix_tail others n (47 ∷ q) ≡ with_number n (slashed (line q))
  unfolding prefix_tail
  prefix_tail-slash n q = refl

  -- The path pattern reads the same number, up to the slash.
  prefix_digits-digits_of :
      (fuel n : ℕ) (acc : List ℕ)
      → n < fuel
      → prefix_digits others (digits_of fuel n acc) ≡ prefix_tail others n acc
  unfolding digits_of
  prefix_digits-digits_of zero n acc h = elim h [ ]
  prefix_digits-digits_of (suc fuel) n acc h = elim (Bool-cases (ltb n 10)) [
    | inl small ↦
        let same : n % 10 ≡ n = ground (arith, small) in
        rw small (prefix_digits-digit n acc ∙ ap (λ v. prefix_tail others v acc) same)
    | inr large ↦
        let whole : 10 * (n / 10) + n % 10 ≡ n = omega arith in
        rw large (
          prefix_digits-digits_of fuel (n / 10) ((48 + n % 10) ∷ acc) (ground (arith, large, h))
          ∙ prefix_tail-digit (n / 10) n acc
          ∙ ap (λ v. prefix_tail others v acc) whole)
  ]

  -- A prefix with a number that `str` prints.
  pub prefix_digits-str_of :
      (n : ℕ) (q : List ℕ)
      → line q ≡ some q
      → prefix_digits others (str_of n (47 ∷ q)) ≡ some (n, 47 ∷ q)
  unfolding str_of
  prefix_digits-str_of n q h =
      prefix_digits-digits_of (suc n) n (47 ∷ q) (omega arith)
      ∙ prefix_tail-slash n q
      ∙ ap (λ o. with_number n (slashed o)) h

abbrev AllDigits : List ℕ → Type 0
AllDigits = All (λ c. is_digit c ≡ true)

digits_of-AllDigits : (fuel n : ℕ) (acc : List ℕ) → AllDigits acc → AllDigits (digits_of fuel n acc)
unfolding digits_of
digits_of-AllDigits zero n acc h = h
digits_of-AllDigits (suc fuel) n acc h = elim (Bool-cases (ltb n 10)) [
  | inl small ↦ rw small (digit_of_mod n, h)
  | inr large ↦ rw large (digits_of-AllDigits fuel (n / 10) _ (digit_of_mod n, h))
]

All-reverse_aux : (xs ys : List ℕ) → AllDigits xs → AllDigits ys → AllDigits (reverse_aux xs ys)
All-reverse_aux [] ys h k = k
All-reverse_aux (x ∷ xs) ys h k = All-reverse_aux xs (x ∷ ys) h.1 (h.0, k)

digit-space : (c : ℕ) → is_digit c ≡ true → is_space c ≡ false
digit-space c h = ground (arith, h)

lstrip-digits : (xs : List ℕ) → AllDigits xs → lstrip xs ≡ xs
lstrip-digits [] h = refl
lstrip-digits (c ∷ xs) h = rw (digit-space c h.0) refl

strip-digits : (xs : List ℕ) → AllDigits xs → strip xs ≡ xs
strip-digits xs h =
    ap (λ s. reverse (lstrip (reverse s))) (lstrip-digits xs h)
    ∙ ap reverse (lstrip-digits (reverse xs) (All-reverse_aux xs [] h tt))
    ∙ reverse-reverse xs

signed-digits :
    (others : ℕ → Option ℕ) (xs : List ℕ)
    → AllDigits xs
    → signed others xs ≡ positive others (int_tail others false 0 xs)
unfolding int_tail
signed-digits others [] h = refl
signed-digits others (c ∷ xs) h =
    let plus : (c == 43) ≡ false = ground (arith, h.0) in
    let minus : (c == 45) ≡ false = ground (arith, h.0) in rw (plus, minus) refl

-- A number that `str` prints is the number that `int` reads, whatever digits outside ASCII there are.
pub python_int-str_of :
    (others : ℕ → Option ℕ) (n : ℕ) → python_int others (str_of n []) ≡ some (pos n)
unfolding python_int str_of int_tail
python_int-str_of others n =
    let digits = digits_of-AllDigits (suc n) n [] tt in
    ap (signed others) (strip-digits (digits_of (suc n) n []) digits)
    ∙ signed-digits others (digits_of (suc n) n []) digits
    ∙ ap (positive others) (int_tail-digits_of others (suc n) n false [] (omega arith) ∙ read)
  where
    read : int_tail others true n [] ≡ some n
    read = refl
