-- ===== src/Base/Slices.antt =====
-- LIMIT and OFFSET on lists.
use Prim.Native.Nat.{ℕ, zero, suc, ◌+◌, ◌*◌, ◌≤◌, ◌<◌}
use mathlib.Core.Path.{◌≡◌, refl, sym, ap, ◌∙◌}
use mathlib.Core.List.{List, [], ◌∷◌, ◌++◌}
use native.Mathlib.Omega.{arith}
use workspaces_backend.Base.Lists.{length, take, drop}

shift : (a b : ℕ) → suc a + b ≡ suc (a + b)
shift a b = omega arith

module _ {A : Type 0} where
  pub drop_nil : (n : ℕ) → drop {A = A} n [] ≡ []
  drop_nil zero = refl
  drop_nil (suc n) = refl

  pub take_nil : (n : ℕ) → take {A = A} n [] ≡ []
  take_nil zero = refl
  take_nil (suc n) = refl

  pub drop-plus : (a b : ℕ) (xs : List A) → drop (a + b) xs ≡ drop b (drop a xs)
  drop-plus zero b xs = ap (λ n. drop n xs) (omega arith)
  drop-plus (suc a) b [] = drop_nil (suc a + b) ∙ sym (drop_nil b)
  drop-plus (suc a) b (x ∷ xs) = ap (λ n. drop n (x ∷ xs)) (shift a b) ∙ drop-plus a b xs

  pub take-plus : (a b : ℕ) (xs : List A) → take (a + b) xs ≡ take a xs ++ take b (drop a xs)
  take-plus zero b xs = ap (λ n. take n xs) (omega arith)
  take-plus (suc a) b [] = take_nil (suc a + b) ∙ sym (take_nil b)
  take-plus (suc a) b (x ∷ xs) =
      ap (λ n. take n (x ∷ xs)) (shift a b) ∙ ap (λ r. x ∷ r) (take-plus a b xs)

  pub take-all : (n : ℕ) (xs : List A) → length xs ≤ n → take n xs ≡ xs
  take-all zero [] h = refl
  take-all zero (x ∷ xs) h = absurd (omega (arith, h))
  take-all (suc n) [] h = refl
  take-all (suc n) (x ∷ xs) h = ap (λ r. x ∷ r) (take-all n xs (omega (arith, h)))

pub product : (m s : ℕ) → (m + 1) * s ≡ m * s + s
product m s = omega arith

pub no_product : (s : ℕ) → 0 * s ≡ 0
no_product s = omega arith

pub next_product : (count s : ℕ) → suc count * s ≡ s + count * s
next_product count s = omega arith

module _ {A : Type 0} where
  pub take-drop : (n : ℕ) (xs : List A) → take n xs ++ drop n xs ≡ xs
  take-drop zero xs = refl
  take-drop (suc n) [] = refl
  take-drop (suc n) (x ∷ xs) = ap (λ r. x ∷ r) (take-drop n xs)

  -- A short slice is the last one.
  pub length-take : (n : ℕ) (xs : List A) → length (take n xs) < n → length xs < n
  length-take zero xs h = omega (arith, h)
  length-take (suc n) [] h = omega arith
  length-take (suc n) (x ∷ xs) h = omega (arith, length-take n xs (omega (arith, h)))

  pub length-drop :
      (n : ℕ) (xs : List A) → n ≤ length (take n xs) → length (drop n xs) + n ≡ length xs
  length-drop zero xs h = omega arith
  length-drop (suc n) [] h = absurd (omega (arith, h))
  length-drop (suc n) (x ∷ xs) h = omega (arith, length-drop n xs (omega (arith, h)))
