-- ===== src/Base/Rows.antt =====
-- Counting rows, and keys that no two rows share.
use Prim.Native.Nat.{ℕ, ◌+◌, ◌≤◌, ◌<◌}
use mathlib.Core.Path.{◌≡◌, refl, sym, subst, ap}
use mathlib.Core.Bool.{Bool, true, false}
use mathlib.Core.Logic.{◌≢◌, inl, inr}
use mathlib.Core.List.{List, [], ◌∷◌, ◌++◌}
use native.Mathlib.Omega.{arith}
use workspaces_backend.Base.Tests.{Bool-cases}
use workspaces_backend.Base.Lists.{
  length, filter, update_where, delete_where, any, All, All-map, All-filter, filter-eq-nil,
  All-delete_where, All-append,
}

module _ {ℓ} {A : Type ℓ} (q : A → Bool) where
  -- An update that makes no row satisfy a condition that it did not satisfy.
  pub length-filter-update_where :
      (p : A → Bool) (f : A → A)
      → ((x : A) → q (f x) ≡ true → q x ≡ true)
      → (xs : List A) → length (filter q (update_where p f xs)) ≤ length (filter q xs)
  length-filter-update_where p f k [] = omega arith
  length-filter-update_where p f k (x ∷ xs) =
      ground (arith, k x, length-filter-update_where p f k xs)

  pub length-filter-delete_where :
      (p : A → Bool) (xs : List A) → length (filter q (delete_where p xs)) ≤ length (filter q xs)
  length-filter-delete_where p [] = omega arith
  length-filter-delete_where p (x ∷ xs) = ground (arith, length-filter-delete_where p xs)

  pub length-filter-append :
      (xs ys : List A) → length (filter q (xs ++ ys)) ≡ length (filter q xs) + length (filter q ys)
  length-filter-append [] ys = omega arith
  length-filter-append (x ∷ xs) ys = ground (arith, length-filter-append xs ys)

  pub any-eq-false : (xs : List A) → any q xs ≡ false → All (λ x. q x ≡ false) xs
  any-eq-false [] h = tt
  any-eq-false (x ∷ xs) h = (ground arith, any-eq-false xs (ground arith))

  pub length-filter_none : (xs : List A) → any q xs ≡ false → length (filter q xs) ≡ 0
  length-filter_none [] h = refl
  length-filter_none (x ∷ xs) h = ground (arith, length-filter_none xs)

  -- Where a SELECT returns one row, every row that satisfies its condition is that one.
  pub filter_single :
      (xs : List A) (y : A) → filter q xs ≡ y ∷ [] → All (λ x. q x ≡ true → x ≡ y) xs
  filter_single [] y h = tt
  filter_single (x ∷ xs) y h = elim (Bool-cases (q x)) [
    | inl e ↦ (
      λ _. cc (rw e at h),
      All-map (λ z. q z ≡ false) (λ z. q z ≡ true → z ≡ y) (λ z f t. cc) xs
          (filter-eq-nil q xs (cc (rw e at h))),
    )
    | inr e ↦ (λ t. cc, filter_single xs y (rw e at h))
  ]

module _ {ℓ} {A : Type ℓ} (key : A → ℕ) where
  abbrev pub Distinct : List A → Type 0
  Distinct [] = Unit
  Distinct (x ∷ xs) = All (λ u. key u ≢ key x) xs × Distinct xs

  -- The row that a SELECT found is the only one with its key.
  pub same_row :
      (p : A → Bool) (t : A) (r xs : List A)
      → filter p xs ≡ t ∷ r
      → Distinct xs
      → All (λ u. key u ≡ key t → u ≡ t) xs
  same_row p t r [] h d = tt
  same_row p t r (x ∷ xs) h d = elim (Bool-cases (p x)) [
    | inl e ↦
        let x-eq-t : x ≡ t = cc (rw e at h) in
        (
          λ _. x-eq-t,
          All-map (λ u. key u ≢ key x) (λ u. key u ≡ key t → u ≡ t) (λ u ne same. absurd (ne (cc)))
              xs d.0,
        )
    | inr e ↦
        let found : filter p xs ≡ t ∷ r = (rw e at h) in
        let ne : key t ≢ key x =
          (subst (All (λ u. (key u ≢ key x) × (p u ≡ true))) found
            (All-filter (λ u. key u ≢ key x) p xs d.0)).0.0 in
        (λ same. absurd (ne (sym same)), same_row p t r xs found d.1)
  ]

  All-key-update_where :
      (k : ℕ) (p : A → Bool) (f : A → A)
      → ((x : A) → key (f x) ≡ key x)
      → (xs : List A) → All (λ u. key u ≢ k) xs
      → All (λ u. key u ≢ k) (update_where p f xs)
  All-key-update_where k p f same [] h = tt
  All-key-update_where k p f same (x ∷ xs) h =
      (ground (arith, same x), All-key-update_where k p f same xs h.1)

  pub Distinct-update_where :
      (p : A → Bool) (f : A → A)
      → ((x : A) → key (f x) ≡ key x)
      → (xs : List A) → Distinct xs
      → Distinct (update_where p f xs)
  Distinct-update_where p f same [] d = tt
  Distinct-update_where p f same (x ∷ xs) d = elim (Bool-cases (p x)) [
    | inl e ↦
        rw (e, same x)
          (All-key-update_where (key x) p f same xs d.0, Distinct-update_where p f same xs d.1)
    | inr e ↦
        rw e (All-key-update_where (key x) p f same xs d.0, Distinct-update_where p f same xs d.1)
  ]

  pub Distinct-delete_where :
      (p : A → Bool) (xs : List A) → Distinct xs → Distinct (delete_where p xs)
  Distinct-delete_where p [] d = tt
  Distinct-delete_where p (x ∷ xs) d = elim (Bool-cases (p x)) [
    | inl e ↦ rw e (Distinct-delete_where p xs d.1)
    | inr e ↦ rw e (All-delete_where (λ u. key u ≢ key x) p xs d.0, Distinct-delete_where p xs d.1)
  ]

  -- Rows with keys from `n` on, behind rows with keys below `n`.
  pub Distinct-append :
      (n : ℕ) (xs ys : List A)
      → All (λ x. key x < n) xs
      → All (λ y. n ≤ key y) ys
      → Distinct xs
      → Distinct ys
      → Distinct (xs ++ ys)
  Distinct-append n [] ys h k d e = e
  Distinct-append n (x ∷ xs) ys h k d e = (
    All-append (λ u. key u ≢ key x) xs ys d.0
        (All-map (λ y. n ≤ key y) (λ u. key u ≢ key x) (λ y le. omega arith) ys k),
    Distinct-append n xs ys h.1 k d.1 e,
  )

module _ {ℓ} {A : Type ℓ} where
  -- A SELECT after an UPDATE that does not touch the columns of its condition.
  pub filter-update_where :
      (p q : A → Bool) (f : A → A)
      → ((x : A) → p (f x) ≡ p x)
      → (xs : List A) → filter p (update_where q f xs) ≡ update_where q f (filter p xs)
  filter-update_where p q f same [] = refl
  filter-update_where p q f same (x ∷ xs) = elim (Bool-cases (q x)) [
    | inl e ↦ elim (Bool-cases (p x)) [
      | inl d ↦ rw (e, same x, d, e) (ap (λ r. f x ∷ r) (filter-update_where p q f same xs))
      | inr d ↦ rw (e, same x, d) (filter-update_where p q f same xs)
    ]
    | inr e ↦ elim (Bool-cases (p x)) [
      | inl d ↦ rw (e, d, e) (ap (λ r. x ∷ r) (filter-update_where p q f same xs))
      | inr d ↦ rw (e, d) (filter-update_where p q f same xs)
    ]
  ]
