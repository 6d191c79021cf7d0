-- ===== src/Security/Placement.antt =====
-- What HTTP Basic credentials name: the workspace and the token that api/core/security.py reads
-- out of them.
use workspaces_backend.Base.{
  ℕ, ◌+◌, ◌*◌, ◌-◌, ◌≡◌, ◌⊎◌, refl, ap, ◌∙◌, Bool, true, false, not, ◌&&◌, Bool-cases, inl, inr,
  ◌==◌, leb, List, [], ◌∷◌, ◌++◌, Option, none, some, All, All-append, is_blank, arith,
}
use workspaces_backend.Core.{Result, ok, err}
use workspaces_backend.Security.Credentials.{
  before_colon, after_colon, same_letter, workspace_word, after_word, is_separator, after_separator,
  decimal, digits_to_end, digits, basic_workspace, token_from_basic, authorize, is_basic,
  bearer_only, token_from_parts, of_bearer, of_basic,
}

abbrev pub is_digit : ℕ → Bool
is_digit c = leb 48 c && leb c 57

-- The number that decimal digits write, after a number that was read before.
abbrev pub number : ℕ → List ℕ → ℕ
number value [] = value
number value (c ∷ s) = number (10 * value + (c - 48)) s

abbrev pub is_optional_separator : List ℕ → Bool
is_optional_separator [] = true
is_optional_separator (c ∷ s) = is_separator c && is_blank s

-- What may stand in front of a workspace id: nothing, or the word in any case with or without a
-- separator.
abbrev pub IsSpelling : List ℕ → Type 0
IsSpelling p =
    (p ≡ [])
    ⊎ ((word : List ℕ) × (sep : List ℕ) × (p ≡ word ++ sep)
        × (after_word workspace_word word ≡ some [])
        × (is_optional_separator sep ≡ true))

abbrev IsColonFree : List ℕ → Type 0
IsColonFree s = All (λ c. (c == 58) ≡ false) s

before_colon-append : (u t : List ℕ) → IsColonFree u → before_colon (u ++ 58 ∷ t) ≡ u
before_colon-append [] t h = refl
before_colon-append (c ∷ u) t h = rw h.0 (ap (λ r. c ∷ r) (before_colon-append u t h.1))

after_colon-append : (u t : List ℕ) → IsColonFree u → after_colon (u ++ 58 ∷ t) ≡ t
after_colon-append [] t h = refl
after_colon-append (c ∷ u) t h = rw h.0 (after_colon-append u t h.1)

digits-IsColonFree : (ds : List ℕ) → All (λ c. is_digit c ≡ true) ds → IsColonFree ds
digits-IsColonFree [] h = tt
digits-IsColonFree (c ∷ ds) h = (ground (arith, h.0), digits-IsColonFree ds h.1)

after_word-IsColonFree :
    (ps word : List ℕ)
    → All (λ p. same_letter p 58 ≡ false) ps
    → after_word ps word ≡ some []
    → IsColonFree word
after_word-IsColonFree [] word n h = rw (the_rest) tt
  where
    the_rest : word ≡ []
    the_rest = cc h
after_word-IsColonFree (p ∷ ps) [] n h = tt
after_word-IsColonFree (p ∷ ps) (c ∷ word) n h = elim (Bool-cases (same_letter p c)) [
  | inl e ↦ (no_colon p c n.0 e, after_word-IsColonFree ps word n.1 (rw e at h))
  | inr e ↦ absurd (cc (rw e at h))
]
  where
    no_colon : (p c : ℕ) → same_letter p 58 ≡ false → same_letter p c ≡ true → (c == 58) ≡ false
    no_colon p c n e = elim (Bool-cases (c == 58)) [
      | inr d ↦ d
      | inl d ↦ let same : c ≡ 58 = ground (arith, d) in absurd (cc (n, ap (same_letter p) same, e))
    ]

after_word-append :
    (ps word r s : List ℕ) → after_word ps word ≡ some r → after_word ps (word ++ s) ≡ some (r ++ s)
after_word-append [] word r s h =
    let same : word ≡ r = cc h in ap (λ (x : List ℕ). some (x ++ s)) same
after_word-append (p ∷ ps) [] r s h = absurd (cc h)
after_word-append (p ∷ ps) (c ∷ word) r s h = elim (Bool-cases (same_letter p c)) [
  | inl e ↦ rw e (after_word-append ps word r s (rw e at h))
  | inr e ↦ absurd (cc (rw e at h))
]

after_separator-append :
    (sep : List ℕ) (c : ℕ) (ds : List ℕ)
    → is_optional_separator sep ≡ true
    → is_digit c ≡ true
    → after_separator (sep ++ c ∷ ds) ≡ c ∷ ds
after_separator-append [] c ds one e =
    let no : is_separator c ≡ false = ground (arith, e) in rw no refl
after_separator-append (x ∷ []) c ds one e =
    let yes : is_separator x ≡ true = ground (arith, one) in rw yes refl
after_separator-append (x ∷ y ∷ sep) c ds one e = absurd (ground (arith, one))

separator-IsColonFree : (sep : List ℕ) → is_optional_separator sep ≡ true → IsColonFree sep
separator-IsColonFree [] one = tt
separator-IsColonFree (x ∷ []) one = (ground (arith, one), tt)
separator-IsColonFree (x ∷ y ∷ sep) one = absurd (ground (arith, one))

spelling-IsColonFree : (p : List ℕ) → IsSpelling p → IsColonFree p
spelling-IsColonFree p (inl bare) = rw bare tt
spelling-IsColonFree p (inr (word, sep, spelled, match, one)) = rw spelled (
    All-append (λ c. (c == 58) ≡ false) word sep
      (after_word-IsColonFree workspace_word word
        (refl, (refl, (refl, (refl, (refl, (refl, (refl, (refl, (refl, tt))))))))) match)
      (separator-IsColonFree sep one))

username-IsColonFree :
    (p : List ℕ) (c : ℕ) (ds : List ℕ)
    → IsSpelling p
    → is_digit c ≡ true
    → All (λ c. is_digit c ≡ true) ds
    → IsColonFree (p ++ c ∷ ds)
username-IsColonFree p c ds spelling e h =
    All-append (λ c. (c == 58) ≡ false) p (c ∷ ds) (spelling-IsColonFree p spelling)
      (ground (arith, e), digits-IsColonFree ds h)

module _ (others : ℕ → Option ℕ) where
  digits_to_end-number :
      (v : ℕ) (ds : List ℕ)
      → All (λ c. is_digit c ≡ true) ds
      → digits_to_end others v ds ≡ some (number v ds)
  unfolding digits_to_end
  digits_to_end-number v [] h = refl
  digits_to_end-number v (c ∷ ds) h =
      let value : decimal others c ≡ some (c - 48) = rw h.0 refl in
      rw (value, digits_to_end) (digits_to_end-number (10 * v + (c - 48)) ds h.1)

  digits-number :
      (c : ℕ) (ds : List ℕ)
      → is_digit c ≡ true
      → All (λ c. is_digit c ≡ true) ds
      → digits others (c ∷ ds) ≡ some (number (c - 48) ds)
  unfolding digits
  digits-number c ds e h =
      let value : decimal others c ≡ some (c - 48) = rw e refl in
      rw (value, digits) (digits_to_end-number (c - 48) ds h)

  basic_workspace-bare :
      (c : ℕ) (ds : List ℕ)
      → is_digit c ≡ true
      → All (λ c. is_digit c ≡ true) ds
      → basic_workspace others (c ∷ ds) ≡ some (number (c - 48) ds)
  unfolding basic_workspace
  basic_workspace-bare c ds e h =
      let no_word : after_word workspace_word (c ∷ ds) ≡ none = ground (arith, e) in
      rw (no_word, basic_workspace) (digits-number c ds e h)

  basic_workspace-worded :
      (username : List ℕ) (sep : List ℕ) (c : ℕ) (ds : List ℕ)
      → after_word workspace_word username ≡ some (sep ++ c ∷ ds)
      → is_optional_separator sep ≡ true
      → is_digit c ≡ true
      → All (λ c. is_digit c ≡ true) ds
      → basic_workspace others username ≡ some (number (c - 48) ds)
  unfolding basic_workspace
  basic_workspace-worded username sep c ds word one e h =
      rw (word, basic_workspace)
        (ap (digits others) (after_separator-append sep c ds one e) ∙ digits-number c ds e h)

  basic_workspace-number :
      (p : List ℕ) (c : ℕ) (ds : List ℕ)
      → IsSpelling p
      → is_digit c ≡ true
      → All (λ c. is_digit c ≡ true) ds
      → basic_workspace others (p ++ c ∷ ds) ≡ some (number (c - 48) ds)
  basic_workspace-number p c ds (inl bare) e h =
      ap (λ (q : List ℕ). basic_workspace others (q ++ c ∷ ds)) bare ∙ basic_workspace-bare c ds e h
  basic_workspace-number p c ds (inr (word, sep, spelled, match, one)) e h =
      ap (λ (q : List ℕ). basic_workspace others (q ++ c ∷ ds)) spelled
      ∙ basic_workspace-worded ((word ++ sep) ++ c ∷ ds) sep c ds
          (after_word-append workspace_word (word ++ sep) sep (c ∷ ds)
            (after_word-append workspace_word word [] sep match))
          one e h

  -- One placement: whatever token is sent as the password and however the workspace id is spelled
  -- in the username (bare, or after `workspace` in any case with `/`, `-`, `_` or nothing in
  -- between), the credentials yield this token and this id.
  pub token_from_basic-number :
      (p : List ℕ) (c : ℕ) (ds : List ℕ) (first : ℕ) (token : List ℕ)
      → IsSpelling p
      → is_digit c ≡ true
      → All (λ c. is_digit c ≡ true) ds
      → token_from_basic others (some ((p ++ c ∷ ds) ++ 58 ∷ first ∷ token))
        ≡ ok (first ∷ token, number (c - 48) ds)
  unfolding token_from_basic token_from_parts
  token_from_basic-number p c ds first token spelling e h =
      let free = username-IsColonFree p c ds spelling e h in
      ap (λ u. token_from_parts others u (after_colon ((p ++ c ∷ ds) ++ 58 ∷ first ∷ token)))
        (before_colon-append (p ++ c ∷ ds) (first ∷ token) free)
      ∙ ap (token_from_parts others (p ++ c ∷ ds))
          (after_colon-append (p ++ c ∷ ds) (first ∷ token) free)
      ∙ rw (basic_workspace-number p c ds spelling e h, token_from_parts) refl

of_bearer-none :
    (b : Result (Option (List ℕ))) (token : Option (List ℕ)) (w : ℕ)
    → of_bearer b ≡ ok (record { token = token; basic_workspace_id = some w })
    → ⊥
of_bearer-none (ok t) token w h = cc h
of_bearer-none (err e) token w h = cc h

of_basic-ok :
    (r : Result (List ℕ × ℕ)) (token : Option (List ℕ)) (w : ℕ)
    → of_basic r ≡ ok (record { token = token; basic_workspace_id = some w })
    → (t : List ℕ) × (token ≡ some t) × (r ≡ ok (t, w))
of_basic-ok (ok (t, v)) token w h = let same : v ≡ w = cc h in (t, cc h, ap (λ x. ok (t, x)) same)
of_basic-ok (err e) token w h = absurd (cc h)

module _ (others : ℕ → Option ℕ) (bearer : Result (Option (List ℕ))) where
  -- What the dependency says of a workspace that comes out of credentials: they were Basic, the
  -- path is not one of the Bearer-only ones, and the decoded credentials give this token and id.
  pub authorize-basic :
      (path scheme : List ℕ) (decoded : Option (List ℕ)) (token : Option (List ℕ)) (w : ℕ)
      → authorize others bearer path scheme decoded
        ≡ ok (record { token = token; basic_workspace_id = some w })
      → (is_basic scheme ≡ true)
        × (bearer_only path ≡ false)
        × ((t : List ℕ) × (token ≡ some t) × (token_from_basic others decoded ≡ ok (t, w)))
  unfolding authorize
  authorize-basic path scheme decoded token w h = elim (Bool-cases (is_basic scheme)) [
    | inr e ↦ elim (Bool-cases (is_blank scheme && not (bearer_only path))) [
      | inl d ↦ absurd (cc (rw (e, d, authorize) at h))
      | inr d ↦ absurd (of_bearer-none bearer token w (rw (e, d, authorize) at h))
    ]
    | inl e ↦ elim (Bool-cases (bearer_only path)) [
      | inl d ↦ absurd (cc (rw (e, d, authorize) at h))
      | inr d ↦
          (e, d, of_basic-ok (token_from_basic others decoded) token w (rw (e, d, authorize) at h))
    ]
  ]
