-- ===== src/Proxy/Properties/Sources.antt =====
-- Where `catch_all` of api/main.py takes the workspace from.
use workspaces_backend.Base.{
  ℕ, ℤ, pos, negsuc, ◌≡◌, ◌⊎◌, refl, ap, ◌∙◌, true, List, Option, none, some, Bool-cases, inl, inr,
  ◌==ℤ◌, ==_iff,
}
use workspaces_backend.Core.{Result, ok, err}
use workspaces_backend.Proxy.Text.{python_int}
use workspaces_backend.Proxy.Resolve.{resolve, of_header, of_number, of_basic_id, disagrees}

-- A source of the workspace id is silent or names this one.
abbrev pub Says : ℕ → Option ℕ → Type 0
Says w source = (source ≡ none) ⊎ (source ≡ some w)

abbrev pub HeaderSays : (ℕ → Option ℕ) → ℕ → Option (List ℕ) → Type 0
HeaderSays others w source =
    (source ≡ none)
    ⊎ ((text : List ℕ) × (source ≡ some text) × (python_int others text ≡ some (pos w)))

==ℤ-eq : (a b : ℤ) → (a ==ℤ b) ≡ true → a ≡ b
==ℤ-eq (pos a) (pos b) h = ap pos ((==_iff a b).0 h)
==ℤ-eq (negsuc a) (negsuc b) h = ap negsuc ((==_iff a b).0 h)
==ℤ-eq (pos a) (negsuc b) h = absurd (cc h)
==ℤ-eq (negsuc a) (pos b) h = absurd (cc h)

module _ (others : ℕ → Option ℕ) where
  abbrev pub Sources : Option ℕ → Option (List ℕ) → ℤ → Type 0
  Sources prefix header v =
      ((prefix ≡ none) ⊎ ((p : ℕ) × (prefix ≡ some p) × (pos p ≡ v)))
      × ((header ≡ none)
          ⊎ ((text : List ℕ) × (header ≡ some text) × (python_int others text ≡ some v)))

  of_number-Sources :
      (prefix : Option ℕ) (text : List ℕ) (r : Option ℤ) (v : ℤ)
      → python_int others text ≡ r
      → of_number others prefix r ≡ ok (some v)
      → Sources prefix (some text) v
  of_number-Sources prefix text none v e h = absurd (cc h)
  of_number-Sources none text (some w) v e h =
      let same : w ≡ v = cc h in (inl refl, inr (text, refl, e ∙ ap some same))
  of_number-Sources (some p) text (some w) v e h = elim (Bool-cases (pos p ==ℤ w)) [
    | inr d ↦ absurd (cc (rw d at h))
    | inl d ↦
        let same : w ≡ v = cc (rw d at h) in
        (inr (p, refl, ==ℤ-eq (pos p) w d ∙ same), inr (text, refl, e ∙ ap some same))
  ]

  of_header-Sources :
      (prefix : Option ℕ) (header : Option (List ℕ)) (v : ℤ)
      → of_header others prefix header ≡ ok (some v)
      → Sources prefix header v
  unfolding of_header
  of_header-Sources none none v h = absurd (cc h)
  of_header-Sources (some p) none v h =
      let same : pos p ≡ v = cc h in (inr (p, refl, same), inl refl)
  of_header-Sources prefix (some text) v h =
      of_number-Sources prefix text (python_int others text) v refl h

  silent_of_number : (prefix : Option ℕ) (r : Option ℤ) → of_number others prefix r ≡ ok none → ⊥
  silent_of_number prefix none h = cc h
  silent_of_number prefix (some w) h = elim (Bool-cases (disagrees prefix w)) [
    | inl d ↦ cc (rw d at h)
    | inr d ↦ cc (rw d at h)
  ]

  abbrev pub Silent : Option ℕ → Option (List ℕ) → Type 0
  Silent prefix header = (prefix ≡ none) × (header ≡ none)

  of_header-Silent :
      (prefix : Option ℕ) (header : Option (List ℕ))
      → of_header others prefix header ≡ ok none
      → Silent prefix header
  unfolding of_header
  of_header-Silent none none h = (refl, refl)
  of_header-Silent (some p) none h = absurd (cc h)
  of_header-Silent prefix (some text) h =
      absurd (silent_of_number prefix (python_int others text) h)

  abbrev pub BasicSays : Option ℕ → ℤ → Type 0
  BasicSays basic v = (basic ≡ none) ⊎ ((b : ℕ) × (basic ≡ some b) × (pos b ≡ v))

  pub resolve-Sources :
      (prefix : Option ℕ) (header : Option (List ℕ)) (basic : Option ℕ) (v : ℤ)
      → resolve others prefix header basic ≡ ok (some v)
      → Sources prefix header v × BasicSays basic v
  unfolding resolve
  resolve-Sources prefix header basic v h = go basic (of_header others prefix header) refl h
    where
      go :
          (b : Option ℕ) (r : Result (Option ℤ))
          → of_header others prefix header ≡ r
          → of_basic_id others b r ≡ ok (some v)
          → Sources prefix header v × BasicSays b v
      go b (err x) e h = absurd (cc h)
      go none (ok w) e h = (of_header-Sources prefix header v (e ∙ h), inl refl)
      go (some b) (ok none) e h =
          let silent = of_header-Silent prefix header e in
          ((inl silent.0, inl silent.1), inr (b, refl, cc h))
      go (some b) (ok (some w)) e h = elim (Bool-cases (w ==ℤ pos b)) [
        | inr d ↦ absurd (cc (rw d at h))
        | inl d ↦
            let same : pos b ≡ v = cc (rw d at h) in
            let found : of_header others prefix header ≡ ok (some v) =
              e ∙ ap (λ (x : ℤ). ok (some x)) (==ℤ-eq w (pos b) d ∙ same) in
            (of_header-Sources prefix header v found, inr (b, refl, same))
      ]

  pub resolve-Silent :
      (prefix : Option ℕ) (header : Option (List ℕ)) (basic : Option ℕ)
      → resolve others prefix header basic ≡ ok none
      → Silent prefix header × (basic ≡ none)
  unfolding resolve
  resolve-Silent prefix header basic h = go basic (of_header others prefix header) refl h
    where
      go :
          (b : Option ℕ) (r : Result (Option ℤ))
          → of_header others prefix header ≡ r
          → of_basic_id others b r ≡ ok none
          → Silent prefix header × (b ≡ none)
      go b (err x) e h = absurd (cc h)
      go none (ok w) e h = (of_header-Silent prefix header (e ∙ h), refl)
      go (some b) (ok none) e h = absurd (cc h)
      go (some b) (ok (some w)) e h = elim (Bool-cases (w ==ℤ pos b)) [
        | inr d ↦ absurd (cc (rw d at h))
        | inl d ↦ absurd (cc (rw d at h))
      ]
