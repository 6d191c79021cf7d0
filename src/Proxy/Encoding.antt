-- ===== src/Proxy/Encoding.antt =====
-- `_accepts_deflate` of api/main.py. What `float` makes of a quality is an argument: whether the
-- number is positive, or none for a ValueError.
use workspaces_backend.Base.{
  ℕ, Bool, true, false, ◌||◌, ◌==◌, if◌then◌else◌, List, [], ◌∷◌, map, Option, none, some, strip,
  codes_eq, is_blank,
}
use workspaces_backend.Security.Credentials.{lower}
use workspaces_backend.Proxy.Text.{codes}

-- `text.split(sep)`, from the piece that is being read on, which is kept in reverse
abbrev pub add_first : ℕ → List (List ℕ) → List (List ℕ)
add_first c [] = (c ∷ []) ∷ []
add_first c (piece ∷ pieces) = (c ∷ piece) ∷ pieces

unfoldable pub split : ℕ → List ℕ → List (List ℕ)
split sep [] = [] ∷ []
split sep (c ∷ s) = let rest = split sep s in if c == sep then [] ∷ rest else add_first c rest

-- the parts before and after the first separator
unfoldable pub before : ℕ → List ℕ → List ℕ
before sep [] = []
before sep (c ∷ s) = if c == sep then [] else c ∷ before sep s

unfoldable pub behind : ℕ → List ℕ → List ℕ
behind sep [] = []
behind sep (c ∷ s) = if c == sep then s else behind sep s

-- `token.strip().lower() in ("deflate", "*")`
abbrev pub names_deflate : List ℕ → Bool
names_deflate token =
    codes_eq (map lower (strip token)) (codes "deflate") || codes_eq (strip token) (codes "*")

module _ (float : List ℕ → Option Bool) where
  -- the sign of a quality
  abbrev quality_of : List ℕ → Bool
  quality_of value = elim (float (strip value)) [ some p ↦ p | none ↦ false ]

  -- the loop over the parameters, where a later `q` wins
  unfoldable pub is_positive : Bool → List (List ℕ) → Bool
  is_positive quality [] = quality
  is_positive quality (param ∷ params) =
      is_positive
        (if codes_eq (map lower (strip (before 61 param))) (codes "q")
          then quality_of (behind 61 param)
          else quality)
        params

  -- an element of the list, `token;params`
  unfoldable pub allows_deflate : List ℕ → Bool
  allows_deflate element =
      let text = strip element in
      if names_deflate (before 59 text) then is_positive true (split 59 (behind 59 text)) else false

  unfoldable pub any_allows : List (List ℕ) → Bool
  any_allows [] = false
  any_allows (element ∷ elements) = allows_deflate element || any_allows elements

  unfoldable pub accepts_deflate : Option (List ℕ) → Bool
  accepts_deflate none = false
  accepts_deflate (some text) = if is_blank text then false else any_allows (split 44 text)
