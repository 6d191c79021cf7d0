-- ===== src/Proxy/Text.antt =====
-- Python's `int` and `str` on numbers, and texts as code points. `decimal` says which characters are
-- digits; the interpreter's limit on the length of a number is left out.
use Prim.Native.Char.{code}
use Prim.Native.String.{String}
use workspaces_backend.Base.{
  ℕ, zero, suc, ◌+◌, ◌*◌, ◌/◌, ◌%◌, ℤ, pos, negsuc, Bool, true, false, ◌&&◌, ◌==◌, ltb,
  if◌then◌else◌, List, [], ◌∷◌, Option, none, some, strip,
}
use workspaces_backend.Security.Credentials.{decimal}

abbrev pub codes : String → List ℕ
codes String.[] = []
codes (String.◌∷◌ c s) = code c ∷ codes s

-- The digits of a number in front of a text; `fuel` bounds their count.
unfoldable pub digits_of : ℕ → ℕ → List ℕ → List ℕ
digits_of zero n acc = acc
digits_of (suc fuel) n acc =
    let rest = digits_of fuel (n / 10) ((48 + n % 10) ∷ acc) in
    if ltb n 10 then (48 + n % 10) ∷ acc else rest

-- `str(n)`: a number has no more digits than its successor says.
unfoldable pub str_of : ℕ → List ℕ → List ℕ
str_of n acc = digits_of (suc n) n acc

abbrev pub str_of_int : ℤ → List ℕ
str_of_int (pos n) = str_of n []
str_of_int (negsuc n) = 45 ∷ str_of (suc n) []

module _ (others : ℕ → Option ℕ) where
  -- The rest of a number, with single underscores between its digits; `after` tells whether a digit
  -- stands in front.
  unfoldable pub int_tail : Bool → ℕ → List ℕ → Option ℕ
  int_tail after value [] = if after then some value else none
  int_tail after value (c ∷ s) = elim (decimal others c) [
    | some d ↦ int_tail true (10 * value + d) s
    | none ↦ if after && c == 95 then int_tail false value s else none
  ]

  abbrev negated : Option ℕ → Option ℤ
  negated none = none
  negated (some zero) = some (pos 0)
  negated (some (suc n)) = some (negsuc n)

  abbrev pub positive : Option ℕ → Option ℤ
  positive none = none
  positive (some n) = some (pos n)

  abbrev pub signed : List ℕ → Option ℤ
  signed [] = none
  signed (c ∷ s) =
      if c == 43
      then positive (int_tail false 0 s)
      else if c == 45
      then negated (int_tail false 0 s)
      else positive (int_tail false 0 (c ∷ s))

  -- `int(text)`, none for a ValueError
  unfoldable pub python_int : List ℕ → Option ℤ
  python_int text = signed (strip text)
