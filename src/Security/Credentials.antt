-- ===== src/Security/Credentials.antt =====
-- The Authorization header: `_token_from_basic`, `_looks_like_jwt` and `TDEIHTTPBearer` of
-- api/core/security.py. Strings are lists of code points. What FastAPI makes of a header that is
-- not Basic, and the base64 and UTF-8 decoding of one that is, are arguments; so are the decimal
-- digits outside ASCII that `\d` and `int` accept.
use workspaces_backend.Base.{
  ℕ, ◌+◌, ◌*◌, ◌-◌, Bool, true, false, not, ◌&&◌, ◌||◌, ◌==◌, leb, if◌then◌else◌, List, [], ◌∷◌,
  map, Option, none, some, is_some, codes_eq, is_blank,
}
use workspaces_backend.Core.{Result, ok, err, Error, http_exception}

-- `decoded.partition(":")`
abbrev pub before_colon : List ℕ → List ℕ
before_colon [] = []
before_colon (c ∷ s) = if c == 58 then [] else c ∷ before_colon s

abbrev pub after_colon : List ℕ → List ℕ
after_colon [] = []
after_colon (c ∷ s) = if c == 58 then s else after_colon s

-- A letter of the pattern, under `re.IGNORECASE`: the long s and the Kelvin sign fold to s and k.
abbrev pub same_letter : ℕ → ℕ → Bool
same_letter p c = c == p || c + 32 == p || (p == 115 && c == 383) || (p == 107 && c == 8490)

-- `workspace`
abbrev pub workspace_word : List ℕ
workspace_word = 119 ∷ 111 ∷ 114 ∷ 107 ∷ 115 ∷ 112 ∷ 97 ∷ 99 ∷ 101 ∷ []

-- What follows a word, if the string begins with it.
abbrev pub after_word : List ℕ → List ℕ → Option (List ℕ)
after_word [] s = some s
after_word (p ∷ ps) [] = none
after_word (p ∷ ps) (c ∷ s) = if same_letter p c then after_word ps s else none

-- `[/_-]?`
abbrev pub is_separator : ℕ → Bool
is_separator c = c == 47 || c == 95 || c == 45

abbrev pub after_separator : List ℕ → List ℕ
after_separator [] = []
after_separator (c ∷ s) = if is_separator c then s else c ∷ s

-- `value.split(".")`, its first two parts and whether there is a third
abbrev pub until_dot : List ℕ → List ℕ
until_dot [] = []
until_dot (c ∷ s) = if c == 46 then [] else c ∷ until_dot s

abbrev pub past_dot : List ℕ → Option (List ℕ)
past_dot [] = none
past_dot (c ∷ s) = if c == 46 then some s else past_dot s

unfoldable pub looks_like_jwt : List ℕ → Bool
looks_like_jwt value = elim (past_dot value) [
  | none ↦ false
  | some second ↦
      is_some (past_dot second)
      && not (is_blank (until_dot value))
      && not (is_blank (until_dot second))
]

module _ (others : ℕ → Option ℕ) where
  -- `\d`, with the value that `int` gives the digit
  abbrev pub decimal : ℕ → Option ℕ
  decimal c = if leb 48 c && leb c 57 then some (c - 48) else if leb c 127 then none else others c

  -- `(\d+)$` and `int(…)`, from the digits before on; `$` also matches before a final newline.
  unfoldable pub digits_to_end : ℕ → List ℕ → Option ℕ
  digits_to_end value [] = some value
  digits_to_end value (c ∷ s) = elim (decimal c) [
    | some d ↦ digits_to_end (10 * value + d) s
    | none ↦ if c == 10 && is_blank s then some value else none
  ]

  -- at least one digit
  unfoldable pub digits : List ℕ → Option ℕ
  digits [] = none
  digits (c ∷ s) = elim (decimal c) [ some d ↦ digits_to_end d s | none ↦ none ]

  -- `_BASIC_WORKSPACE_RE.match(username)`
  unfoldable pub basic_workspace : List ℕ → Option ℕ
  basic_workspace username = elim (after_word workspace_word username) [
    | none ↦ digits username
    | some rest ↦ digits (after_separator rest)
  ]

  -- The four ways in which the username is no workspace id.
  unfoldable pub username_error : List ℕ → Error
  username_error username =
      if looks_like_jwt username
      then http_exception 401
          "The TDEI token goes in the HTTP Basic password now, not the username; the username names the workspace."
      else if is_blank username
      then http_exception 401 "The HTTP Basic credentials carry no username."
      else http_exception 401 "The HTTP Basic username ({username!r}) is not a workspace id."

  -- the two parts of the credentials
  unfoldable pub token_from_parts : List ℕ → List ℕ → Result (List ℕ × ℕ)
  token_from_parts username password = elim (basic_workspace username) [
    | none ↦ err (username_error username)
    | some workspace_id ↦
        if is_blank password
        then err (http_exception 401 "The HTTP Basic credentials carry no password.")
        else ok (password, workspace_id)
  ]

  -- `_token_from_basic`, from the decoded credentials on
  unfoldable pub token_from_basic : Option (List ℕ) → Result (List ℕ × ℕ)
  token_from_basic none =
      err (http_exception 401 "The HTTP Basic credentials are not valid base64.")
  token_from_basic (some decoded) = token_from_parts (before_colon decoded) (after_colon decoded)

-- `scheme.lower()`, as far as a comparison with an ASCII word goes
abbrev pub lower : ℕ → ℕ
lower c = if leb 65 c && leb c 90 then c + 32 else c

abbrev pub is_basic : List ℕ → Bool
is_basic scheme = codes_eq (map lower scheme) (98 ∷ 97 ∷ 115 ∷ 105 ∷ 99 ∷ [])

abbrev pub starts_with : List ℕ → List ℕ → Bool
starts_with [] s = true
starts_with (p ∷ ps) [] = false
starts_with (p ∷ ps) (c ∷ s) = c == p && starts_with ps s

-- `BEARER_ONLY_PATH_PREFIXES`: `/api/v1/`
abbrev pub bearer_only : List ℕ → Bool
bearer_only path = starts_with (47 ∷ 97 ∷ 112 ∷ 105 ∷ 47 ∷ 118 ∷ 49 ∷ 47 ∷ []) path

-- What the dependency leaves behind: the token, if there are credentials, and the workspace id
-- that `request.state` carries for the proxy.
pub record Authorization : Type 0 where
  pub token : Option (List ℕ)
  pub basic_workspace_id : Option ℕ

abbrev pub of_bearer : Result (Option (List ℕ)) → Result Authorization
of_bearer (ok t) = ok (record { token = t; basic_workspace_id = none })
of_bearer (err e) = err e

abbrev pub of_basic : Result (List ℕ × ℕ) → Result Authorization
of_basic (ok (t, w)) = ok (record { token = some t; basic_workspace_id = some w })
of_basic (err e) = err e

module _ (others : ℕ → Option ℕ) (bearer : Result (Option (List ℕ))) where
  -- `TDEIHTTPBearer.__call__`
  unfoldable pub authorize : List ℕ → List ℕ → Option (List ℕ) → Result Authorization
  authorize path scheme decoded =
      if not (is_basic scheme)
      then if is_blank scheme && not (bearer_only path)
        then err (http_exception 401 "Not authenticated")
        else of_bearer bearer
      else if bearer_only path
      then err (
          http_exception 401
            "HTTP Basic authentication is not accepted on this endpoint. Use `Authorization: Bearer <token>`.")
      else of_basic (token_from_basic others decoded)
