-- ===== src/Security/Rejections.antt =====
-- The log of refused tokens: `_log_rejected_token` of api/core/security.py. A token is known by its
-- SHA-256 digest and a time is what `time.monotonic()` reads, both as numbers.
use workspaces_backend.Base.{
  ℕ, ◌+◌, ◌≤◌, ◌<◌, ◌≡◌, refl, ap, ◌∙◌, inl, inr, true, false, Bool-cases, ltb, if◌then◌else◌, List,
  [], ◌∷◌, Option, none, some, length, All, Dict, lookup, insert, lookup-insert, ==_refl, arith,
  ◌++◌,
}

-- When the token was last logged, and how often it was refused since then without being logged.
pub record Entry : Type 0 where
  pub logged_at : ℕ
  pub suppressed : ℕ

-- `_REJECTION_LOG_WINDOW_S`
abbrev pub rejection_log_window_s : ℕ
rejection_log_window_s = 60

-- the `suppressed` of an entry, or 0
abbrev suppressed_of : Option Entry → ℕ
suppressed_of none = 0
suppressed_of (some e) = e.suppressed

-- `_rejection_log.clear()` where it holds more than 1000 entries
abbrev pub forget : Dict Entry → Dict Entry
forget log = if ltb 1000 (length log) then [] else log

-- A new line in the log file, with the number of refusals that it stands for beside this one.
abbrev announce : ℕ → ℕ → ℕ → Dict Entry → Dict Entry × Option ℕ
announce now key count log =
    (insert key (record { logged_at = now; suppressed = 0 }) (forget log), some count)

unfoldable pub log_rejected_token : ℕ → ℕ → Dict Entry → Dict Entry × Option ℕ
log_rejected_token now key log = elim (lookup key log) [
  | none ↦ announce now key 0 log
  | some e ↦
      if ltb now (e.logged_at + rejection_log_window_s)
      then (insert key (record e { suppressed = e.suppressed + 1 }) log, none)
      else announce now key e.suppressed log
]

-- The refusals of one token, one after another, with the lines that are written.
unfoldable pub refuse_all : ℕ → List ℕ → Dict Entry → Dict Entry × List (Option ℕ)
refuse_all key [] log = (log, [])
refuse_all key (now ∷ later) log =
    let (log', line) = log_rejected_token now key log in
    let (end, lines) = refuse_all key later log' in (end, line ∷ lines)

length-insert {ℓ} : {V : Type ℓ} (k : ℕ) (v : V) (d : Dict V) → length (insert k v d) ≤ length d + 1
length-insert k v [] = omega arith
length-insert k v ((j, w) ∷ d) = ground (arith, length-insert k v d)

length-insert_known {ℓ} :
    {V : Type ℓ} (k : ℕ) (v w : V) (d : Dict V)
    → lookup k d ≡ some w
    → length (insert k v d) ≡ length d
length-insert_known k v w [] h = absurd (cc h)
length-insert_known k v w ((j, x) ∷ d) h = ground (arith, length-insert_known k v w d)

-- The log stays bounded: whatever token is refused and whenever, a log of at most 1001 entries
-- still has at most 1001.
pub log_rejected_token-bounded :
    (now key : ℕ) (log : Dict Entry)
    → length log ≤ 1001
    → length (log_rejected_token now key log).0 ≤ 1001
unfolding log_rejected_token
log_rejected_token-bounded now key log h = go (lookup key log) refl
  where
    forgotten : length (forget log) ≤ 1000
    forgotten = ground arith

    announced : (e : Entry) → length (insert key e (forget log)) ≤ 1001
    announced e = omega (arith, forgotten, length-insert key e (forget log))

    go : (o : Option Entry) → lookup key log ≡ o → length (log_rejected_token now key log).0 ≤ 1001
    go none e = rw (e, log_rejected_token) (announced _)
    go (some x) e = elim (Bool-cases (ltb now (x.logged_at + 60))) [
      | inl d ↦
          rw (e, d, log_rejected_token)
            (omega (
              arith,
              h,
              length-insert_known key (record x { suppressed = x.suppressed + 1 }) x log e,
            ))
      | inr d ↦ rw (e, d, log_rejected_token) (announced _)
    ]

-- A silent line for each refusal, then the rest.
abbrev pub silent : List ℕ → List (Option ℕ) → List (Option ℕ)
silent [] rest = rest
silent (_ ∷ later) rest = none ∷ silent later rest

module _ (key : ℕ) where
  within_window :
      (now : ℕ) (e : Entry) (log : Dict Entry)
      → lookup key log ≡ some e
      → now < e.logged_at + 60
      → log_rejected_token now key log
        ≡ (insert key (record e { suppressed = e.suppressed + 1 }) log, none)
  unfolding log_rejected_token
  within_window now e log h early =
      let quiet : ltb now (e.logged_at + 60) ≡ true = ground (arith, early) in
      rw (h, log_rejected_token, quiet) refl

  after_window :
      (now : ℕ) (e : Entry) (log : Dict Entry)
      → lookup key log ≡ some e
      → e.logged_at + 60 ≤ now
      → log_rejected_token now key log
        ≡ (insert key (record { logged_at = now; suppressed = 0 }) (forget log), some e.suppressed)
  unfolding log_rejected_token
  after_window now e log h late =
      let loud : ltb now (e.logged_at + 60) ≡ false = ground (arith, late) in
      rw (h, log_rejected_token, loud) refl

  -- A token that was logged is refused again, any number of times within the window and then once
  -- after it, and no other token is refused in between: nothing is written within the window, and
  -- the refusal after it writes one line with the number of all that were silent.
  pub refuse_all-counts :
      (times : List ℕ) (last : ℕ) (e : Entry) (log : Dict Entry)
      → lookup key log ≡ some e
      → All (λ t. t < e.logged_at + 60) times
      → e.logged_at + 60 ≤ last
      → (refuse_all key (times ++ last ∷ []) log).1
        ≡ silent times (some (e.suppressed + length times) ∷ [])
  unfolding refuse_all
  refuse_all-counts [] last e log h early late =
      rw (after_window last e log h late) (ap (λ n. some n ∷ []) (omega arith))
  refuse_all-counts (t ∷ times) last e log h early late =
      let e' : Entry = record e { suppressed = e.suppressed + 1 } in
      let again : lookup key (insert key e' log) ≡ some e' =
        lookup-insert key key e' log ∙ rw (==_refl key) refl in
      rw (within_window t e log h early.0) (
        ap (λ r. none ∷ r)
          (refuse_all-counts times last e' (insert key e' log) again early.1 late
            ∙ ap (λ n. silent times (some n ∷ [])) (omega arith)))
