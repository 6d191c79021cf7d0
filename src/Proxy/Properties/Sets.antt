-- ===== src/Proxy/Properties/Sets.antt =====
-- The headers that `catch_all` and `capabilities` of api/main.py send upstream.
use workspaces_backend.Base.{
  ℕ, ◌≡◌, refl, ap, ◌∙◌, Bool, true, false, List, [], ◌∷◌, ◌++◌, map, Option, none, some,
  Bool-cases, inl, inr, arith, codes_eq, ℤ, ==_refl, All, All-map, All-zip,
}
use mathlib.Core.List.{append-nil}
use workspaces_backend.Security.Credentials.{lower}
use workspaces_backend.Proxy.Text.{codes, str_of_int}
use workspaces_backend.Proxy.Headers.{
  Header, Origin, names, values_of, without, strip_request_headers, replaced_headers,
  workspace_header, deflate_header, origin_headers, request_headers, anonymous_headers,
  hop_by_hop_headers, header,
}

codes_eq-eq : (a b : List ℕ) → codes_eq a b ≡ true → a ≡ b
codes_eq-eq [] [] h = refl
codes_eq-eq [] (d ∷ b) h = absurd (cc h)
codes_eq-eq (c ∷ a) [] h = absurd (cc h)
codes_eq-eq (c ∷ a) (d ∷ b) h = ground (arith, h, codes_eq-eq a b)

pub codes_eq_refl : (a : List ℕ) → codes_eq a a ≡ true
codes_eq_refl [] = refl
codes_eq_refl (c ∷ a) = rw (==_refl c) (codes_eq_refl a)

pub values_of-append :
    (n : List ℕ) (xs ys : List Header) → values_of n (xs ++ ys) ≡ values_of n xs ++ values_of n ys
unfolding values_of
values_of-append n [] ys = refl
values_of-append n (h ∷ xs) ys = elim (Bool-cases (codes_eq (map lower h.name) n)) [
  | inl e ↦ rw e (ap (λ r. h.value ∷ r) (values_of-append n xs ys))
  | inr e ↦ rw e (values_of-append n xs ys)
]

module _ (n : List ℕ) (dropped : List (List ℕ)) where
  -- A dropped header does not come through.
  pub values_of-without :
      names n dropped ≡ true → (hs : List Header) → values_of n (without dropped hs) ≡ []
  unfolding values_of without
  values_of-without d [] = refl
  values_of-without d (h ∷ hs) = elim (Bool-cases (names (map lower h.name) dropped)) [
    | inl e ↦ rw e (values_of-without d hs)
    | inr e ↦ rw e (elim (Bool-cases (codes_eq (map lower h.name) n)) [
      | inl same ↦
          absurd (cc (ap (λ m. names m dropped) (codes_eq-eq (map lower h.name) n same), e, d))
      | inr other ↦ rw other (values_of-without d hs)
    ])
  ]

  -- Any other does, as often as it was sent.
  pub values_of-without_other :
      names n dropped ≡ false
      → (hs : List Header) → values_of n (without dropped hs) ≡ values_of n hs
  unfolding values_of without
  values_of-without_other d [] = refl
  values_of-without_other d (h ∷ hs) = elim (Bool-cases (codes_eq (map lower h.name) n)) [
    | inl same ↦
        let through : names (map lower h.name) dropped ≡ false =
          ap (λ m. names m dropped) (codes_eq-eq (map lower h.name) n same) ∙ d in
        rw (through, same) (ap (λ r. h.value ∷ r) (values_of-without_other d hs))
    | inr other ↦ elim (Bool-cases (names (map lower h.name) dropped)) [
      | inl e ↦ rw (e, other) (values_of-without_other d hs)
      | inr e ↦ rw (e, other) (values_of-without_other d hs)
    ]
  ]

  -- A header that is set under a dropped name is not one that comes through.
  apart : (m : List ℕ) → names m dropped ≡ true → names n dropped ≡ false → codes_eq m n ≡ false
  apart m d e = elim (Bool-cases (codes_eq m n)) [
    | inr other ↦ other
    | inl same ↦ absurd (cc (ap (λ k. names k dropped) (codes_eq-eq m n same), d, e))
  ]

  values_of-named :
      names n dropped ≡ false
      → (hs : List Header) → All (λ h. names (map lower h.name) dropped ≡ true) hs
      → values_of n hs ≡ []
  unfolding values_of
  values_of-named d [] all = refl
  values_of-named d (h ∷ hs) all =
      rw (apart (map lower h.name) all.0 d) (values_of-named d hs all.1)

abbrev pub dropped_names : Bool → List (List ℕ)
dropped_names force_deflate = strip_request_headers ++ replaced_headers force_deflate

abbrev pub workspace_values : Option ℤ → List (List ℕ)
workspace_values none = []
workspace_values (some w) = str_of_int w ∷ []

-- Each header that the proxy answers for is there exactly once, with the proxy's value; hop-by-hop
-- and spoofable headers are gone; every other header is as the client sent it.
pub record IsExact (host : List ℕ) (o : Origin) (workspace_id : Option ℤ) (token : List ℕ)
    (force_deflate : Bool) (hs sent : List Header) : Type 0 where
  pub authorization : values_of (codes "authorization") sent ≡ (codes "Bearer " ++ token) ∷ []
  pub workspace : values_of (codes "x-workspace") sent ≡ workspace_values workspace_id
  pub host_once : values_of (codes "host") sent ≡ host ∷ []
  pub client : values_of (codes "x-forwarded-for") sent ≡ o.client_host ∷ []
  pub real_ip : values_of (codes "x-real-ip") sent ≡ o.client_host ∷ []
  pub asked_host : values_of (codes "x-forwarded-host") sent ≡ o.hostname ∷ []
  pub asked_scheme : values_of (codes "x-forwarded-proto") sent ≡ o.scheme ∷ []
  pub encoding :
      force_deflate ≡ true → values_of (codes "accept-encoding") sent ≡ codes "deflate" ∷ []
  pub hop_by_hop : All (λ n. values_of n sent ≡ []) hop_by_hop_headers
  pub others :
      (n : List ℕ)
      → names n (dropped_names force_deflate) ≡ false
      → values_of n sent ≡ values_of n hs

dropped_encoding : (f : Bool) → f ≡ true → names (codes "accept-encoding") (dropped_names f) ≡ true
dropped_encoding true h = refl
dropped_encoding false h = absurd (cc h)

dropped_hop_by_hop : (f : Bool) → All (λ n. names n (dropped_names f) ≡ true) hop_by_hop_headers
dropped_hop_by_hop f = (refl, (refl, (refl, (refl, (refl, (refl, (refl, (refl, (refl, tt)))))))))

module _ (host : List ℕ) (o : Origin) (token : List ℕ) where
  -- the headers behind the client's
  abbrev set_headers : Option ℤ → Bool → List Header
  set_headers w f =
      origin_headers host o
      ++ (workspace_header w
          ++ (header (codes "Authorization") (codes "Bearer " ++ token) ∷ deflate_header f))

  set_authorization :
      (w : Option ℤ) (f : Bool)
      → values_of (codes "authorization") (set_headers w f) ≡ (codes "Bearer " ++ token) ∷ []
  unfolding values_of
  set_authorization none true = refl
  set_authorization none false = refl
  set_authorization (some w) true = refl
  set_authorization (some w) false = refl

  set_workspace :
      (w : Option ℤ) (f : Bool)
      → values_of (codes "x-workspace") (set_headers w f) ≡ workspace_values w
  unfolding values_of
  set_workspace none true = refl
  set_workspace none false = refl
  set_workspace (some w) true = refl
  set_workspace (some w) false = refl

  -- The names that `origin_headers` sets.
  abbrev OriginValues : List Header → Type 0
  OriginValues hs =
      (values_of (codes "host") hs ≡ host ∷ [])
      × (values_of (codes "x-forwarded-for") hs ≡ o.client_host ∷ [])
      × (values_of (codes "x-real-ip") hs ≡ o.client_host ∷ [])
      × (values_of (codes "x-forwarded-host") hs ≡ o.hostname ∷ [])
      × (values_of (codes "x-forwarded-proto") hs ≡ o.scheme ∷ [])

  set_origin : (w : Option ℤ) (f : Bool) → OriginValues (set_headers w f)
  unfolding values_of
  set_origin none true = (refl, refl, refl, refl, refl)
  set_origin none false = (refl, refl, refl, refl, refl)
  set_origin (some w) true = (refl, refl, refl, refl, refl)
  set_origin (some w) false = (refl, refl, refl, refl, refl)

  set_encoding :
      (w : Option ℤ) (f : Bool)
      → f ≡ true
      → values_of (codes "accept-encoding") (set_headers w f) ≡ codes "deflate" ∷ []
  unfolding values_of
  set_encoding none true h = refl
  set_encoding (some w) true h = refl
  set_encoding w false h = absurd (cc h)

  set_hop_by_hop :
      (w : Option ℤ) (f : Bool) → All (λ n. values_of n (set_headers w f) ≡ []) hop_by_hop_headers
  unfolding values_of
  set_hop_by_hop none true =
      (refl, (refl, (refl, (refl, (refl, (refl, (refl, (refl, (refl, tt)))))))))
  set_hop_by_hop none false =
      (refl, (refl, (refl, (refl, (refl, (refl, (refl, (refl, (refl, tt)))))))))
  set_hop_by_hop (some w) true =
      (refl, (refl, (refl, (refl, (refl, (refl, (refl, (refl, (refl, tt)))))))))
  set_hop_by_hop (some w) false =
      (refl, (refl, (refl, (refl, (refl, (refl, (refl, (refl, (refl, tt)))))))))

  set_names :
      (w : Option ℤ) (f : Bool)
      → All (λ h. names (map lower h.name) (dropped_names f) ≡ true) (set_headers w f)
  set_names none true = (refl, (refl, (refl, (refl, (refl, (refl, (refl, tt)))))))
  set_names none false = (refl, (refl, (refl, (refl, (refl, (refl, tt))))))
  set_names (some w) true = (refl, (refl, (refl, (refl, (refl, (refl, (refl, (refl, tt))))))))
  set_names (some w) false = (refl, (refl, (refl, (refl, (refl, (refl, (refl, tt)))))))

  set_others :
      (n : List ℕ) (w : Option ℤ) (f : Bool)
      → names n (dropped_names f) ≡ false
      → values_of n (set_headers w f) ≡ []
  set_others n w f d = values_of-named n (dropped_names f) d (set_headers w f) (set_names w f)

  module _ (w : Option ℤ) (f : Bool) (hs : List Header) where
    values_of-set :
        (n : List ℕ)
        → names n (dropped_names f) ≡ true
        → values_of n (request_headers host o w token f hs) ≡ values_of n (set_headers w f)
    unfolding request_headers
    values_of-set n d =
        values_of-append n (without (dropped_names f) hs) (set_headers w f)
        ∙ ap (λ r. r ++ values_of n (set_headers w f)) (values_of-without n (dropped_names f) d hs)

    values_of-others :
        (n : List ℕ)
        → names n (dropped_names f) ≡ false
        → values_of n (request_headers host o w token f hs) ≡ values_of n hs
    unfolding request_headers
    values_of-others n d =
        values_of-append n (without (dropped_names f) hs) (set_headers w f)
        ∙ ap (λ r. r ++ values_of n (set_headers w f))
            (values_of-without_other n (dropped_names f) d hs)
        ∙ ap (λ r. values_of n hs ++ r) (set_others n w f d)
        ∙ append-nil (values_of n hs)

    pub request_headers-IsExact : IsExact host o w token f hs (request_headers host o w token f hs)
    request_headers-IsExact = record {
      authorization = values_of-set (codes "authorization") refl ∙ set_authorization w f;
      workspace = values_of-set (codes "x-workspace") refl ∙ set_workspace w f;
      host_once = values_of-set (codes "host") refl ∙ (set_origin w f).0;
      client = values_of-set (codes "x-forwarded-for") refl ∙ (set_origin w f).1;
      real_ip = values_of-set (codes "x-real-ip") refl ∙ (set_origin w f).2;
      asked_host = values_of-set (codes "x-forwarded-host") refl ∙ (set_origin w f).3;
      asked_scheme = values_of-set (codes "x-forwarded-proto") refl ∙ (set_origin w f).4;
      encoding = λ yes_please.
          values_of-set (codes "accept-encoding") (dropped_encoding f yes_please)
          ∙ set_encoding w f yes_please;
      hop_by_hop =
          All-map (λ n. (names n (dropped_names f) ≡ true) × (values_of n (set_headers w f) ≡ []))
            (λ n. values_of n (request_headers host o w token f hs) ≡ [])
            (λ n d. values_of-set n d.0 ∙ d.1) hop_by_hop_headers
            (All-zip (λ n. names n (dropped_names f) ≡ true)
              (λ n. values_of n (set_headers w f) ≡ []) hop_by_hop_headers (dropped_hop_by_hop f)
              (set_hop_by_hop w f));
      others = values_of-others;
    }

-- An anonymous request for the capabilities carries no credentials and no workspace.
pub record IsAnonymous (sent : List Header) : Type 0 where
  pub no_authorization : values_of (codes "authorization") sent ≡ []
  pub no_workspace : values_of (codes "x-workspace") sent ≡ []
  pub no_hop_by_hop : All (λ n. values_of n sent ≡ []) hop_by_hop_headers

module _ (host : List ℕ) (o : Origin) (hs : List Header) where
  abbrev kept_out : List (List ℕ)
  kept_out = strip_request_headers ++ codes "authorization" ∷ codes "x-workspace" ∷ []

  anonymous_none :
      (n : List ℕ)
      → names n kept_out ≡ true
      → values_of n (origin_headers host o) ≡ []
      → values_of n (anonymous_headers host o hs) ≡ []
  unfolding anonymous_headers
  anonymous_none n d e =
      values_of-append n (without kept_out hs) (origin_headers host o)
      ∙ ap (λ r. r ++ values_of n (origin_headers host o)) (values_of-without n kept_out d hs)
      ∙ e

  pub anonymous_headers-IsAnonymous : IsAnonymous (anonymous_headers host o hs)
  unfolding values_of
  anonymous_headers-IsAnonymous = record {
    no_authorization = anonymous_none (codes "authorization") refl refl;
    no_workspace = anonymous_none (codes "x-workspace") refl refl;
    no_hop_by_hop = (
      anonymous_none (codes "connection") refl refl,
      (
        anonymous_none (codes "content-length") refl refl,
        (
          anonymous_none (codes "keep-alive") refl refl,
          (
            anonymous_none (codes "proxy-authenticate") refl refl,
            (
              anonymous_none (codes "proxy-authorization") refl refl,
              (
                anonymous_none (codes "te") refl refl,
                (
                  anonymous_none (codes "trailers") refl refl,
                  (
                    anonymous_none (codes "transfer-encoding") refl refl,
                    (anonymous_none (codes "upgrade") refl refl, tt),
                  ),
                ),
              ),
            ),
          ),
        ),
      ),
    );
  }
