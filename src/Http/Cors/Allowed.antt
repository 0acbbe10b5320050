-- ===== src/Http/Cors/Allowed.antt =====
-- Which origins originAllowed lets in.
use wildman_service.Base.{
  ℕ, ◌≡◌, ◌≢◌, ◌↔◌, ◌⊎◌, inl, inr, true, false, Option, some, List, [], ◌∷◌, ◌++◌, map, arith,
  Option-cases, int_eq, string_eq, nat_eq, list_beq_iff, list_eq, Text, codes,
}
use wildman_service.Http.Cors.{Url, any_allowed, is_plain_origin, url_allowed, origin_allowed}

-- A URL that is nothing but a web origin, with at most a slash for its path.
pub record IsPlainOrigin (v : Url) : Type 0 where
  pub web : (v.scheme ≡ codes "http") ⊎ (v.scheme ≡ codes "https")
  pub hosted : v.host ≢ []
  pub no_user : v.has_user ≡ false
  pub no_path : (v.path ≡ []) ⊎ (v.path ≡ codes "/")
  pub no_query : v.raw_query ≡ []
  pub no_fragment : v.fragment ≡ []

-- An origin that the configuration lists, up to the case of the letters.
abbrev pub IsListed : (ℕ → ℕ) → Text → List Text → Type 0
IsListed fold origin [] = ⊥
IsListed fold origin (allowed ∷ more) =
    (map fold origin ≡ map fold allowed) ⊎ IsListed fold origin more

any_allowed_iff :
    (fold : ℕ → ℕ) (origin : Text) (allowed : List Text)
    → (any_allowed fold origin allowed ≡ true) ↔ IsListed fold origin allowed
unfolding any_allowed
any_allowed_iff fold origin [] = (λ h. cc, λ h. absurd h)
any_allowed_iff fold origin (a ∷ more) =
    ground (arith, any_allowed_iff fold origin more, list_beq_iff (map fold origin) (map fold a))

plain_iff : (v : Url) → (is_plain_origin v ≡ true) ↔ IsPlainOrigin v
unfolding is_plain_origin
plain_iff v = (
  λ h. record {
    web =
        ground
          (arith, h, list_beq_iff v.scheme (codes "http"), list_beq_iff v.scheme (codes "https"));
    hosted = ground (arith, h, list_beq_iff v.host []);
    no_user = ground (arith, h);
    no_path = ground (arith, h, list_beq_iff v.path [], list_beq_iff v.path (codes "/"));
    no_query = ground (arith, h, list_beq_iff v.raw_query []);
    no_fragment = ground (arith, h, list_beq_iff v.fragment []);
  },
  λ p. ground (
    arith,
    p.web,
    p.hosted,
    p.no_user,
    p.no_path,
    p.no_query,
    p.no_fragment,
    list_beq_iff v.scheme (codes "http"),
    list_beq_iff v.scheme (codes "https"),
    list_beq_iff v.host [],
    list_beq_iff v.path [],
    list_beq_iff v.path (codes "/"),
    list_beq_iff v.raw_query [],
    list_beq_iff v.fragment [],
  ),
)

-- An origin is allowed exactly when it is a URL that is nothing but a web origin, and its host is that of the
-- request or the configuration lists it, both up to the case of the letters.
pub origin_allowed_iff :
    (fold : ℕ → ℕ) (parse : Text → Option Url) (origin request_host : Text) (allowed : List Text)
    → (origin_allowed fold parse origin request_host allowed ≡ true) ↔ (
        (v : Url) × (parse origin ≡ some v)
        × IsPlainOrigin v
        × ((map fold v.host ≡ map fold request_host)
            ⊎ IsListed fold (v.scheme ++ codes "://" ++ v.host) allowed))
unfolding origin_allowed url_allowed
origin_allowed_iff fold parse origin request_host allowed = (
  λ h. elim (Option-cases (parse origin)) [
    | inl bad ↦ cc (rw bad at h)
    | inr (v, e) ↦
        let listed = any_allowed_iff fold (v.scheme ++ codes "://" ++ v.host) allowed in
        let same = list_beq_iff (map fold v.host) (map fold request_host) in
        let h' : url_allowed fold request_host allowed (some v) ≡ true = rw e at h in
        let plain : is_plain_origin v ≡ true = ground (arith, h') in
        (v, e, (plain_iff v).0 plain, ground (arith, h', plain, listed, same))
  ],
  λ w.
      let (v, e, plain, among) = w in
      rw e (
        ground (
          arith,
          among,
          (plain_iff v).1 plain,
          any_allowed_iff fold (v.scheme ++ codes "://" ++ v.host) allowed,
          list_beq_iff (map fold v.host) (map fold request_host),
        )),
)
