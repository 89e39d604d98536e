-- ===== src/Cli/Auth/Grants.antt =====
-- Which credentials `backendAuth` gives, and for which configurations.
use obscost.Prelude.{
  String, true, false, Option, none, some, ◌≡◌, ◌≢◌, ◌↔◌, refl, sym, ap, ◌∙◌, if◌then◌else◌, ◌==◌,
  string_comparable, Bool-cases, Option-cases, inl, inr,
}
use obscost.Prelude.Result.{Result, ok, err}
use obscost.Cli.Auth.{
  BasicAuth, BackendAuth, BackendCreds, AuthError, AuthResult, granted, denied, trim_line_end,
  filled, from_file, basic_auth_password, with_password, backend_auth, file_empty, password_unset,
}

differs : (s t : String) → (s == t) ≡ false → s ≢ t
differs s t h e = cc (h, (string_comparable.equal_iff s t).1 e)

same_test : (s : String) → s ≡ "" → (s == "") ≡ true
same_test s h = (string_comparable.equal_iff s "").1 h

other_test : (s : String) → s ≢ "" → (s == "") ≡ false
other_test s h = elim (Bool-cases (s == "")) [
  | inl e ↦ absurd (h ((string_comparable.equal_iff s "").0 e))
  | inr e ↦ e
]

module _ (getenv : String → String) (read_file : String → Result String) where
  -- The password that a block of basic auth stands for.
  pub data Password (b : BasicAuth) (p : String) : Type 0 where
    by_env : b.password_env ≢ "" → b.password_file ≡ "" → getenv b.password_env ≡ p → Password b p
    by_file :
        (text : String)
        → b.password_env ≡ ""
        → b.password_file ≢ ""
        → read_file b.password_file ≡ ok text
        → trim_line_end text ≡ p
        → Password b p

  -- A block with a user, no inline password, and a password that is not empty.
  pub record IsUsable (b : BasicAuth) (p : String) : Type 0 where
    inline : b.password ≡ ""
    user : b.username ≢ ""
    secret : p ≢ ""
    from : Password b p

  filled-granted :
      (e : AuthError) (s p : String) → filled getenv read_file e s ≡ granted p → (s ≡ p) × (p ≢ "")
  filled-granted e s p h = elim (Bool-cases (s == "")) [
    | inl k ↦ cc (rw k at h)
    | inr k ↦ let same : s ≡ p = cc (rw k at h) in (same, λ z. differs s "" k (same ∙ z))
  ]

  from_file-granted :
      (name p : String) (r : Result String)
      → from_file getenv read_file name r ≡ granted p
      → (text : String) × (r ≡ ok text) × (trim_line_end text ≡ p) × (p ≢ "")
  from_file-granted name p (err e) h = cc h
  from_file-granted name p (ok text) h =
      let (same, full) = filled-granted (file_empty name) (trim_line_end text) p h in
      (text, refl, same, full)

  password_sound :
      (b : BasicAuth) (p : String)
      → basic_auth_password getenv read_file b ≡ granted p
      → IsUsable b p
  unfolding basic_auth_password
  password_sound b p h = elim (Bool-cases (b.password == "")) [
    | inr i ↦ cc (rw i at h)
    | inl i ↦ elim (Bool-cases (b.username == "")) [
      | inl u ↦ cc (rw (i, u) at h)
      | inr u ↦ elim (Bool-cases (b.password_env == "")) [
        | inl e ↦ elim (Bool-cases (b.password_file == "")) [
          | inl f ↦ cc (rw (i, u, e, f) at h)
          | inr f ↦
              let (text, read, same, full) =
                from_file-granted b.password_file p (read_file b.password_file)
                  (rw (i, u, e, f) at h) in
              record {
                inline = (string_comparable.equal_iff b.password "").0 i;
                user = differs b.username "" u;
                secret = full;
                from =
                    by_file text ((string_comparable.equal_iff b.password_env "").0 e)
                      (differs b.password_file "" f) read same;
              }
        ]
        | inr e ↦ elim (Bool-cases (b.password_file == "")) [
          | inr f ↦ cc (rw (i, u, e, f) at h)
          | inl f ↦
              let (same, full) =
                filled-granted (password_unset b.password_env) (getenv b.password_env) p
                  (rw (i, u, e, f) at h) in
              record {
                inline = (string_comparable.equal_iff b.password "").0 i;
                user = differs b.username "" u;
                secret = full;
                from =
                    by_env (differs b.password_env "" e)
                      ((string_comparable.equal_iff b.password_file "").0 f) same;
              }
        ]
      ]
    ]
  ]

  filled_complete :
      (e : AuthError) (s p : String) → s ≡ p → p ≢ "" → filled getenv read_file e s ≡ granted p
  filled_complete e s p same full = rw (same, other_test p full) refl

  password_complete :
      (b : BasicAuth) (p : String)
      → IsUsable b p
      → basic_auth_password getenv read_file b ≡ granted p
  unfolding basic_auth_password
  password_complete b p usable = go usable.from
    where
      i : (b.password == "") ≡ true
      i = same_test b.password usable.inline

      u : (b.username == "") ≡ false
      u = other_test b.username usable.user

      go : Password b p → basic_auth_password getenv read_file b ≡ granted p
      go (by_env e f same) =
          rw (i, u, other_test b.password_env e, same_test b.password_file f)
            (filled_complete (password_unset b.password_env) (getenv b.password_env) p same
              usable.secret)
      go (by_file text e f read same) =
          rw (i, u, same_test b.password_env e, other_test b.password_file f, read)
            (filled_complete (file_empty b.password_file) (trim_line_end text) p same usable.secret)

  abbrev creds : String → String → Option (String × String) → BackendCreds
  creds header token basic = record {
    header = if header == "" then "X-Scope-OrgID" else header;
    bearer_token = token;
    basic_auth = basic;
  }

  -- The credentials that a configuration stands for.
  pub data Grants (header : String) (auth : BackendAuth) (c : BackendCreds) : Type 0 where
    anonymous :
        auth.bearer_token_env ≡ ""
        → auth.basic_auth ≡ none
        → c ≡ creds header "" none
        → Grants header auth c
    by_token :
        auth.bearer_token_env ≢ ""
        → auth.basic_auth ≡ none
        → getenv auth.bearer_token_env ≢ ""
        → c ≡ creds header (getenv auth.bearer_token_env) none
        → Grants header auth c
    by_password :
        (b : BasicAuth) (p : String)
        → auth.bearer_token_env ≡ ""
        → auth.basic_auth ≡ some b
        → IsUsable b p
        → c ≡ creds header "" (some (b.username, p))
        → Grants header auth c

  with_password-granted :
      (c d : BackendCreds) (user : String) (r : AuthResult String)
      → with_password getenv read_file c user r ≡ granted d
      → (p : String) × (r ≡ granted p) × (d ≡ record c { basic_auth = some (user, p) })
  with_password-granted c d user (denied e) h = cc h
  with_password-granted c d user (granted p) h = (p, refl, cc h)

  Grants-sound :
      (header : String) (auth : BackendAuth) (c : BackendCreds)
      → backend_auth getenv read_file header auth ≡ granted c
      → Grants header auth c
  unfolding backend_auth
  Grants-sound header auth c h = elim (Bool-cases (auth.bearer_token_env == "")) [
    | inl e ↦ elim (Option-cases auth.basic_auth) [
      | inl n ↦
          anonymous ((string_comparable.equal_iff auth.bearer_token_env "").0 e) n
            (cc (rw (e, n) at h))
      | inr (b, s) ↦
          let (p, got, same) =
            with_password-granted (creds header "" none) c b.username
              (basic_auth_password getenv read_file b) (rw (e, s) at h) in
          by_password b p ((string_comparable.equal_iff auth.bearer_token_env "").0 e) s
            (password_sound b p got) same
    ]
    | inr e ↦ elim (Option-cases auth.basic_auth) [
      | inr (b, s) ↦ cc (rw (e, s) at h)
      | inl n ↦ elim (Bool-cases (getenv auth.bearer_token_env == "")) [
        | inl t ↦ cc (rw (e, n, t) at h)
        | inr t ↦
            by_token (differs auth.bearer_token_env "" e) n
              (differs (getenv auth.bearer_token_env) "" t) (cc (rw (e, n, t) at h))
      ]
    ]
  ]

  Grants-complete :
      (header : String) (auth : BackendAuth) (c : BackendCreds)
      → Grants header auth c
      → backend_auth getenv read_file header auth ≡ granted c
  unfolding backend_auth
  Grants-complete header auth c (anonymous e n k) =
      rw (same_test auth.bearer_token_env e, n) (ap granted (sym k))
  Grants-complete header auth c (by_token e n t k) =
      rw (other_test auth.bearer_token_env e, n, other_test (getenv auth.bearer_token_env) t)
        (ap granted (sym k))
  Grants-complete header auth c (by_password b p e s usable k) =
      rw (same_test auth.bearer_token_env e, s, password_complete b p usable) (ap granted (sym k))

  -- Credentials are given, and as these, exactly if nothing is configured (none), or only a variable for a
  -- token that is not empty, or only basic auth with a user, no inline password, and a password that is
  -- not empty from exactly one of a variable and a file, the file's without the line ends at its end. So
  -- what is configured never ends as an anonymous request.
  pub backend_auth_lem :
      (header : String) (auth : BackendAuth) (c : BackendCreds)
      → (backend_auth getenv read_file header auth ≡ granted c) ↔ Grants header auth c
  backend_auth_lem header auth c = (Grants-sound header auth c, Grants-complete header auth c)
