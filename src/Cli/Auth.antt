-- ===== src/Cli/Auth.antt =====
-- internal/cli/report.go: the credentials of the backend, from the configuration, the environment and a file.
pub mod Grants
mod Tests
use Prim.Native.Char.{code}
use obscost.Prelude.{
  String, Bool, true, false, not, ◌&&◌, ◌||◌, Option, none, some, if◌then◌else◌, ◌==◌,
  string_comparable, nat_beq, is_some,
}
use obscost.Prelude.Result.{Error, Result, ok, err}

-- `config.BasicAuth`
pub record BasicAuth : Type 0 where
  pub username : String
  pub password_env : String
  pub password_file : String
  pub password : String

-- `config.BackendAuth`
pub record BackendAuth : Type 0 where
  pub bearer_token_env : String
  pub basic_auth : Option BasicAuth

-- `backendCreds`; basic auth is a user name with a password
pub record BackendCreds : Type 0 where
  pub header : String
  pub bearer_token : String
  pub basic_auth : Option (String × String)

pub data AuthError : Type 0 where
  token_and_basic_auth : AuthError
  token_unset : String → AuthError
  inline_password : AuthError
  no_username : AuthError
  env_and_file : AuthError
  password_unset : String → AuthError
  file_not_read : Error → AuthError
  file_empty : String → AuthError
  no_password : AuthError

pub data AuthResult (A : Type 0) : Type 0 where
  granted : A → AuthResult A
  denied : AuthError → AuthResult A

-- `strings.TrimRight(s, "\r\n")`
unfoldable pub trim_line_end : String → String
trim_line_end String.[] = ""
trim_line_end (String.◌∷◌ c s) =
    let rest = trim_line_end s in
    if rest == "" && (nat_beq (code c) 13 || nat_beq (code c) 10) then "" else String.◌∷◌ c rest

-- `getenv` is `os.Getenv`, and `read_file` is `os.ReadFile`.
module _ (getenv : String → String) (read_file : String → Result String) where
  abbrev pub filled : AuthError → String → AuthResult String
  filled e p = if p == "" then denied e else granted p

  abbrev pub from_file : String → Result String → AuthResult String
  from_file name (err e) = denied (file_not_read e)
  from_file name (ok text) = filled (file_empty name) (trim_line_end text)

  -- `basicAuthPassword`
  unfoldable pub basic_auth_password : BasicAuth → AuthResult String
  unfolding trim_line_end
  basic_auth_password b =
      if not (b.password == "")
      then denied inline_password
      else if b.username == ""
      then denied no_username
      else if not (b.password_env == "") && not (b.password_file == "")
      then denied env_and_file
      else if not (b.password_env == "")
      then filled (password_unset b.password_env) (getenv b.password_env)
      else if not (b.password_file == "")
      then from_file b.password_file (read_file b.password_file)
      else denied no_password

  abbrev pub with_password : BackendCreds → String → AuthResult String → AuthResult BackendCreds
  with_password c user (denied e) = denied e
  with_password c user (granted p) = granted (record c { basic_auth = some (user, p) })

  abbrev pub with_basic_auth : BackendCreds → Option BasicAuth → AuthResult BackendCreds
  with_basic_auth c none = granted c
  with_basic_auth c (some b) = with_password c b.username (basic_auth_password b)

  -- `backendAuth`, for the tenancy header that is configured
  unfoldable pub backend_auth : String → BackendAuth → AuthResult BackendCreds
  unfolding basic_auth_password
  backend_auth header auth =
      let c : BackendCreds = record {
        header = if header == "" then "X-Scope-OrgID" else header;
        bearer_token = "";
        basic_auth = none;
      } in
      let token = getenv auth.bearer_token_env in
      if not (auth.bearer_token_env == "") && is_some auth.basic_auth
      then denied token_and_basic_auth
      else if auth.bearer_token_env == ""
      then with_basic_auth c auth.basic_auth
      else if token == ""
      then denied (token_unset auth.bearer_token_env)
      else with_basic_auth (record c { bearer_token = token }) auth.basic_auth
