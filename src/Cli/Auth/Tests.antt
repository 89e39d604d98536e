-- ===== src/Cli/Auth/Tests.antt =====
-- Basic auth with a password in a file.
use obscost.Prelude.{String, none, some, ◌≡◌, ◌↔◌, refl, if◌then◌else◌, ◌==◌, string_comparable}
use obscost.Prelude.Result.{message, Result, ok, err}
use obscost.Cli.Auth.{
  BackendAuth, BackendCreds, granted, denied, token_unset, basic_auth_password, backend_auth,
  trim_line_end,
}
use obscost.Cli.Auth.Grants.{Grants, backend_auth_lem}

abbrev getenv : String → String
getenv name = if name == "TOKEN" then "secret" else ""

abbrev read_file : String → Result String
read_file name = if name == "pw" then ok "hunter2\r\n" else err (message "no such file")

abbrev by_file : BackendAuth
by_file = record {
  bearer_token_env = "";
  basic_auth =
      some (record { username = "ops"; password_env = ""; password_file = "pw"; password = "" });
}

abbrev ops : BackendCreds
ops = record { header = "X-Scope-OrgID"; bearer_token = ""; basic_auth = some ("ops", "hunter2") }

backend_auth_lem_example :
    (backend_auth getenv read_file "" by_file ≡ granted ops)
    ↔ Grants getenv read_file "" by_file ops
backend_auth_lem_example = backend_auth_lem getenv read_file "" by_file ops

password_of_file : backend_auth getenv read_file "" by_file ≡ granted ops
unfolding backend_auth basic_auth_password trim_line_end
password_of_file = refl

unset :
    backend_auth getenv read_file "" (record { bearer_token_env = "MISSING"; basic_auth = none })
    ≡ denied (token_unset "MISSING")
unfolding backend_auth
unset = refl
