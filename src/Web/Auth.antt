-- ===== src/Web/Auth.antt =====
-- internal/web/auth.go: which requests reach the handlers.
pub mod Access
use wakehub.Base.{
  ℕ, String, Bool, true, false, ◌&&◌, ◌||◌, not, Option, none, some, if◌then◌else◌, ◌==◌, nat_eq,
  length,
}
use wakehub.Config.{Settings, default_ws_path, default_auth_user}
use wakehub.Config.Password.{Bcrypt, bytes, collect_differences, check_password}

unfoldable pub secure_equal : String → String → Bool
secure_equal a b =
    if not (nat_eq (length (bytes a)) (length (bytes b)))
    then false
    else nat_eq (collect_differences 0 (bytes a) (bytes b)) 0

-- r.URL.Path and r.BasicAuth()
pub record Request : Type 0 where
  pub path : String
  pub basic_auth : Option (String × String)

pub data Decision : Type 0 where
  served : Decision
  -- with the header WWW-Authenticate
  unauthorized : Decision

unfoldable pub with_basic_auth : Bcrypt → Settings → Request → Decision
with_basic_auth crypt st r =
    let ws_path = if st.ws_path == "" then default_ws_path else st.ws_path in
    if r.path == ws_path || r.path == "/healthz" || r.path == "/readyz"
    then served
    else if not st.basic_auth_enable
    then served
    else let user = if st.basic_auth_user == "" then default_auth_user else st.basic_auth_user in
      elim r.basic_auth [
        | none ↦ unauthorized
        | some (u, p) ↦
            if not (secure_equal u user) || not (check_password crypt st.basic_auth_password p)
            then unauthorized
            else served
      ]
