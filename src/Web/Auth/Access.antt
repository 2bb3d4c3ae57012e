-- ===== src/Web/Auth/Access.antt =====
-- internal/web/auth.go: the conditions of access.
use wakehub.Base.{
  String, true, false, ◌≡◌, ◌↔◌, ◌⊎◌, Option, none, some, if◌then◌else◌, ◌==◌, eq_iff, arith,
  Option-cases, inl, inr,
}
use wakehub.Config.{Settings, default_ws_path, default_auth_user}
use wakehub.Config.Password.{Bcrypt, check_password, subtle_constant_equal}
use wakehub.Config.Password.Bytes.{subtle_constant_equal_iff}
use wakehub.Web.Auth.{Request, served, secure_equal, with_basic_auth}

abbrev pub IsExempt : Settings → Request → Type 0
IsExempt st r =
    (r.path ≡ (if st.ws_path == "" then default_ws_path else st.ws_path))
    ⊎ ((r.path ≡ "/healthz") ⊎ (r.path ≡ "/readyz"))

abbrev pub HasCredentials : Bcrypt → Settings → Option (String × String) → Type 0
HasCredentials crypt st none = ⊥
HasCredentials crypt st (some (u, p)) =
    (u ≡ (if st.basic_auth_user == "" then default_auth_user else st.basic_auth_user))
    × (check_password crypt st.basic_auth_password p ≡ true)

secure_equal_iff : (a b : String) → (secure_equal a b ≡ true) ↔ (a ≡ b)
unfolding secure_equal subtle_constant_equal
secure_equal_iff a b = ground (arith, subtle_constant_equal_iff a b)

-- A request reaches the handlers exactly when its path is exempt, authentication is off, or it
-- carries the user's name and a password that the stored one accepts.
pub with_basic_auth-served_iff :
    (crypt : Bcrypt) (st : Settings) (r : Request)
    → (with_basic_auth crypt st r ≡ served)
      ↔ (IsExempt st r ⊎ ((st.basic_auth_enable ≡ false) ⊎ HasCredentials crypt st r.basic_auth))
unfolding with_basic_auth
with_basic_auth-served_iff crypt st r =
    let ws_path = if st.ws_path == "" then default_ws_path else st.ws_path in
    elim (Option-cases r.basic_auth) [
      | inl e ↦
          rw (e, with_basic_auth)
            (ground
              (arith, eq_iff r.path ws_path, eq_iff r.path "/healthz", eq_iff r.path "/readyz"))
      | inr ((u, p), e) ↦
          let user = if st.basic_auth_user == "" then default_auth_user else st.basic_auth_user in
          rw (e, with_basic_auth)
            (ground (
              arith,
              eq_iff r.path ws_path,
              eq_iff r.path "/healthz",
              eq_iff r.path "/readyz",
              secure_equal_iff u user,
            ))
    ]
