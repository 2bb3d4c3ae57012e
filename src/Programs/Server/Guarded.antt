-- ===== src/Programs/Server/Guarded.antt =====
-- cmd/server/main.go: what the server lets in once it serves.
use Prim.Native.String.{len}
use wakehub.Base.{
  ◌≡◌, ◌≢◌, inl, inr, refl, sym, ap, ◌∙◌, String, true, false, none, some, ◌==◌, eq_iff, Bool-cases,
  Option-cases, Result-cases, arith,
}
use wakehub.Text.{trim_space}
use wakehub.Config.Password.{Bcrypt, ensure_password_hashed}
use wakehub.Config.Random.{random_token}
use wakehub.Config.Random.Bounds.{FillsSlices, len-random_token}
use wakehub.Config.Store.{Store, Env, save_locked}
use wakehub.Config.Store.Loading.{Reading, open_store}
use wakehub.Config.Store.Globals.{with_settings, settings, update_settings, ensure_client_token}
use wakehub.Hub.{new_hub}
use wakehub.Bemfa.{Call}
use wakehub.Web.Globals.{Site}
use wakehub.Web.Globals.Agreement.{IsAgreed}
use wakehub.Programs.Server.{serves, with_listen, assemble, start}

token-ne-empty :
    (env : Env) (token : String)
    → FillsSlices env.read
    → random_token env.read 32 ≡ some token
    → token ≢ ""
token-ne-empty env token fills made e =
    let long = len-random_token env.read token fills made in absurd (ground (arith, ap len e))

blank_of_empty : (s : String) → s ≡ "" → (trim_space s == "") ≡ true
unfolding trim_space
blank_of_empty s e = ap (λ t. trim_space t == "") e

settings-save_locked : (env : Env) (s : Store) → settings (save_locked env s).0 ≡ settings s
unfolding settings save_locked
settings-save_locked env s = ground arith

settings-ensure_client_token :
    (env : Env) (token : String) (s : Store)
    → (trim_space (settings s).client_token == "") ≡ true
    → random_token env.read 32 ≡ some token
    → settings (ensure_client_token env s).0 ≡ record (settings s) { client_token = token }
unfolding ensure_client_token settings
settings-ensure_client_token env token s blank made =
    let drawn : Store = with_settings s (record (settings s) { client_token = token }) in
    let kept = settings-save_locked env drawn in
    elim (Option-cases (save_locked env drawn).1) [
      | inl saved ↦ rw (blank, made, saved, ensure_client_token) kept
      | inr (e, failed) ↦ rw (blank, made, failed, ensure_client_token) kept
    ]

-- The settings have a token after EnsureClientToken, and the address that they had.
ensure_client_token-IsGiven :
    (env : Env) (s : Store)
    → FillsSlices env.read
    → (ensure_client_token env s).1 ≢ none
    → ((settings (ensure_client_token env s).0).client_token ≢ "")
      × ((settings (ensure_client_token env s).0).listen ≡ (settings s).listen)
unfolding ensure_client_token settings
ensure_client_token-IsGiven env s fills returned =
    elim (Bool-cases (trim_space (settings s).client_token == "")) [
      | inr given ↦
          rw (given, ensure_client_token)
            (λ e. let blank = blank_of_empty (settings s).client_token e in cc (blank, given), refl)
      | inl blank ↦ elim (Option-cases (random_token env.read 32)) [
        | inl panic ↦ absurd (returned (rw (blank, panic, ensure_client_token) refl))
        | inr (token, made) ↦
            let full = token-ne-empty env token fills made in
            let drawn : Store = with_settings s (record (settings s) { client_token = token }) in
            let saved : (settings (ensure_client_token env s).0) ≡ settings drawn =
              settings-ensure_client_token env token s blank made in
            (λ e. full (sym (ap (λ st. st.client_token) saved) ∙ e), ap (λ st. st.listen) saved)
      ]
    ]

listen-with_listen :
    (crypt : Bcrypt) (env : Env) (listen : String) (s : Store)
    → (listen == "") ≡ false
    → (settings (with_listen crypt env listen s)).listen ≡ listen
unfolding with_listen update_settings settings save_locked ensure_password_hashed
listen-with_listen crypt env listen s given = ground arith

assemble-IsAgreed :
    (call : Call) (s : Store) (site : Site) (addr : String)
    → assemble call s ≡ serves site addr
    → (site.store ≡ s) × IsAgreed site × ((settings s).listen ≢ "" → addr ≡ (settings s).listen)
unfolding assemble new_hub
assemble-IsAgreed call s site addr e =
    (ground arith, ground arith, λ given. ground (arith, eq_iff (settings s).listen ""))

-- A server that has started lets nobody in without a token: the hub has the token of the settings,
-- which is not empty. It serves at the address of the flag -listen, where that is given. The random
-- source fills the slices that it is given.
pub start-IsGuarded :
    (crypt : Bcrypt) (opening listening drawing : Env) (call : Call) (reading : Reading)
    (listen : String) (site : Site) (addr : String)
    → FillsSlices drawing.read
    → start crypt opening listening drawing call reading listen ≡ serves site addr
    → IsAgreed site × (site.hub.token ≢ "") × (listen ≢ "" → addr ≡ listen)
unfolding start
start-IsGuarded crypt opening listening drawing call reading listen site addr fills served =
    elim (Result-cases (open_store crypt opening reading)) [
      | inr (e, failed) ↦ absurd (ground arith)
      | inl (opened, e) ↦
          let s = with_listen crypt listening listen opened in
          let drawn = ensure_client_token drawing s in
          elim (Option-cases drawn.1) [
            | inl panic ↦ absurd (ground arith)
            | inr (token, made) ↦
                let given = ensure_client_token-IsGiven drawing s fills (λ n. cc (made, n)) in
                let assembled : assemble call drawn.0 ≡ serves site addr = ground arith in
                let whole = assemble-IsAgreed call drawn.0 site addr assembled in
                let token_of = ap (λ t. (settings t).client_token) whole.0 in
                (
                  whole.1,
                  λ empty. given.0 (sym token_of ∙ sym whole.1 ∙ empty),
                  λ asked.
                      let kept =
                        given.1
                        ∙ listen-with_listen crypt listening listen opened
                            (ground (arith, eq_iff listen "")) in
                      whole.2 (λ empty. asked (sym kept ∙ empty)) ∙ kept,
                )
          ]
    ]
