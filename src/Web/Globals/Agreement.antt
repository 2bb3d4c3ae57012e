-- ===== src/Web/Globals/Agreement.antt =====
-- internal/web/server.go, handleSettings: the store and the hub after a change of the settings.
use wakehub.Base.{
  ◌≡◌, inl, inr, refl, sym, ap, ◌∙◌, subst, String, ◌&&◌, Option, none, some, Result, ok, err,
  Option-cases, Bool-cases, arith,
}
use wakehub.Config.{Settings}
use wakehub.Config.Password.{Bcrypt, ensure_password_hashed}
use wakehub.Config.Random.{random_token}
use wakehub.Config.Store.{Store, Env, save_locked}
use wakehub.Config.Store.Globals.{settings, update_settings, globals_writable}
use wakehub.Hub.{set_token}
use wakehub.Bemfa.{Call}
use wakehub.Web.Globals.{
  Site, Answer, Body, draws_token, changed, change_settings, on_settings_changed, apply_settings,
  store_settings, put_settings,
}

-- The hub lets in the clients with the token of the settings.
abbrev pub IsAgreed : Site → Type 0
IsAgreed site = site.hub.token ≡ (settings site.store).client_token

apply_settings-IsAgreed :
    (crypt : Bcrypt) (call : Call) (uci : Settings → Option String) (site : Site)
    → uci (settings site.store) ≡ none
    → IsAgreed (apply_settings crypt call uci site).0
unfolding apply_settings on_settings_changed set_token
apply_settings-IsAgreed crypt call uci site written =
    elim (Bool-cases
      ((settings site.store).global_managed_by_luci && globals_writable (settings site.store))) [
        | inl mirrored ↦ simp (mirrored, written, apply_settings) refl
        | inr own ↦ simp (own, apply_settings) refl
      ]

store-apply_settings :
    (crypt : Bcrypt) (call : Call) (uci : Settings → Option String) (site : Site)
    → (apply_settings crypt call uci site).0.store ≡ site.store
unfolding apply_settings on_settings_changed
store-apply_settings crypt call uci site = ground arith

-- The flags of LuCI are not changed by the page.
abbrev pub IsManagedAs : Settings → Settings → Type 0
IsManagedAs before after =
    (after.global_managed_by_luci ≡ before.global_managed_by_luci)
    × (after.web_global_mode ≡ before.web_global_mode)

update_settings-IsManagedAs :
    (crypt : Bcrypt) (env : Env) (drawn : String) (b : Body) (s : Store)
    → (update_settings crypt env (change_settings crypt drawn b) s).1 ≡ none
    → IsManagedAs
        (settings s)
        (settings (update_settings crypt env (change_settings crypt drawn b) s).0)
unfolding update_settings change_settings changed save_locked settings ensure_password_hashed
update_settings-IsManagedAs crypt env drawn b s e = ground (arith)

store_settings-IsAgreed :
    (crypt : Bcrypt) (env : Env) (call : Call) (uci : Settings → Option String) (drawn : String)
    (b : Body) (site : Site)
    → ((st : Settings) → uci st ≡ none)
    → (store_settings crypt env call uci drawn b site).1.code ≡ 200
    → IsAgreed (store_settings crypt env call uci drawn b site).0
      × IsManagedAs
          (settings site.store)
          (settings (store_settings crypt env call uci drawn b site).0.store)
unfolding store_settings
store_settings-IsAgreed crypt env call uci drawn b site written fine =
    let updated = update_settings crypt env (change_settings crypt drawn b) site.store in
    let site' : Site = record site { store = updated.0 } in
    elim (Option-cases updated.1) [
      | inr (e, failed) ↦ absurd (ground arith)
      | inl done ↦
          let kept = update_settings-IsManagedAs crypt env drawn b site.store done in
          let same = store-apply_settings crypt call uci site' in
          simp (done, store_settings)
            (
              apply_settings-IsAgreed crypt call uci site' (written (settings updated.0)),
              subst (λ t. IsManagedAs (settings site.store) (settings t)) (sym same) kept,
            )
    ]

taken_of :
    (crypt : Bcrypt) (env : Env) (call : Call) (uci : Settings → Option String) (drawn : String)
    (b : Body) (site site' : Site) (answer : Answer)
    → ((st : Settings) → uci st ≡ none)
    → store_settings crypt env call uci drawn b site ≡ (site', answer)
    → answer.code ≡ 200
    → IsAgreed site' × IsManagedAs (settings site.store) (settings site'.store)
taken_of crypt env call uci drawn b site site' answer written made fine =
    subst (λ p. IsAgreed p.0 × IsManagedAs (settings site.store) (settings p.0.store)) made
      (store_settings-IsAgreed crypt env call uci drawn b site written
        (ap (λ p. p.1.code) made ∙ fine))

-- Where the page's settings are taken, with the answer 200, the hub lets clients in with the token
-- that the store now has, and the flags of LuCI are as they were. Writing to UCI has no error.
pub put_settings-IsAgreed :
    (crypt : Bcrypt) (env : Env) (call : Call) (uci : Settings → Option String) (body : Result Body)
    (site site' : Site) (answer : Answer)
    → ((st : Settings) → uci st ≡ none)
    → put_settings crypt env call uci body site ≡ some (site', answer)
    → answer.code ≡ 200
    → IsAgreed site' × IsManagedAs (settings site.store) (settings site'.store)
unfolding put_settings
put_settings-IsAgreed crypt env call uci (err e) site site' answer written put fine =
    elim (Bool-cases (globals_writable (settings site.store))) [
      | inr locked ↦ absurd (ground arith)
      | inl writable ↦ absurd (ground arith)
    ]
put_settings-IsAgreed crypt env call uci (ok b) site site' answer written put fine =
    elim (Bool-cases (globals_writable (settings site.store))) [
      | inr locked ↦ absurd (ground arith)
      | inl writable ↦ elim (Bool-cases (draws_token b)) [
        | inr given ↦ taken_of crypt env call uci "" b site site' answer written (ground arith) fine
        | inl draws ↦ elim (Option-cases (random_token env.read 32)) [
          | inl panic ↦ absurd (ground arith)
          | inr (drawn, e) ↦
              taken_of crypt env call uci drawn b site site' answer written (ground arith) fine
        ]
      ]
    ]
