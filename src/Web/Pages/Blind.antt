-- ===== src/Web/Pages/Blind.antt =====
-- internal/web: what a request without the password changes and learns.
use wakehub.Base.{
  ◌≡◌, ◌≢◌, inl, inr, refl, sym, ap, ◌∙◌, String, true, Bool-cases, some, if◌then◌else◌, ◌==◌,
  length,
}
use wakehub.Config.{Settings}
use wakehub.Config.Password.{Bcrypt}
use wakehub.Config.Store.{list_devices}
use wakehub.Config.Store.Globals.{settings}
use wakehub.Hub
use wakehub.Web.Auth.{Request}
use wakehub.Web.Auth.Access.{HasCredentials}
use wakehub.Web.Routes.{Page, Routes, routes, ws_path_of}
use wakehub.Web.Routes.Anonymous.{reaches-anonymous}
use wakehub.Web.Pages.{
  Server, Answer, turned_away, Query, serve_page, serve, handle_healthz, handle_readyz,
}

-- What a request meets that has no password, on a server that asks for it.
abbrev pub IsAnonymous : Bcrypt → Request → Server → Type 0
IsAnonymous crypt r s =
    let st = settings s.site.store in
    (r.path ≢ ws_path_of st)
    × (st.basic_auth_enable ≡ true)
    × ¬ HasCredentials crypt st r.basic_auth

-- As many devices and clients.
abbrev pub SameNumbers : Server → Server → Type 0
SameNumbers s t =
    (length (list_devices s.site.store) ≡ length (list_devices t.site.store))
    × (length (Hub.list s.site.hub) ≡ length (Hub.list t.site.hub))

-- The answer to it.
abbrev answer_of : Query → String → Server → Answer
answer_of q path s =
    if path == "/healthz"
    then handle_healthz q.method
    else if path == "/readyz"
    then handle_readyz q.method s
    else turned_away

serve-anonymous :
    (crypt : Bcrypt) (start : Settings) (rs : Routes) (others : Page → Server → Server × Answer)
    (q : Query) (r : Request) (s : Server)
    → routes start ≡ some rs
    → IsAnonymous crypt r s
    → serve crypt rs others q r s ≡ (s, answer_of q r.path s)
unfolding serve serve_page
serve-anonymous crypt start rs others q r s started (elsewhere, asked, anonymous) =
    let reached =
      reaches-anonymous crypt start (settings s.site.store) rs r started elsewhere asked
        anonymous in
    elim (Bool-cases (r.path == "/healthz")) [
      | inl health ↦ rw (serve, reached, health) refl
      | inr other ↦ elim (Bool-cases (r.path == "/readyz")) [
        | inl ready ↦ rw (serve, reached, other, ready) refl
        | inr closed ↦ rw (serve, reached, other, closed) refl
      ]
    ]

-- Where the password is asked for, a request without it, for another path than that of the socket,
-- changes nothing, and all that its answer tells of the server is how many devices and clients there
-- are: two servers with as many, whatever they hold, give it the same answer.
pub serve-IsBlind :
    (crypt : Bcrypt) (start : Settings) (rs : Routes) (others : Page → Server → Server × Answer)
    (q : Query) (r : Request) (s t : Server)
    → routes start ≡ some rs
    → IsAnonymous crypt r s
    → IsAnonymous crypt r t
    → SameNumbers s t
    → ((serve crypt rs others q r s).0 ≡ s)
      × ((serve crypt rs others q r s).1 ≡ (serve crypt rs others q r t).1)
unfolding handle_readyz
serve-IsBlind crypt start rs others q r s t started here there (devices, clients) =
    let one = serve-anonymous crypt start rs others q r s started here in
    let two = serve-anonymous crypt start rs others q r t started there in
    let same : answer_of q r.path s ≡ answer_of q r.path t = rw (devices, clients) refl in
    (ap (λ a. a.0) one, ap (λ a. a.1) one ∙ same ∙ sym (ap (λ a. a.1) two))
