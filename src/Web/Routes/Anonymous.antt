-- ===== src/Web/Routes/Anonymous.antt =====
-- internal/web/server.go and auth.go: which page a request without the password reaches.
use wakehub.Base.{
  ◌≡◌, ◌≢◌, ◌⊎◌, inl, inr, refl, sym, ap, ◌∙◌, String, true, [], ◌∷◌, Option, Option-cases,
  Bool-cases, none, some, if◌then◌else◌, ◌==◌, eq_iff, lookup, arith,
}
use wakehub.Config.{Settings}
use wakehub.Config.Password.{Bcrypt}
use wakehub.Web.Auth.{Request, Decision, served, unauthorized, with_basic_auth}
use wakehub.Web.Auth.Access.{IsExempt, HasCredentials, with_basic_auth-served_iff}
use wakehub.Web.Routes.{
  Page, healthz, readyz, socket, Routes, fixed_routes, ws_path_of, routes, find_page, reaches,
}
use wakehub.Web.Routes.Open.{
  lookup-append-found, lookup-append-new, routes-inverse, fixed-found, page_of_start,
}

-- The page of a path that needs no password, but for that of the socket.
abbrev pub open_page : String → Option Page
open_page path =
    if path == "/healthz" then some healthz else if path == "/readyz" then some readyz else none

reaches-exempt :
    (crypt : Bcrypt) (st : Settings) (rs : Routes) (r : Request) (page : Page)
    → IsExempt st r
    → find_page rs r.path ≡ some page
    → reaches crypt st rs r ≡ some page
unfolding reaches
reaches-exempt crypt st rs r page exempt found =
    rw (reaches, (with_basic_auth-served_iff crypt st r).1 (inl exempt)) found

lookup-open_page :
    (path : String) (page : Page)
    → open_page path ≡ some page
    → lookup path fixed_routes ≡ some page
lookup-open_page path page opened = elim (Bool-cases (path == "/healthz")) [
  | inl health ↦
      let one : some healthz ≡ some page = ground arith in
      ap (λ p. lookup p fixed_routes) ((eq_iff path "/healthz").0 health) ∙ fixed-found.0 ∙ one
  | inr other ↦ elim (Bool-cases (path == "/readyz")) [
    | inl ready ↦
        let one : some readyz ≡ some page = ground arith in
        ap (λ p. lookup p fixed_routes) ((eq_iff path "/readyz").0 ready) ∙ fixed-found.1 ∙ one
    | inr closed ↦ absurd (ground arith)
  ]
]

open_page-IsExempt :
    (st : Settings) (r : Request) (page : Page) → open_page r.path ≡ some page → IsExempt st r
open_page-IsExempt st r page opened =
    ground (arith, eq_iff r.path "/healthz", eq_iff r.path "/readyz")

Decision-cases : (d : Decision) → (d ≡ served) ⊎ (d ≡ unauthorized)
Decision-cases served = inl refl
Decision-cases unauthorized = inr refl

reaches-closed :
    (crypt : Bcrypt) (st : Settings) (rs : Routes) (r : Request)
    → r.path ≢ ws_path_of st
    → st.basic_auth_enable ≡ true
    → ¬ HasCredentials crypt st r.basic_auth
    → open_page r.path ≡ none
    → reaches crypt st rs r ≡ none
unfolding reaches
reaches-closed crypt st rs r elsewhere asked anonymous closed =
    elim (Decision-cases (with_basic_auth crypt st r)) [
      | inr refused ↦ rw (reaches, refused) refl
      | inl let_in ↦ absurd (elim ((with_basic_auth-served_iff crypt st r).0 let_in) [
        | inl (inl same) ↦ elsewhere same
        | inl (inr (inl same)) ↦ ground (arith, eq_iff r.path "/healthz")
        | inl (inr (inr same)) ↦ ground (arith, eq_iff r.path "/readyz", eq_iff r.path "/healthz")
        | inr (inl off) ↦ ground arith
        | inr (inr known) ↦ anonymous known
      ])
    ]

find_page-socket :
    (start : Settings) (rs : Routes)
    → routes start ≡ some rs
    → find_page rs (ws_path_of start) ≡ some socket
find_page-socket start rs started =
    let (free, made) = routes-inverse start rs started in
    page_of_start start rs (ws_path_of start) socket started
      (lookup-append-new (ws_path_of start) socket fixed_routes [] free)

find_page-open_page :
    (start : Settings) (rs : Routes) (page : Page) (path : String)
    → routes start ≡ some rs
    → open_page path ≡ some page
    → find_page rs path ≡ some page
find_page-open_page start rs page path started opened = page_of_start start rs path page started (
    lookup-append-found path page fixed_routes ((ws_path_of start, socket) ∷ [])
      (lookup-open_page path page opened))

-- What such a request reaches, if it is not for the socket.
pub reaches-anonymous :
    (crypt : Bcrypt) (start st : Settings) (rs : Routes) (r : Request)
    → routes start ≡ some rs
    → r.path ≢ ws_path_of st
    → st.basic_auth_enable ≡ true
    → ¬ HasCredentials crypt st r.basic_auth
    → reaches crypt st rs r ≡ open_page r.path
reaches-anonymous crypt start st rs r started elsewhere asked anonymous =
    elim (Option-cases (open_page r.path)) [
      | inr (page, opened) ↦
          reaches-exempt crypt st rs r page (open_page-IsExempt st r page opened)
            (find_page-open_page start rs page r.path started opened)
          ∙ sym opened
      | inl closed ↦ reaches-closed crypt st rs r elsewhere asked anonymous closed ∙ sym closed
    ]

-- The page of a path that needs no password.
abbrev pub page_without_password : Settings → String → Option Page
page_without_password st path = if path == ws_path_of st then some socket else open_page path

-- On a server that has started, where the password is asked for and the path of the socket is that
-- of the start, a request without the credentials reaches the socket of the clients by its path, the
-- pages of the health by "/healthz" and "/readyz", and no page by any other path.
pub reaches-page_without_password :
    (crypt : Bcrypt) (start st : Settings) (rs : Routes) (r : Request)
    → routes start ≡ some rs
    → ws_path_of st ≡ ws_path_of start
    → st.basic_auth_enable ≡ true
    → ¬ HasCredentials crypt st r.basic_auth
    → reaches crypt st rs r ≡ page_without_password st r.path
reaches-page_without_password crypt start st rs r started same asked anonymous =
    elim (Bool-cases (r.path == ws_path_of st)) [
      | inl its ↦
          let e = (eq_iff r.path (ws_path_of st)).0 its in
          rw its (
            reaches-exempt crypt st rs r socket (inl e)
              (ap (find_page rs) (e ∙ same) ∙ find_page-socket start rs started))
      | inr other ↦
          let elsewhere : r.path ≢ ws_path_of st = ground (arith, eq_iff r.path (ws_path_of st)) in
          rw other (reaches-anonymous crypt start st rs r started elsewhere asked anonymous)
    ]
