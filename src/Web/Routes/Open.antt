-- ===== src/Web/Routes/Open.antt =====
-- internal/web/server.go: the routes of a server that has started.
use wakehub.Base.{
  ◌≡◌, inl, inr, refl, ap, ◌∙◌, String, false, [], ◌∷◌, ◌++◌, Option-cases, Bool-cases, some, ◌==◌,
  eq_refl, any, lookup, arith,
}
use wakehub.Config.{Settings}
use wakehub.Web.Routes.{
  Page, healthz, readyz, socket, files, Routes, fixed_routes, ws_path_of, handle, routes, find_page,
}

pub lookup-append-found :
    (path : String) (page : Page) (rs more : Routes)
    → lookup path rs ≡ some page
    → lookup path (rs ++ more) ≡ some page
unfolding lookup
lookup-append-found path page [] more found = ground arith
lookup-append-found path page ((p, g) ∷ rs) more found =
    let later = lookup-append-found path page rs more in ground arith

pub lookup-append-new :
    (path : String) (page : Page) (rs more : Routes)
    → any (λ r. r.0 == path) rs ≡ false
    → lookup path (rs ++ (path, page) ∷ more) ≡ some page
unfolding lookup
lookup-append-new path page [] more absent = ground (arith, eq_refl path)
lookup-append-new path page ((p, g) ∷ rs) more absent =
    let later = lookup-append-new path page rs more in ground arith

handle-inverse :
    (pattern : String) (page : Page) (rs more : Routes)
    → handle pattern page rs ≡ some more
    → (any (λ r. r.0 == pattern) rs ≡ false) × (more ≡ rs ++ (pattern, page) ∷ [])
unfolding handle
handle-inverse pattern page rs more e = elim (Bool-cases (any (λ r. r.0 == pattern) rs)) [
  | inl taken ↦ ground arith
  | inr free ↦ ground arith
]

-- What the routes of a server that has started have.
pub routes-inverse :
    (st : Settings) (rs : Routes)
    → routes st ≡ some rs
    → (any (λ r. r.0 == ws_path_of st) fixed_routes ≡ false)
      × (rs ≡ (fixed_routes ++ (ws_path_of st, socket) ∷ []) ++ ("/", files) ∷ [])
unfolding routes
routes-inverse st rs e = elim (Option-cases (handle (ws_path_of st) socket fixed_routes)) [
  | inl taken ↦ absurd (ground arith)
  | inr (first, some_first) ↦
      let (free, made) = handle-inverse (ws_path_of st) socket fixed_routes first some_first in
      let (_, all_made) = handle-inverse "/" files first rs (ground arith) in
      (free, all_made ∙ ap (λ l. l ++ ("/", files) ∷ []) made)
]

pub fixed-found :
    (lookup "/healthz" fixed_routes ≡ some healthz) × (lookup "/readyz" fixed_routes ≡ some readyz)
unfolding lookup fixed_routes
fixed-found = (refl, refl)

find_page-found :
    (path : String) (page : Page) (rs : Routes)
    → lookup path rs ≡ some page
    → find_page rs path ≡ some page
unfolding find_page
find_page-found path page rs found = rw (find_page, found) refl

pub page_of_start :
    (st : Settings) (rs : Routes) (path : String) (page : Page)
    → routes st ≡ some rs
    → lookup path (fixed_routes ++ (ws_path_of st, socket) ∷ []) ≡ some page
    → find_page rs path ≡ some page
page_of_start st rs path page started found =
    let (free, made) = routes-inverse st rs started in
    find_page-found path page rs (
      ap (lookup path) made
      ∙ lookup-append-found path page (fixed_routes ++ (ws_path_of st, socket) ∷ [])
          (("/", files) ∷ []) found)
