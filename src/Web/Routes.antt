-- ===== src/Web/Routes.antt =====
-- internal/web/server.go, routes and Handler: which page a request reaches. Of the library's ServeMux
-- it takes patterns that are paths; a path that the library would clean is not one of its requests.
pub mod Open
pub mod Anonymous
use Prim.Native.String.{len}
use wakehub.Base.{
  String, Bool, true, false, ◌&&◌, List, [], ◌∷◌, ◌++◌, Option, none, some, if◌then◌else◌, ◌==◌,
  ltb, any, lookup,
}
use wakehub.Text.{has_prefix, has_suffix}
use wakehub.Config.{Settings, default_ws_path}
use wakehub.Config.Password.{Bcrypt}
use wakehub.Web.Auth.{Request, served, unauthorized, with_basic_auth}

-- The handlers; `socket` is that of the hub and `files` the server of the static files.
pub data Page : Type 0 where
  healthz : Page
  readyz : Page
  version : Page
  status : Page
  settings_page : Page
  devices : Page
  device_sub : Page
  clients : Page
  discover : Page
  mqtt : Page
  mqtt_logs : Page
  groups : Page
  group_sub : Page
  schedules : Page
  schedule_sub : Page
  batch : Page
  audit : Page
  socket : Page
  files : Page

abbrev pub Routes : Type 0
Routes = List (String × Page)

unfoldable pub fixed_routes : Routes
fixed_routes =
    ("/healthz", healthz)
    ∷ ("/readyz", readyz)
    ∷ ("/api/version", version)
    ∷ ("/api/status", status)
    ∷ ("/api/settings", settings_page)
    ∷ ("/api/devices", devices)
    ∷ ("/api/devices/", device_sub)
    ∷ ("/api/clients", clients)
    ∷ ("/api/discover", discover)
    ∷ ("/api/mqtt", mqtt)
    ∷ ("/api/mqtt/logs", mqtt_logs)
    ∷ ("/api/groups", groups)
    ∷ ("/api/groups/", group_sub)
    ∷ ("/api/schedules", schedules)
    ∷ ("/api/schedules/", schedule_sub)
    ∷ ("/api/batch", batch)
    ∷ ("/api/audit", audit)
    ∷ []

abbrev pub ws_path_of : Settings → String
ws_path_of st = if st.ws_path == "" then default_ws_path else st.ws_path

-- HandleFunc, which panics for a pattern that is there: `none`.
unfoldable pub handle : String → Page → Routes → Option Routes
handle pattern page rs =
    if any (λ r. r.0 == pattern) rs then none else some (rs ++ (pattern, page) ∷ [])

unfoldable pub routes : Settings → Option Routes
routes st = elim (handle (ws_path_of st) socket fixed_routes) [
  | none ↦ none
  | some rs ↦ handle "/" files rs
]

-- The longest pattern with a slash at its end that the path begins with.
unfoldable pub longest : String → Routes → Option (String × Page)
longest path [] = none
longest path ((pattern, page) ∷ rs) =
    let later = longest path rs in
    if has_suffix pattern "/" && has_prefix path pattern
    then (elim later [
      | none ↦ some (pattern, page)
      | some (p, g) ↦ if ltb (len pattern) (len p) then some (p, g) else some (pattern, page)
    ])
    else later

-- A pattern that is the path wins.
unfoldable pub find_page : Routes → String → Option Page
find_page rs path = elim (lookup path rs) [
  | some page ↦ some page
  | none ↦ elim (longest path rs) [ some (pattern, page) ↦ some page | none ↦ none ]
]

-- The page that the request reaches, if it does: the tests of withBasicAuth, with the settings of
-- now, stand before the routes, which are those of the start.
unfoldable pub reaches : Bcrypt → Settings → Routes → Request → Option Page
reaches crypt st rs r = elim (with_basic_auth crypt st r) [
  | unauthorized ↦ none
  | served ↦ find_page rs r.path
]
