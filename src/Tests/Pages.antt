-- ===== src/Tests/Pages.antt =====
-- The routes of the server, and its pages, at small inputs.
use wakehub.Base.{◌≡◌, lookup, refl, true, none, some, err, [], ◌∷◌, ◌++◌, arith, eq_iff}
use wakehub.Text.{has_prefix, has_suffix}
use wakehub.Config.Store.Globals.{settings}
use wakehub.Audit
use wakehub.Hub
use wakehub.Hub.{new_hub}
use wakehub.Web.{get}
use wakehub.Web.Auth.{Request, with_basic_auth}
use wakehub.Web.Routes.{
  settings_page, healthz, socket, files, Routes, fixed_routes, handle, routes, longest, find_page,
  reaches,
}
use wakehub.Web.Routes.Anonymous.{page_without_password, reaches-page_without_password}
use wakehub.Web.Pages.{Server, done, Query, serve}
use wakehub.Web.Pages.Blind.{IsAnonymous, SameNumbers, serve-IsBlind}
use wakehub.Tests.Samples.{crypt, plain_settings}
use wakehub.Tests.Cloud.{site, call}

abbrev table : Routes
table = (fixed_routes ++ ("/api/ws/client", socket) ∷ []) ++ ("/", files) ∷ []

started : routes plain_settings ≡ some table
unfolding routes handle fixed_routes
started = refl

abbrev asks_health : Request
asks_health = record { path = "/healthz"; basic_auth = none }

abbrev asks_readiness : Request
asks_readiness = record { path = "/readyz"; basic_auth = none }

-- A request for the settings, where the path of the socket has been set to theirs.
abbrev asks_settings : Request
asks_settings = record { path = "/api/settings"; basic_auth = none }

routes_tests :
    (reaches crypt plain_settings table asks_health ≡ some healthz)
    × (reaches crypt plain_settings table asks_settings ≡ none)
    × (reaches crypt (record plain_settings { ws_path = "/api/settings" }) table asks_settings
        ≡ some settings_page)
    × (routes (record plain_settings { ws_path = "/api/settings" }) ≡ none)
unfolding reaches with_basic_auth find_page fixed_routes routes handle longest has_suffix has_prefix
    lookup
routes_tests = (refl, refl, refl, refl)

reaches-page_without_password_example :
    reaches crypt plain_settings table asks_health
    ≡ page_without_password plain_settings asks_health.path
reaches-page_without_password_example =
    reaches-page_without_password crypt plain_settings plain_settings table asks_health started refl
      refl (λ x. x)

abbrev server : Server
server = record { site = site; ring = Audit.new 4; peers = []; build = ("1.0", "today") }

-- With another token.
abbrev other_server : Server
other_server = record server {
  site = record site { hub = new_hub "another" };
  build = ("2.0", "later");
}

abbrev query : Query
query = record { method = get; limit = ""; call = call; live = true; atoi = λ v. err "no number" }

not_the_socket : IsAnonymous crypt asks_readiness server
unfolding settings
not_the_socket = (λ e. ground (arith, eq_iff "/readyz" "/api/ws/client"), refl, λ x. x)

same_numbers : SameNumbers server other_server
unfolding new_hub Hub.list
same_numbers = (refl, refl)

serve-IsBlind_example :
    ((serve crypt table (λ page s. (s, done)) query asks_readiness server).0 ≡ server)
    × ((serve crypt table (λ page s. (s, done)) query asks_readiness server).1
        ≡ (serve crypt table (λ page s. (s, done)) query asks_readiness other_server).1)
serve-IsBlind_example =
    serve-IsBlind crypt plain_settings table (λ page s. (s, done)) query asks_readiness server
      other_server started not_the_socket not_the_socket same_numbers
