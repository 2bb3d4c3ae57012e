-- ===== src/Service/Views/Online.antt =====
-- internal/device/service.go, enrich: when a device is shown with a client.
use wakehub.Base.{◌≡◌, lookup, Option-cases, inl, inr, arith}
use wakehub.Config.{Device}
use wakehub.Hub.{online, get}
use wakehub.Service.Views.{Sight, enrich}

-- A device is shown with its client exactly where the hub says that the client is online.
pub client_online-enrich :
    (s : Sight) (d : Device) → (enrich s d).client_online ≡ online s.hub d.bound_client_key
unfolding enrich online get
client_online-enrich s d = elim (Option-cases (lookup d.bound_client_key s.hub.clients)) [
  | inl absent ↦ ground arith
  | inr (entry, there) ↦ ground arith
]
