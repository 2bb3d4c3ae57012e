-- ===== src/Web/Devices/Reading.antt =====
-- internal/web/server.go, handleDeviceSub: the requests that do not change a device.
use wakehub.Base.{
  ◌≡◌, refl, String, Bool, true, false, List, [], ◌∷◌, if◌then◌else◌, ◌==◌, Result, arith,
}
use wakehub.Config.{Device}
use wakehub.Web.{get}
use wakehub.Web.Tables.{parts_of}
use wakehub.Web.Devices.{
  Request, answers, lists, creates, shows, updates, deletes, wakes, shuts_down, restarts, probes,
  takes_client, batches, handle_from_client, one_device, device_action, handle_device_sub,
}

-- The request asks for an answer and no more; the page of the batches has a test of its own.
abbrev pub reads : Request → Bool
reads (answers code e) = true
reads lists = true
reads (shows id) = true
reads batches = true
reads (creates d) = false
reads (updates id d) = false
reads (deletes id) = false
reads (wakes id) = false
reads (shuts_down id) = false
reads (restarts id) = false
reads (probes id) = false
reads (takes_client key mac name) = false

device_action-reads :
    (prober : Bool) (id action : String) → reads (device_action prober get id action) ≡ true
unfolding device_action
device_action-reads prober id action = ground arith

-- No GET below the page of the devices, whatever its path is, makes a call that changes a device or
-- acts on it.
pub handle_device_sub-reads :
    (prober : Bool) (path : String) (body : Result Device)
    (from_client : Result (String × String × String))
    → reads (handle_device_sub prober get path body from_client) ≡ true
unfolding handle_device_sub handle_from_client one_device
handle_device_sub-reads prober path body from_client = by_parts (parts_of path)
  where
    by_parts :
        (parts : List String)
        → reads (elim parts as (λ _. Request) [
          | [] ↦ answers 404 "not found"
          | id ∷ rest ↦
              if id == ""
              then answers 404 "not found"
              else if id == "from-client"
              then handle_from_client get from_client
              else if id == "batch"
              then batches
              else elim rest as (λ _. Request) [
                | [] ↦ one_device get id body
                | action ∷ more ↦ device_action prober get id action
              ]
        ])
          ≡ true
    by_parts [] = refl
    by_parts (id ∷ []) = ground arith
    by_parts (id ∷ action ∷ more) = ground (arith, device_action-reads prober id action)
