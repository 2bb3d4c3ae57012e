-- ===== src/Web/Devices.antt =====
-- internal/web/server.go, lines 235 to 356 and 381 to 401: the pages of the devices. A page is the
-- call of the service that it makes, and what it answers once the call has returned.
pub mod Reading
use wakehub.Base.{
  ℕ, String, Bool, true, false, not, List, [], ◌∷◌, Option, none, some, if◌then◌else◌, ◌==◌, Result,
  ok, err,
}
use wakehub.Web.{Method, get, post, put, delete, other}
use wakehub.Web.Tables.{parts_of}
use wakehub.Config.{Device}

-- The calls that the pages make, and the answers of those that make none.
pub data Request : Type 0 where
  answers : ℕ → String → Request
  lists : Request
  creates : Device → Request
  shows : String → Request
  updates : String → Device → Request
  deletes : String → Request
  wakes : String → Request
  shuts_down : String → Request
  restarts : String → Request
  probes : String → Request
  takes_client : String → String → String → Request
  batches : Request

abbrev pub not_allowed : Request
not_allowed = answers 405 "method not allowed"

unfoldable pub handle_devices : Method → Result Device → Request
handle_devices get body = lists
handle_devices post (ok d) = creates d
handle_devices post (err e) = answers 400 e
handle_devices put body = not_allowed
handle_devices delete body = not_allowed
handle_devices other body = not_allowed

-- The body of handleFromClient has the key, the address and the name.
unfoldable pub handle_from_client : Method → Result (String × String × String) → Request
handle_from_client post (ok (key, mac, name)) = takes_client key mac name
handle_from_client post (err e) = answers 400 e
handle_from_client get body = not_allowed
handle_from_client put body = not_allowed
handle_from_client delete body = not_allowed
handle_from_client other body = not_allowed

-- The switch over the methods for one device.
unfoldable pub one_device : Method → String → Result Device → Request
one_device get id body = shows id
one_device put id (ok d) = updates id d
one_device put id (err e) = answers 400 e
one_device delete id body = deletes id
one_device post id body = not_allowed
one_device other id body = not_allowed

abbrev pub only_post : Method → Request → Request
only_post get request = not_allowed
only_post post request = request
only_post put request = not_allowed
only_post delete request = not_allowed
only_post other request = not_allowed

-- The switch over the actions; `prober` says whether there is a runner of probes.
unfoldable pub device_action : Bool → Method → String → String → Request
device_action prober m id action =
    if action == "wake"
    then only_post m (wakes id)
    else if action == "shutdown"
    then only_post m (shuts_down id)
    else if action == "restart"
    then only_post m (restarts id)
    else if action == "probe"
    then only_post m (if prober then probes id else answers 503 "probe runner not ready")
    else answers 404 "not found"

-- The path is what follows the prefix of the page; a body is read as what the page takes.
unfoldable pub handle_device_sub :
    Bool → Method → String → Result Device → Result (String × String × String) → Request
handle_device_sub prober m path body from_client = elim (parts_of path) [
  | [] ↦ answers 404 "not found"
  | id ∷ rest ↦
      if id == ""
      then answers 404 "not found"
      else if id == "from-client"
      then handle_from_client m from_client
      else if id == "batch"
      then batches
      else elim rest [
        | [] ↦ one_device m id body
        | action ∷ more ↦ device_action prober m id action
      ]
]
