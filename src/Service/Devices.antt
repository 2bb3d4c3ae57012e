-- ===== src/Service/Devices.antt =====
-- internal/device/service.go, lines 137 to 186 and 336 to 438: how devices are made, changed and
-- removed. The manager of internal/bemfa/manager.go is the interface `Bemfa`.
pub mod Creation
pub mod Cloud
use Prim.Native.String
use wakehub.Base.{
  ℕ, pos, String, Bool, true, false, ◌&&◌, ◌||◌, not, List, [], ◌∷◌, Option, none, some,
  if◌then◌else◌, ◌==◌, nat_eq, leb_ℤ, is_some,
}
use wakehub.Text.{trim_space, to_lower, equal_fold}
use wakehub.Config.{Device, NicInfo}
use wakehub.Config.Store.{
  Store, Env, zero_device, list_devices, get_device, upsert_device, delete_device,
}
use wakehub.Config.Store.Globals.{settings}
use wakehub.Hub.{ClientInfo, Hub, get}

-- The manager's state is `B`. EnsureDevice writes no field of the device but its topic, and returns
-- what it leaves there; RemoveDevice has no result; ValidateTopic reads no state.
pub record Bemfa (B : Type 0) : Type 0 where
  pub ensure_device : B → Device → B × String × Option String
  pub remove_device : B → Device → B
  pub validate_topic : String → Option String

unfoldable pub normalize : Device → Device
normalize d =
    let method = to_lower (trim_space d.probe_method) in
    record d {
      name = trim_space d.name;
      mac = trim_space d.mac;
      broadcast = trim_space d.broadcast;
      bemfa_topic = to_lower (trim_space d.bemfa_topic);
      bemfa_name = trim_space d.bemfa_name;
      bound_client_key = trim_space d.bound_client_key;
      preferred_nic = trim_space d.preferred_nic;
      probe_host = trim_space d.probe_host;
      probe_method = if method == "" then "off" else method;
      port = if leb_ℤ d.port (pos 0) then pos 9 else d.port;
      repeat = if leb_ℤ d.repeat (pos 0) then pos 3 else d.repeat;
    }

-- The loop over the client's interfaces: the name and the first broadcast address of the one with
-- this address.
unfoldable pub nic_of : String → List NicInfo → String × String
nic_of mac [] = ("", "")
nic_of mac (n ∷ ns) =
    if equal_fold n.mac mac
    then (n.name, (elim n.broadcast [ [] ↦ "" | first ∷ rest ↦ first ]))
    else nic_of mac ns

-- The loop over the devices: the first one that is bound to the client or has the address.
unfoldable pub matching : String → String → List Device → Option Device
matching key mac [] = none
matching key mac (d ∷ ds) =
    if d.bound_client_key == key || equal_fold d.mac mac then some d else matching key mac ds

module _ {B : Type 0} (bemfa : Bemfa B) where
  unfoldable pub validate_bemfa : Store → Device → Option String
  validate_bemfa s d =
      if not d.bemfa_enable
      then none
      else if trim_space (settings s).bemfa_uid == ""
      then some "enable bemfa requires global Bemfa UID in settings"
      else if not (d.bemfa_topic == "")
      then bemfa.validate_topic d.bemfa_topic
      else none

  -- The calls of UpsertDevice meet the environments `first` and `second`, in this order.
  unfoldable pub create : Env → Env → Device → Store × B → (Store × B) × Device × Option String
  create first second given (s, b) =
      let d = normalize (record given { id = "" }) in
      elim (validate_bemfa s d) [
        | some e ↦ ((s, b), zero_device, some e)
        | none ↦
            let (s1, saved, failed) = upsert_device first d s in
            elim failed [
              | some e ↦ ((s1, b), zero_device, some e)
              | none ↦
                  let (b', topic, unensured) = bemfa.ensure_device b saved in
                  let ensured : Device = record saved { bemfa_topic = topic } in
                  let (s2, last, unsaved) = upsert_device second ensured s1 in
                  elim unensured [
                    | some e ↦ (
                      (s2, b'),
                      ensured,
                      some (String.◌++◌ "saved device but bemfa ensure failed: " e),
                    )
                    | none ↦ ((s2, b'), last, unsaved)
                  ]
            ]
      ]

  unfoldable pub update :
      Env → Env → String → Device → Store × B → (Store × B) × Device × Option String
  update first second id given (s, b) = elim (get_device s id) [
    | none ↦ ((s, b), zero_device, some "device not found")
    | some old ↦
        let d = normalize (record given {
          id = id;
          created_at = if nat_eq given.created_at 0 then old.created_at else given.created_at;
        }) in
        elim (validate_bemfa s d) [
          | some e ↦ ((s, b), zero_device, some e)
          | none ↦
              let left =
                if not (old.bemfa_topic == "")
                  && (not (old.bemfa_topic == d.bemfa_topic) || not d.bemfa_enable)
                then bemfa.remove_device b old
                else b in
              let (s1, saved, failed) = upsert_device first d s in
              elim failed [
                | some e ↦ ((s1, left), zero_device, some e)
                | none ↦
                    let (b', topic, unensured) = bemfa.ensure_device left saved in
                    let ensured : Device = record saved { bemfa_topic = topic } in
                    elim unensured [
                      | some e ↦ (
                        (s1, b'),
                        ensured,
                        some (String.◌++◌ "updated device but bemfa ensure failed: " e),
                      )
                      | none ↦
                          let (s2, last, unsaved) = upsert_device second ensured s1 in
                          ((s2, b'), last, unsaved)
                    ]
              ]
        ]
  ]

  unfoldable pub delete : Env → String → Store × B → (Store × B) × Option String
  delete env id (s, b) =
      let left : B = elim (get_device s id) [ some d ↦ bemfa.remove_device b d | none ↦ b ] in
      let (s', failed) = delete_device env id s in ((s', left), failed)

  unfoldable pub from_client :
      Hub → Env → Env → String → String → String → Store × B → (Store × B) × Device × Option String
  from_client hub first second key given_mac given_name (s, b) = elim (get hub key) [
    | none ↦ ((s, b), zero_device, some "client not online")
    | some info ↦
        let mac =
          if given_mac == ""
          then (elim (ClientInfo.nics info) [ [] ↦ "" | n ∷ ns ↦ NicInfo.mac n ])
          else given_mac in
        if mac == ""
        then ((s, b), zero_device, some "mac required")
        else let (nic, broadcast) = nic_of mac info.nics in
          let name =
            if given_name == ""
            then (if info.hostname == "" then key else info.hostname)
            else given_name in
          elim (matching key mac (list_devices s)) [
            | some d ↦
                update first second d.id
                  (record d {
                    name = name;
                    mac = mac;
                    broadcast = broadcast;
                    bound_client_key = key;
                    preferred_nic = if nic == "" then d.preferred_nic else nic;
                  })
                  (s, b)
            | none ↦
                create first second
                  (record zero_device {
                    name = name;
                    mac = mac;
                    broadcast = broadcast;
                    port = pos 9;
                    repeat = pos 3;
                    bound_client_key = key;
                    preferred_nic = nic;
                    probe_method = "off";
                  })
                  (s, b)
          ]
  ]
