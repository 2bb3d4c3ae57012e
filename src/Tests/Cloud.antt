-- ===== src/Tests/Cloud.antt =====
-- The manager of the topics, and the page of the settings, at small inputs.
use wakehub.Base.{
  String, true, false, List, [], ◌∷◌, ◌++◌, Option, none, some, ◌≡◌, ◌≢◌, refl, ok, lookup, erase,
  arith, eq_iff, ltb, nat_eq, if◌then◌else◌, ◌||◌,
}
use wakehub.Text.{trim_space, to_lower, has_prefix, has_suffix, remove_char, all_chars}
use wakehub.Config.{Device}
use wakehub.Config.Random.{random_id}
use wakehub.Config.Password.{hash_password, ensure_password_hashed, is_bcrypt_hash}
use wakehub.Config.Normalize.{normalize_device_fields}
use wakehub.Config.Store.{Store, new_id, upsert_device, save_locked, stored_device}
use wakehub.Config.Store.Globals.{settings, globals_writable, update_settings}
use wakehub.Bemfa.{Call, Manager, LogLevel, log_info, log_warn, logs_of, append_log_locked}
use wakehub.Bemfa.Logs.{append_all, entries_of, newest, logs_of-append_all}
use wakehub.Bemfa.Session.{subscribe_locked, unsubscribe_locked, sync_locked, wanted_topics}
use wakehub.Bemfa.Session.Sync.{bound, lookup-sync_locked}
use wakehub.Bemfa.Requests.{
  Request, configure, ensure, opened, lost, commanded, shut, manager_after, IsTidy,
}
use wakehub.Bemfa.Requests.Devices.{manager_after-IsTidy}
use wakehub.Bemfa.Ensure.Binding.{IsBound}
use wakehub.Bemfa.Topics.{
  rune_count, normalize_topic, matches_topic_pattern, validate_topic, sanitize_name, sanitize_uid,
  validate_uid,
}
use wakehub.Bemfa.Creation.{create_from, create_topic_idempotent}
use wakehub.Bemfa.Ensure.{cloud_name, bind_created, ensure_topic, ensure_ready, ensure_device}
use wakehub.Service.Devices.{create, validate_bemfa, normalize}
use wakehub.Service.Devices.Cloud.{cloud, create-IsBound}
use wakehub.Hub.{new_hub}
use wakehub.Web.Globals.{
  Site, Answer, Body, put_settings, store_settings, change_settings, changed, apply_settings,
  on_settings_changed,
}
use wakehub.Web.Globals.Agreement.{IsAgreed, IsManagedAs, put_settings-IsAgreed}
use wakehub.Tests.Samples.{pc, empty_store, crypt, env, plain_settings}

-- A cloud that makes and subscribes to every topic.
abbrev pub call : Call
call = record {
  now = 100;
  now_milli = 100000;
  read = λ n. 1 ∷ 2 ∷ 3 ∷ 4 ∷ [];
  quote = λ s. s;
  start = λ uid. none;
  subscribe = λ topic. none;
  create = λ k topic name. none;
}

abbrev lamp : Device
lamp = record pc { bemfa_enable = true; bemfa_topic = "lamp001" }

-- A manager with a connection and one topic.
abbrev manager : Manager
manager = record {
  uid = "0123456789abcdef";
  dev = true;
  topics = ("old001", "gone") ∷ [];
  started = true;
  logs = [];
  last_error = "";
  connected_at = 0;
}

abbrev requests : List (Call × Request)
requests =
    (call, shut)
    ∷ (call, commanded "lamp001" "d1" true)
    ∷ (call, ensure lamp)
    ∷ (call, lost (some "reset"))
    ∷ (call, opened)
    ∷ (call, configure "0123456789abcdef" (lamp ∷ []))
    ∷ []

manager_after-IsTidy_example : IsTidy (manager_after call requests)
manager_after-IsTidy_example = manager_after-IsTidy call requests

abbrev entries : List (Call × LogLevel × String)
entries = (call, log_info, "one") ∷ (call, log_warn, "two") ∷ (call, log_info, "three") ∷ []

logs_of-append_all_example :
    logs_of (append_all entries manager) 2
    ≡ newest (if nat_eq 2 0 || ltb 200 2 then 200 else 2) (manager.logs ++ entries_of entries)
logs_of-append_all_example = logs_of-append_all entries manager 2 (ground arith)

lookup-sync_locked_example :
    lookup "lamp001" (sync_locked call (lamp ∷ []) manager).topics
    ≡ elim (lookup "lamp001" (wanted_topics (lamp ∷ []) [])) [
      | none ↦ none
      | some id ↦ bound call "lamp001" id (lookup "lamp001" manager.topics)
    ]
lookup-sync_locked_example = lookup-sync_locked call (lamp ∷ []) manager "lamp001" refl

abbrev store : Store
store = record empty_store {
  file = record empty_store.file {
    settings = record plain_settings { bemfa_uid = "0123456789abcdef" };
  };
}

abbrev made : (Store × Manager) × Device × Option String
made = create (cloud call) env env lamp (store, manager)

made-none : made.2 ≡ none
unfolding create cloud validate_bemfa settings trim_space normalize to_lower upsert_device
    save_locked stored_device normalize_device_fields ensure_device ensure_ready ensure_topic
    bind_created cloud_name create_topic_idempotent create_from validate_topic normalize_topic
    validate_uid sanitize_uid sanitize_name rune_count remove_char all_chars matches_topic_pattern
    has_suffix subscribe_locked unsubscribe_locked append_log_locked lookup erase
made-none = refl

drawn_id : new_id env ≢ ""
unfolding new_id random_id
drawn_id = λ e. ground (arith, eq_iff "ababababab" "")

create-IsBound_example : IsBound call made.1.bemfa_topic made.1.id made.0.1
create-IsBound_example =
    create-IsBound call env env lamp made.1 store made.0.0 manager made.0.1 refl drawn_id
      (cc made-none)

abbrev pub site : Site
site = record { store = store; hub = new_hub "secret"; manager = manager }

abbrev body : Body
body = record {
  given = record plain_settings { client_token = "changed"; basic_auth_password = "admin" };
  regenerate_token = false;
}

abbrev stored : Site × Answer
stored = store_settings crypt env call (λ st. none) "" body site

put : put_settings crypt env call (λ st. none) (ok body) site ≡ some (stored.0, stored.1)
unfolding put_settings settings globals_writable trim_space
put = refl

code-stored : stored.1.code ≡ 200
unfolding store_settings update_settings change_settings changed hash_password trim_space
    ensure_password_hashed save_locked apply_settings settings on_settings_changed is_bcrypt_hash
    has_prefix
code-stored = refl

put_settings-IsAgreed_example :
    IsAgreed stored.0 × IsManagedAs (settings site.store) (settings stored.0.store)
put_settings-IsAgreed_example =
    put_settings-IsAgreed crypt env call (λ st. none) (ok body) site stored.0 stored.1 (λ st. refl)
      put code-stored
