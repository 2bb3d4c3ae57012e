-- ===== src/Web/Tables.antt =====
-- internal/web/handlers_extra.go: the pages of the groups and the schedules. The handlers of both are
-- the same but for the operations of the store, which are a `Table`.
pub mod Saved
use Prim.Native.Char.{Char, code}
use Prim.Native.String
use wakehub.Base.{
  ℕ, String, Bool, ◌&&◌, ◌||◌, not, List, [], ◌∷◌, Option, none, some, if◌then◌else◌, ◌==◌, nat_eq,
  Result, ok, err,
}
use wakehub.Text.{reverse_onto, has_prefix, trim_space, to_lower}
use wakehub.Web.{Method, get, post, put, delete, other}
use wakehub.Config.{Group, Schedule}
use wakehub.Config.Store.{Store, Env}
use wakehub.Config.Store.Groups.{list_groups, get_group, upsert_group, delete_group}
use wakehub.Config.Store.Schedules.{list_schedules, get_schedule, upsert_schedule, delete_schedule}

-- What a page answers: with the status 200 a list, an entry, an entry that was saved, or "ok", and
-- otherwise the status and the error.
pub data Page (A : Type 0) : Type 0 where
  listing : List A → Page A
  shown : A → Page A
  saved : A → Page A
  done : Page A
  failed : ℕ → String → Page A

-- The operations of the store on entries of one kind, and the change of an entry's id.
pub record Table (A : Type 0) : Type 0 where
  pub list : Store → List A
  pub find : Store → String → Option A
  pub upsert : Env → A → Store → Store × A × Option String
  pub remove : Env → String → Store → Store × Option String
  pub with_id : String → A → A

abbrev pub groups : Table Group
groups = record {
  list = λ s. list_groups s;
  find = λ s id. get_group s id;
  upsert = λ env g s. upsert_group env g s;
  remove = λ env id s. delete_group env id s;
  with_id = λ id g. record g { id = id };
}

abbrev pub schedules : Table Schedule
schedules = record {
  list = λ s. list_schedules s;
  find = λ s id. get_schedule s id;
  upsert = λ env sc s. upsert_schedule env sc s;
  remove = λ env id s. delete_schedule env id s;
  with_id = λ id sc. record sc { id = id };
}

-- The text without the characters with this number in front, and without those at both ends.
unfoldable pub trim_left_char : ℕ → String → String
trim_left_char n String.[] = String.[]
trim_left_char n (String.◌∷◌ c s) =
    let rest = trim_left_char n s in if nat_eq (code c) n then rest else String.◌∷◌ c s

abbrev pub trim_slashes : String → String
trim_slashes s = reverse_onto (trim_left_char b'/' (reverse_onto (trim_left_char b'/' s) "")) ""

abbrev pub onto_first : Char → List String → List String
onto_first c [] = []
onto_first c (part ∷ parts) = String.◌∷◌ c part ∷ parts

-- strings.Split(s, "/")
unfoldable pub split_slashes : String → List String
split_slashes String.[] = "" ∷ []
split_slashes (String.◌∷◌ c s) =
    let rest = split_slashes s in if nat_eq (code c) b'/' then "" ∷ rest else onto_first c rest

-- The parts of the path behind the prefix of the page, which the mux has matched.
unfoldable pub parts_of : String → List String
parts_of path = split_slashes (trim_slashes path)

module _ {A : Type 0} (table : Table A) where
  -- The end of POST and of PUT.
  unfoldable pub save_entry : Env → String → Result A → Store → Store × Page A
  save_entry env id (err e) s = (s, failed 400 e)
  save_entry env id (ok given) s =
      let (s', kept, refused) = table.upsert env (table.with_id id given) s in
      elim refused [ some e ↦ (s', failed 400 e) | none ↦ (s', saved kept) ]

  -- The cases of both handlers of a whole table; `body` is what readJSON makes of the body.
  unfoldable pub handle_table : Env → Method → Result A → Store → Store × Page A
  handle_table env get body s = (s, listing (table.list s))
  handle_table env post body s = save_entry env "" body s
  handle_table env put body s = (s, failed 405 "method not allowed")
  handle_table env delete body s = (s, failed 405 "method not allowed")
  handle_table env other body s = (s, failed 405 "method not allowed")

  -- The cases of handleGroupSub and handleScheduleSub for one entry.
  unfoldable pub handle_entry : Env → Method → String → Result A → Store → Store × Page A
  handle_entry env get id body s = elim (table.find s id) [
    | none ↦ (s, failed 404 "not found")
    | some a ↦ (s, shown a)
  ]
  handle_entry env put id body s = save_entry env id body s
  handle_entry env delete id body s =
      let (s', refused) = table.remove env id s in
      elim refused [ some e ↦ (s', failed 400 e) | none ↦ (s', done) ]
  handle_entry env post id body s = (s, failed 405 "method not allowed")
  handle_entry env other id body s = (s, failed 405 "method not allowed")

unfoldable pub handle_groups : Env → Method → Result Group → Store → Store × Page Group
handle_groups env m body s = handle_table groups env m body s

unfoldable pub handle_schedules : Env → Method → Result Schedule → Store → Store × Page Schedule
handle_schedules env m body s = handle_table schedules env m body s

-- handleScheduleSub: what follows the id in the path is not read.
unfoldable pub handle_schedule_sub :
    Env → Method → String → Result Schedule → Store → Store × Page Schedule
handle_schedule_sub env m path body s = elim (parts_of path) [
  | [] ↦ (s, failed 404 "not found")
  | id ∷ rest ↦
      if id == "" then (s, failed 404 "not found") else handle_entry schedules env m id body s
]

-- What handleGroupSub comes to: an answer, or a call of the service, after which the answer is "ok"
-- or the status 400 with the error of the call.
pub data GroupSub : Type 0 where
  answers : Store × Page Group → GroupSub
  wakes : String → GroupSub
  shuts_down : String → GroupSub

unfoldable pub group_request : Method → String → String → Store → GroupSub
group_request get id action s = answers (s, failed 405 "method not allowed")
group_request put id action s = answers (s, failed 405 "method not allowed")
group_request delete id action s = answers (s, failed 405 "method not allowed")
group_request other id action s = answers (s, failed 405 "method not allowed")
group_request post id action s =
    if action == "wake"
    then wakes id
    else if action == "shutdown"
    then shuts_down id
    else answers (s, failed 404 "not found")

unfoldable pub handle_group_sub : Env → Method → String → Result Group → Store → GroupSub
handle_group_sub env m path body s = elim (parts_of path) [
  | [] ↦ answers (s, failed 404 "not found")
  | id ∷ rest ↦ if id == "" then answers (s, failed 404 "not found") else elim rest [
    | [] ↦ answers (handle_entry groups env m id body s)
    | action ∷ more ↦ group_request m id action s
  ]
]

-- handleBatch: the action and the ids that the service is called with, or the status and the error.
unfoldable pub handle_batch :
    Method → Result (String × List String) → Result (String × List String) × ℕ
handle_batch get body = (err "method not allowed", 405)
handle_batch put body = (err "method not allowed", 405)
handle_batch delete body = (err "method not allowed", 405)
handle_batch other body = (err "method not allowed", 405)
handle_batch post (err e) = (err e, 400)
handle_batch post (ok (given, ids)) =
    let action = to_lower (trim_space given) in
    if not (action == "wake") && not (action == "shutdown")
    then (err "action must be wake or shutdown", 400)
    else elim ids [ [] ↦ (err "ids required", 400) | id ∷ rest ↦ (ok (action, id ∷ rest), 200) ]
