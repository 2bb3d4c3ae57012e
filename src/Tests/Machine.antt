-- ===== src/Tests/Machine.antt =====
-- A small machine: files, UCI and systemd as their documentation has them.
use Prim.Native.String.{◌++◌ as ◌<>◌}
use wakehub.Base.{
  ◌≡◌, ◌≢◌, refl, sym, String, Bool, true, false, ◌||◌, List, [], ◌∷◌, Option, none, some,
  if◌then◌else◌, ◌==◌, eq_iff, eq_refl, Bool-cases, Option-cases, inl, inr, arith,
}
use wakehub.Mdns.{split_kv}
use wakehub.Mdns.Announcement.{split_kv-append}
use wakehub.Os.{Os, Ran, contents, absent}
use wakehub.Os.Files.{IsFiles}
use wakehub.OpenWrt.Committed.{IsUci, IsKey, stored}
use wakehub.Services.Systemd.{unit_path}
use wakehub.Services.Systemd.Running.{IsSystemd}

pub record Machine : Type 0 where
  pub files : String → Option String
  pub staged : String → Option String
  pub committed : String → Option String
  pub loaded : String → Option String
  pub running : String → Option String
  pub enabled : String → Bool

abbrev pub join : String → String → String
join dir name = dir <> "/" <> name

abbrev fine : Ran
fine = record { out = ""; failed = none }

abbrev table_with : String → Option String → (String → Option String) → String → Option String
table_with key value table at = if key == at then value else table at

abbrev uci : List String → Machine → Machine × Ran
uci [] m = (m, fine)
uci (verb ∷ []) m = (m, fine)
uci (verb ∷ argument ∷ rest) m =
    if verb == "set"
    then elim (split_kv argument) [
      | none ↦ (m, record fine { failed = some "parse error" })
      | some (key, value) ↦ (record m { staged = table_with key (stored value) m.staged }, fine)
    ]
    else if verb == "commit"
    then (record m { committed = m.staged }, fine)
    else (m, fine)

abbrev units : Machine → String → Option String
units m name = m.files (unit_path join name)

abbrev systemctl : List String → Machine → Machine × Ran
systemctl [] m = (m, fine)
systemctl (verb ∷ []) m =
    if verb == "daemon-reload" then (record m { loaded = units m }, fine) else (m, fine)
systemctl (verb ∷ name ∷ rest) m =
    if verb == "enable"
    then (record m { loaded = units m; enabled = λ at. name == at || m.enabled at }, fine)
    else if verb == "restart"
    then (record m { running = table_with name (m.loaded name) m.running }, fine)
    else (m, fine)

abbrev exec : String → List String → Machine → Machine × Ran
exec program arguments m =
    if program == "uci"
    then uci arguments m
    else if program == "systemctl"
    then systemctl arguments m
    else (m, fine)

abbrev pub put : String → Option String → Machine → Machine
put path text m = record m { files = table_with path text m.files }

-- The renaming of a file with this text, if there is one.
abbrev moved : String → String → Option String → Machine → Machine × Option String
moved from to none m = (m, some "no such file")
moved from to (some text) m = (put to (some text) (put from none m), none)

abbrev rename : String → String → Machine → Machine × Option String
rename from to m = moved from to (m.files from) m

abbrev pub os : Os Machine
os = record {
  look_path = λ program m. true;
  exec = exec;
  exists = λ path m. elim (m.files path) [ none ↦ false | some text ↦ true ];
  read_file =
      λ path m. elim (m.files path) [ none ↦ absent "no such file" | some text ↦ contents text ];
  mkdir_all = λ path m. (m, none);
  write_file = λ path text m. (put path (some text) m, none);
  remove = λ path m. (put path none m, none);
  rename = rename;
}

abbrev pub staged : Machine → String → Option String
staged m = m.staged

abbrev pub committed : Machine → String → Option String
committed m = m.committed

abbrev pub content : Machine → String → Option String
content m = m.files

abbrev pub loaded : Machine → String → Option String
loaded m = m.loaded

abbrev pub running : Machine → String → Option String
running m = m.running

abbrev pub enabled : Machine → String → Bool
enabled m = m.enabled

pub different : (at key : String) → at ≢ key → (key == at) ≡ false
different at key other = elim (Bool-cases (key == at)) [
  | inr n ↦ n
  | inl same ↦ absurd (other (sym ((eq_iff key at).0 same)))
]

abbrev IsRenamed : String → String → Machine → Machine × Option String → Type 0
IsRenamed from to m r =
    (r.1 ≡ none → r.0.files to ≡ m.files from)
    × ((at : String) → at ≢ from → at ≢ to → r.0.files at ≡ m.files at)
    × ((at : String) → r.1 ≢ none → r.0.files at ≡ m.files at)

moved-IsRenamed :
    (from to : String) (held : Option String) (m : Machine)
    → held ≡ m.files from
    → IsRenamed from to m (moved from to held m)
moved-IsRenamed from to none m e = (λ done. cc, λ at f t. refl, λ at error. refl)
moved-IsRenamed from to (some text) m e = (
  λ done. rw (eq_refl to) e,
  λ at f t. rw (different at to t, different at from f) refl,
  λ at error. absurd (error refl),
)

rename-IsRenamed : (from to : String) (m : Machine) → IsRenamed from to m (rename from to m)
rename-IsRenamed from to m = moved-IsRenamed from to (m.files from) m refl

pub os-IsFiles : IsFiles os content
os-IsFiles = record {
  read = λ path text m e. rw e refl;
  write = λ path text m done. rw (eq_refl path) refl;
  write_other = λ path text at m other. rw (different at path other) refl;
  remove_other = λ path at m other. rw (different at path other) refl;
  rename = λ from to m. (rename-IsRenamed from to m).0;
  rename_other = λ from to at m. (rename-IsRenamed from to m).1 at;
  rename_failed = λ from to at m. (rename-IsRenamed from to m).2 at;
  mkdir = λ path at m. refl;
}

systemctl-texts :
    (arguments : List String) (at : String) (m : Machine)
    → (systemctl arguments m).0.files at ≡ m.files at
systemctl-texts [] at m = refl
systemctl-texts (verb ∷ []) at m = ground arith
systemctl-texts (verb ∷ name ∷ rest) at m = ground arith

pub os-IsSystemd : IsSystemd os join content loaded running enabled
os-IsSystemd = record {
  reload = λ name m done. refl;
  enable = λ name m done. (refl, rw (eq_refl name) refl);
  restart = λ name m done. (rw (eq_refl name) refl, refl);
  texts = systemctl-texts;
}

uci-set :
    (key value at : String) (m : Machine)
    → IsKey key
    → (uci ("set" ∷ (key <> "=" <> value) ∷ []) m).0.staged at
      ≡ (if key == at then stored value else m.staged at)
uci-set key value at m is_key = rw (split_kv-append key value is_key) refl

uci-committed :
    (argument at : String) (m : Machine)
    → (uci ("set" ∷ argument ∷ []) m).0.committed at ≡ m.committed at
uci-committed argument at m = elim (Option-cases (split_kv argument)) [
  | inl bad ↦ rw bad refl
  | inr (kv, e) ↦ rw e refl
]

pub os-IsUci : IsUci os staged committed
os-IsUci = record {
  staged-set = λ key value at m is_key done. uci-set key value at m is_key;
  committed-set = uci-committed;
  committed-commit = λ at m done. refl;
  committed-refused = λ at m error. absurd (error refl);
}
