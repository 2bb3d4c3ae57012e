-- ===== src/Client/Update.antt =====
-- internal/clientapp/update.go: the search for a newer release, and the replacement of the program by
-- it. The network, the archives and the files are parameters.
pub mod Choice
pub mod Offer
pub mod Replacing
pub mod Safety
use Prim.Native.Char.{code}
use Prim.Native.String
use Prim.Native.String.{◌++◌ as ◌<>◌}
use wakehub.Base.{
  ℕ, String, Bool, true, false, ◌&&◌, ◌||◌, not, List, [], ◌∷◌, Option, none, some, Result, ok, err,
  if◌then◌else◌, ◌==◌, nat_eq,
}
use wakehub.Text.{trim_space, has_prefix, has_suffix, contains, to_lower, decimal}
use wakehub.Os.{Os, contents, absent, unreadable}
use wakehub.Client.Version.{release_arch, client_asset_name, without_v, is_newer_version}

pub record Asset : Type 0 where
  pub name : String
  pub download_url : String

pub record Release : Type 0 where
  pub tag_name : String
  pub html_url : String
  pub assets : List Asset

pub record UpdateInfo : Type 0 where
  pub current : String
  pub latest : String
  pub tag : String
  pub asset_name : String
  pub download_url : String
  pub html_url : String
  pub up_to_date : Bool

-- runtime.GOOS, with its first letter in upper case (titleOS), and runtime.GOARCH.
pub record Target : Type 0 where
  pub os : String
  pub title : String
  pub arch : String

-- What an HTTP request gives: its error, or the status, the start of the body, and what the decoder
-- makes of the body.
pub record Response : Type 0 where
  pub status : ℕ
  pub start : String
  pub body : Result Release

-- The text before the last ".", for a name with no separator: strings.TrimSuffix with filepath.Ext.
unfoldable pub before_last_dot : String → Option String
before_last_dot String.[] = none
before_last_dot (String.◌∷◌ c s) = elim (before_last_dot s) [
  | some stem ↦ some (String.◌∷◌ c stem)
  | none ↦ if nat_eq (code c) b'.' then some String.[] else none
]

abbrev pub without_ext : String → String
without_ext s = elim (before_last_dot s) [ none ↦ s | some stem ↦ stem ]

-- The tests of the two loops.
abbrev pub is_named : Target → Asset → Bool
is_named t a =
    let want = client_asset_name t.os t.title t.arch in
    a.name == want || has_prefix a.name (without_ext want)

abbrev pub mentions : Target → Asset → Bool
mentions t a =
    contains a.name "wakehub-client"
    && contains a.name t.title
    && contains a.name (release_arch t.arch)

unfoldable pub first_of : (Asset → Bool) → List Asset → Option Asset
first_of test [] = none
first_of test (a ∷ rest) = if test a then some a else first_of test rest

unfoldable pub with_asset : Option Asset → UpdateInfo → UpdateInfo
with_asset none info = info
with_asset (some a) info = record info { asset_name = a.name; download_url = a.download_url }

-- The two loops.
unfoldable pub choose : Target → List Asset → UpdateInfo → UpdateInfo
choose t assets info =
    let named = with_asset (first_of (is_named t) assets) info in
    if named.download_url == "" then with_asset (first_of (mentions t) assets) named else named

abbrev pub release_info : String → Release → UpdateInfo
release_info current rel =
    let latest = without_v rel.tag_name in
    record {
      current = current;
      latest = latest;
      tag = rel.tag_name;
      asset_name = "";
      download_url = "";
      html_url = rel.html_url;
      up_to_date = not (is_newer_version latest current);
    }

unfoldable pub judged : Target → Release → UpdateInfo → Option UpdateInfo × Option String
judged t rel info =
    if info.download_url == "" && not info.up_to_date
    then (
      some info,
      some (
          "no asset for "
          <> t.os
          <> "/"
          <> t.arch
          <> " in "
          <> rel.tag_name
          <> " (looked for "
          <> client_asset_name t.os t.title t.arch
          <> ")"),
    )
    else (some info, none)

abbrev pub release_url : String → String
release_url given =
    "https://api.github.com/repos/"
    <> (if given == "" then "leganck/wakehub" else given)
    <> "/releases/latest"

abbrev pub current_or_dev : String → String
current_or_dev given = if given == "" then "dev" else given

-- `get` is the request to a URL as this user agent.
unfoldable pub check_update :
    Target
    → (String → String → Result Response)
    → String
    → String
    → Option UpdateInfo × Option String
check_update t get given repo =
    let current = current_or_dev given in
    elim (get (release_url repo) ("wakehub-client/" <> current)) [
      | err e ↦ (none, some e)
      | ok r ↦
          if not (nat_eq r.status 200)
          then (
            none,
            some ("github releases: HTTP " <> decimal r.status <> ": " <> trim_space r.start),
          )
          else elim r.body [
            | err e ↦ (none, some e)
            | ok rel ↦ judged t rel (choose t rel.assets (release_info current rel))
          ]
    ]

-- A file of an archive: the base of its name, and the error of opening it.
pub record Entry : Type 0 where
  pub base : String
  pub unopened : Option String

-- What ApplyUpdate asks of the network and the archives: os.Executable and filepath.Abs, the status
-- of the answer to the download, os.MkdirTemp, filepath.Join, the copy of the answer into a file,
-- zip.OpenReader, the headers of the tar archive up to io.EOF, the copy of the first file with
-- this base, os.Chmod, and os.RemoveAll.
pub record Download (W : Type 0) : Type 0 where
  pub windows : Bool
  pub executable : Result String
  pub absolute : String → Result String
  pub get : String → Result ℕ
  pub make_temp : W → W × Result String
  pub join : String → String → String
  pub receive : String → W → W × Option String
  pub open_zip : String → W → Result (List Entry)
  pub open_tar : String → W → Result (List (Result Entry))
  pub unpack : String → String → String → W → W × Option String
  pub chmod : String → W → W
  pub remove_all : String → W → W

abbrev pub is_client : String → Bool
is_client base = base == "wakehub-client" || base == "wakehub-client.exe"

module _ {W : Type 0} (os : Os W) (net : Download W) where
  unfoldable pub unpacked : String → String → String → W → W × Result String
  unpacked path dir base w =
      let out = net.join dir base in
      let (w', failed) = net.unpack path base out w in
      elim failed [ some e ↦ (w', err e) | none ↦ (w', ok out) ]

  -- The loop over the files of a zip archive.
  unfoldable pub unzip : String → String → List Entry → W → W × Result String
  unzip path dir [] w = (w, err "wakehub-client binary not found in zip")
  unzip path dir (f ∷ rest) w =
      let later = unzip path dir rest w in
      if not (is_client f.base)
      then later
      else elim f.unopened [ some e ↦ (w, err e) | none ↦ unpacked path dir f.base w ]

  -- The loop over the headers of a tar archive.
  unfoldable pub untar : String → String → List (Result Entry) → W → W × Result String
  untar path dir [] w = (w, err "wakehub-client binary not found in archive")
  untar path dir (err e ∷ rest) w = (w, err e)
  untar path dir (ok f ∷ rest) w =
      let later = untar path dir rest w in
      if not (is_client f.base) then later else unpacked path dir f.base w

  unfoldable pub extract_client_binary : String → String → W → W × Result String
  extract_client_binary path dir w =
      if has_suffix (to_lower path) ".zip"
      then elim (net.open_zip path w) [ err e ↦ (w, err e) | ok files ↦ unzip path dir files w ]
      else elim (net.open_tar path w) [ err e ↦ (w, err e) | ok files ↦ untar path dir files w ]

  -- A file is read in one step.
  unfoldable pub copy_file : String → String → W → W × Option String
  copy_file src dst w = elim (os.read_file src w) [
    | absent e ↦ (w, some e)
    | unreadable e ↦ (w, some e)
    | contents text ↦ os.write_file dst text w
  ]

  -- The program under the name `exe` makes room for the new one, and comes back where that fails.
  unfoldable pub swap : String → W → W × Option String
  swap exe w =
      let w₁ = (os.remove (exe <> ".old") w).0 in
      let (w₂, locked) = os.rename exe (exe <> ".old") w₁ in
      elim locked [
        | some e ↦ (
          w₂,
          some (
              "could not replace running binary (stop the service first?): " <> e
              <> "; new binary saved as " <> exe <> ".new"),
        )
        | none ↦
            let (w₃, failed) = os.rename (exe <> ".new") exe w₂ in
            elim failed [
              | none ↦ (w₃, none)
              | some e ↦ ((os.rename (exe <> ".old") exe w₃).0, some ("install new binary: " <> e))
            ]
      ]

  unfoldable pub install_binary : String → String → W → W × Option String
  install_binary exe bin w =
      let (w', failed) = copy_file bin (exe <> ".new") w in
      elim failed [
        | some e ↦ (w', some e)
        | none ↦ swap exe (if net.windows then w' else net.chmod (exe <> ".new") w')
      ]

  -- The download into the temporary directory, and the program of the archive.
  unfoldable pub fetch : UpdateInfo → String → W → W × Result String
  fetch info dir w =
      let path = net.join dir info.asset_name in
      let (w', failed) = net.receive path w in
      elim failed [ some e ↦ (w', err e) | none ↦ extract_client_binary path dir w' ]

  -- In the temporary directory, which is removed at the end.
  unfoldable pub update_in : UpdateInfo → String → String → W → W × Option String
  update_in info exe dir w =
      let (w', fetched) = fetch info dir w in
      elim fetched [
        | err e ↦ (net.remove_all dir w', some e)
        | ok bin ↦ let (w'', failed) = install_binary exe bin w' in (net.remove_all dir w'', failed)
      ]

  unfoldable pub download_to : UpdateInfo → String → W → W × Option String
  download_to info exe w = elim (net.get info.download_url) [
    | err e ↦ (w, some e)
    | ok status ↦
        if not (nat_eq status 200)
        then (w, some ("download: HTTP " <> decimal status))
        else let (w', made) = net.make_temp w in
          elim made [ err e ↦ (w', some e) | ok dir ↦ update_in info exe dir w' ]
  ]

  unfoldable pub located : Result String
  located = elim net.executable [ err e ↦ err e | ok exe ↦ net.absolute exe ]

  unfoldable pub apply_update : Option UpdateInfo → W → W × Option String
  apply_update none w = (w, some "no download URL")
  apply_update (some info) w =
      if info.download_url == ""
      then (w, some "no download URL")
      else elim located [ err e ↦ (w, some e) | ok exe ↦ download_to info exe w ]
