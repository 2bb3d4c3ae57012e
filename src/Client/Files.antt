-- ===== src/Client/Files.antt =====
-- internal/clientcfg/config.go: Load and Save of the client's settings. JSON is a parameter.
pub mod Saved
use Prim.Native.String.{◌++◌ as ◌<>◌}
use wakehub.Base.{String, Option, none, some, Result, ok, err}
use wakehub.Os.{Os, contents, absent, unreadable}
use wakehub.Client.Settings.{ClientConfig, Loaded, found, missing, broken}

-- json.MarshalIndent and json.Unmarshal at the type of the settings.
pub record Json : Type 0 where
  pub marshal : ClientConfig → Result String
  pub unmarshal : String → Result ClientConfig

module _ {W : Type 0} (os : Os W) (json : Json) where
  unfoldable pub load : String → W → Loaded
  load path w = elim (os.read_file path w) [
    | absent e ↦ missing e
    | unreadable e ↦ broken e
    | contents text ↦ elim (json.unmarshal text) [
      | err e ↦ broken ("parse config: " <> e)
      | ok cfg ↦ found cfg
    ]
  ]

  -- The temporary file, and its new name.
  unfoldable pub replace_file : String → String → W → W × Option String
  replace_file path text w =
      let tmp = path <> ".tmp" in
      let (w', failed) = os.write_file tmp text w in
      elim failed [
        | some e ↦ (w', some e)
        | none ↦
            let (w'', refused) = os.rename tmp path w' in
            elim refused [ some e ↦ ((os.remove tmp w'').0, some e) | none ↦ (w'', none) ]
      ]

  -- `parent` is filepath.Dir of the path.
  unfoldable pub save : String → String → ClientConfig → W → W × Option String
  save parent path cfg w =
      let (w', failed) = os.mkdir_all parent w in
      elim failed [
        | some e ↦ (w', some e)
        | none ↦ elim (json.marshal cfg) [
          | err e ↦ (w', some e)
          | ok text ↦ replace_file path text w'
        ]
      ]
