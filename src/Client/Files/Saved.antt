-- ===== src/Client/Files/Saved.antt =====
-- internal/clientcfg/config.go: what Load finds after Save.
use Prim.Native.String.{◌++◌ as ◌<>◌}
use wakehub.Base.{
  ◌≡◌, ◌≢◌, refl, ◌∙◌, String, Option, none, some, ok, Option-cases, Result-cases, inl, inr,
}
use wakehub.Os.{Os}
use wakehub.Os.Files.{IsFiles, append-ne}
use wakehub.Client.Settings.{ClientConfig, found}
use wakehub.Client.Files.{Json, load, replace_file, save}

module _ {W : Type 0} (os : Os W) (json : Json) (content : W → String → Option String)
    (files : IsFiles os content) where
  content-replace_file :
      (path text : String) (w : W)
      → ((replace_file os json path text w).1 ≡ none
          → content (replace_file os json path text w).0 path ≡ some text)
        × ((replace_file os json path text w).1 ≢ none
            → content (replace_file os json path text w).0 path ≡ content w path)
  unfolding replace_file
  content-replace_file path text w =
      let tmp = path <> ".tmp" in
      let w' = (os.write_file tmp text w).0 in
      let w'' = (os.rename tmp path w').0 in
      let other : path ≢ tmp = append-ne path ".tmp" (λ e. cc) in
      let before = files.write_other tmp text path w other in
      elim (Option-cases (os.write_file tmp text w).1) [
        | inr (e, failed) ↦ rw (failed, replace_file) (λ done. cc, λ error. before)
        | inl written ↦ elim (Option-cases (os.rename tmp path w').1) [
          | inl moved ↦
              let now = files.rename tmp path w' moved ∙ files.write tmp text w written in
              rw (written, moved, replace_file) (λ done. now, λ error. absurd (error refl))
          | inr (e, refused) ↦
              let kept =
                files.remove_other tmp path w'' other
                ∙ files.rename_failed tmp path path w' (λ fine. cc)
                ∙ before in
              rw (written, refused, replace_file) (λ done. cc, λ error. kept)
        ]
      ]

  pub load-found :
      (path text : String) (cfg : ClientConfig) (w : W)
      → content w path ≡ some text
      → json.unmarshal text ≡ ok cfg
      → load os json path w ≡ found cfg
  unfolding load
  load-found path text cfg w there reads = rw (files.read path text w there, reads, load) refl

  pub content-save :
      (parent path : String) (cfg : ClientConfig) (w : W)
      → ((save os json parent path cfg w).1 ≡ none
          → (text : String) × (json.marshal cfg ≡ ok text)
            × (content (save os json parent path cfg w).0 path ≡ some text))
        × ((save os json parent path cfg w).1 ≢ none
            → content (save os json parent path cfg w).0 path ≡ content w path)
  unfolding save
  content-save parent path cfg w =
      let w' = (os.mkdir_all parent w).0 in
      let same = files.mkdir parent path w in
      elim (Option-cases (os.mkdir_all parent w).1) [
        | inr (e, failed) ↦ rw (failed, save) (λ done. cc, λ error. same)
        | inl made ↦ elim (Result-cases (json.marshal cfg)) [
          | inr (e, failed) ↦ rw (made, failed, save) (λ done. cc, λ error. same)
          | inl (text, e) ↦
              let replaced = content-replace_file path text w' in
              rw (made, e, save)
                (λ done. (text, refl, replaced.0 done), λ error. replaced.1 error ∙ same)
        ]
      ]

  -- Settings that Save has written without an error are what Load finds, where JSON reads what it
  -- writes; and where Save has an error the file is as it was.
  pub load-save :
      (parent path : String) (cfg : ClientConfig) (w : W)
      → ((text : String) → json.marshal cfg ≡ ok text → json.unmarshal text ≡ ok cfg)
      → ((save os json parent path cfg w).1 ≡ none
          → load os json path (save os json parent path cfg w).0 ≡ found cfg)
        × ((save os json parent path cfg w).1 ≢ none
            → content (save os json parent path cfg w).0 path ≡ content w path)
  load-save parent path cfg w json_reads =
      let saved = content-save parent path cfg w in
      (
        λ done.
            let (text, e, there) = saved.0 done in
            load-found path text cfg (save os json parent path cfg w).0 there (json_reads text e),
        saved.1,
      )
