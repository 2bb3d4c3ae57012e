-- ===== src/Client/Update/Replacing.antt =====
-- internal/clientapp/update.go: the program while ApplyUpdate replaces it.
use Prim.Native.String.{◌++◌ as ◌<>◌}
use wakehub.Base.{
  ◌≡◌, ◌≢◌, ◌⊎◌, inl, inr, refl, sym, ◌∙◌, String, Option, none, some, ok, eq_iff, if◌then◌else◌,
  Option-cases, arith,
}
use wakehub.Os.{Os, Read, contents, absent, unreadable}
use wakehub.Os.Files.{IsFiles, append-ne, append_cancel}
use wakehub.Client.Update.{Download, copy_file, swap, install_binary}

-- The files that the download, the archives and os.Chmod leave alone: `at` is not in the temporary
-- directory.
pub record IsApart {W : Type 0} (net : Download W) (content : W → String → Option String)
    (at : String) : Type 0 where
  pub make_temp : (w : W) → content (net.make_temp w).0 at ≡ content w at
  pub outside : (dir name : String) (w : W) → (net.make_temp w).1 ≡ ok dir → at ≢ net.join dir name
  pub receive :
      (path : String) (w : W) → at ≢ path → content (net.receive path w).0 at ≡ content w at
  pub unpack :
      (path base out : String) (w : W)
      → at ≢ out
      → content (net.unpack path base out w).0 at ≡ content w at
  pub chmod : (path : String) (w : W) → content (net.chmod path w) at ≡ content w at
  pub remove_all :
      (dir : String) (w v : W)
      → (net.make_temp v).1 ≡ ok dir
      → content (net.remove_all dir w) at ≡ content w at

new-ne-old : ◌≢◌ {A = String} ".new" ".old"
new-ne-old e = ground (arith, eq_iff ".new" ".old")

module _ {W : Type 0} (os : Os W) (net : Download W) (content : W → String → Option String)
    (files : IsFiles os content) where
  -- The former program is still there, under its name or under that with ".old".
  abbrev pub IsKept : String → W → W → Type 0
  IsKept exe w w' = (content w' exe ≡ content w exe) ⊎ (content w' (exe <> ".old") ≡ content w exe)

  abbrev pub IsReplaced : String → W → W → Type 0
  IsReplaced exe w w' =
      (content w' exe ≡ content w (exe <> ".new")) × (content w' (exe <> ".old") ≡ content w exe)

  content-swap :
      (exe : String) (w : W)
      → ((swap os net exe w).1 ≡ none → IsReplaced exe w (swap os net exe w).0)
        × (IsKept exe w (swap os net exe w).0)
  unfolding swap
  content-swap exe w =
      let old = exe <> ".old" in
      let new = exe <> ".new" in
      let w₁ = (os.remove old w).0 in
      let w₂ = (os.rename exe old w₁).0 in
      let w₃ = (os.rename new exe w₂).0 in
      let exe_old : exe ≢ old = append-ne exe ".old" (λ e. cc) in
      let exe_new : exe ≢ new = append-ne exe ".new" (λ e. cc) in
      let new_old : new ≢ old = λ e. new-ne-old (append_cancel exe ".new" ".old" e) in
      let c₁ = files.remove_other old exe w exe_old in
      let n₁ = files.remove_other old new w new_old in
      elim (Option-cases (os.rename exe old w₁).1) [
        | inr (e, locked) ↦
            rw (locked, swap) (λ done. cc, inl (files.rename_failed exe old exe w₁ (λ d. cc) ∙ c₁))
        | inl moved ↦
            let c₂ = files.rename exe old w₁ moved ∙ c₁ in
            let n₂ = files.rename_other exe old new w₁ (λ e. exe_new (sym e)) new_old ∙ n₁ in
            elim (Option-cases (os.rename new exe w₂).1) [
              | inl placed ↦
                  let c₃ =
                    files.rename_other new exe old w₂ (λ e. new_old (sym e)) (λ e. exe_old (sym e))
                    ∙ c₂ in
                  let n₃ = files.rename new exe w₂ placed ∙ n₂ in
                  rw (moved, placed, swap) (λ done. (n₃, c₃), inr c₃)
              | inr (e, failed) ↦
                  let c₃ = files.rename_failed new exe old w₂ (λ d. cc) ∙ c₂ in
                  let back = (os.rename old exe w₃) in
                  elim (Option-cases back.1) [
                    | inl restored ↦
                        rw (moved, failed, swap)
                          (λ done. cc, inl (files.rename old exe w₃ restored ∙ c₃))
                    | inr (e', lost) ↦
                        rw (moved, failed, swap)
                          (λ done. cc, inr (files.rename_failed old exe old w₃ (λ d. cc) ∙ c₃))
                  ]
            ]
      ]

  read_of-copy_file :
      (src dst : String) (w : W)
      → ((copy_file os net src dst w).1 ≡ none
          → (text : String) × (os.read_file src w ≡ contents text)
            × (content (copy_file os net src dst w).0 dst ≡ some text))
        × ((at : String) → at ≢ dst → content (copy_file os net src dst w).0 at ≡ content w at)
  unfolding copy_file
  read_of-copy_file src dst w = from (os.read_file src w) refl
    where
      from :
          (read : Read)
          → os.read_file src w ≡ read
          → ((copy_file os net src dst w).1 ≡ none
              → (text : String) × (os.read_file src w ≡ contents text)
                × (content (copy_file os net src dst w).0 dst ≡ some text))
            × ((at : String) → at ≢ dst → content (copy_file os net src dst w).0 at ≡ content w at)
      from (absent e) is = rw (is, copy_file) (λ done. cc, λ at other. refl)
      from (unreadable e) is = rw (is, copy_file) (λ done. cc, λ at other. refl)
      from (contents text) is =
          rw (is, copy_file)
            (
              λ done. (text, refl, files.write dst text w done),
              λ at other. files.write_other dst text at w other,
            )

  module _ (exe : String) (apart_exe : IsApart net content exe)
      (apart_old : IsApart net content (exe <> ".old"))
      (apart_new : IsApart net content (exe <> ".new")) where
    pub content-install_binary :
        (bin : String) (w : W)
        → ((install_binary os net exe bin w).1 ≡ none
            → (text : String) × (os.read_file bin w ≡ contents text)
              × (content (install_binary os net exe bin w).0 exe ≡ some text)
              × (content (install_binary os net exe bin w).0 (exe <> ".old") ≡ content w exe))
          × IsKept exe w (install_binary os net exe bin w).0
    unfolding install_binary
    content-install_binary bin w =
        let new = exe <> ".new" in
        let copied = read_of-copy_file bin new w in
        let w' = (copy_file os net bin new w).0 in
        let w'' : W = if net.windows then w' else net.chmod new w' in
        let same_exe : content w'' exe ≡ content w' exe =
          let c = apart_exe.chmod new w' in ground arith in
        let same_new : content w'' new ≡ content w' new =
          let c = apart_new.chmod new w' in ground arith in
        let kept = copied.1 exe (append-ne exe ".new" (λ e. cc)) in
        let swapped = content-swap exe w'' in
        elim (Option-cases (copy_file os net bin new w).1) [
          | inr (e, failed) ↦ rw (failed, install_binary) (λ done. cc, inl kept)
          | inl fine ↦
              let (text, read, now) = copied.0 fine in
              rw (fine, install_binary)
                (
                  λ done.
                      let r = swapped.0 done in
                      (text, read, r.0 ∙ same_new ∙ now, r.1 ∙ same_exe ∙ kept),
                  elim swapped.1 [
                    | inl h ↦ inl (h ∙ same_exe ∙ kept)
                    | inr h ↦ inr (h ∙ same_exe ∙ kept)
                  ],
                )
        ]
