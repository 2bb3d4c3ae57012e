-- ===== src/Client/Update/Safety.antt =====
-- internal/clientapp/update.go: the program before and after ApplyUpdate.
use Prim.Native.String.{◌++◌ as ◌<>◌}
use wakehub.Base.{
  ◌≡◌, ◌≢◌, inl, inr, refl, sym, subst, ◌∙◌, String, List, [], ◌∷◌, Option, none, some, Result, ok,
  err, ◌==◌, nat_eq, Bool-cases, Result-cases, arith,
}
use wakehub.Text.{has_suffix, to_lower}
use wakehub.Os.{Os, contents}
use wakehub.Os.Files.{IsFiles}
use wakehub.Client.Update.{
  UpdateInfo, Entry, Download, unpacked, unzip, untar, extract_client_binary, install_binary, fetch,
  update_in, download_to, located, apply_update,
}
use wakehub.Client.Update.Replacing.{IsApart, IsKept, content-install_binary}

module _ {W : Type 0} (os : Os W) (net : Download W) (content : W → String → Option String)
    (at : String) (apart : IsApart net content at) where
  content-unpacked :
      (path dir base : String) (w : W)
      → ((name : String) → at ≢ net.join dir name)
      → content (unpacked os net path dir base w).0 at ≡ content w at
  unfolding unpacked
  content-unpacked path dir base w outside =
      let same = apart.unpack path base (net.join dir base) w (outside base) in ground arith

  content-unzip :
      (path dir : String) (listed : List Entry) (w : W)
      → ((name : String) → at ≢ net.join dir name)
      → content (unzip os net path dir listed w).0 at ≡ content w at
  unfolding unzip
  content-unzip path dir [] w outside = refl
  content-unzip path dir (f ∷ rest) w outside =
      let later = content-unzip path dir rest w outside in
      let here = content-unpacked path dir f.base w outside in ground arith

  content-untar :
      (path dir : String) (listed : List (Result Entry)) (w : W)
      → ((name : String) → at ≢ net.join dir name)
      → content (untar os net path dir listed w).0 at ≡ content w at
  unfolding untar
  content-untar path dir [] w outside = refl
  content-untar path dir (err e ∷ rest) w outside = refl
  content-untar path dir (ok f ∷ rest) w outside =
      let later = content-untar path dir rest w outside in
      let here = content-unpacked path dir f.base w outside in ground arith

  content-extract_client_binary :
      (path dir : String) (w : W)
      → ((name : String) → at ≢ net.join dir name)
      → content (extract_client_binary os net path dir w).0 at ≡ content w at
  unfolding extract_client_binary
  content-extract_client_binary path dir w outside =
      elim (Bool-cases (has_suffix (to_lower path) ".zip")) [
        | inl zip ↦ elim (Result-cases (net.open_zip path w)) [
          | inl (listed, e) ↦
              rw (zip, e, extract_client_binary) (content-unzip path dir listed w outside)
          | inr (failed, e) ↦ rw (zip, e, extract_client_binary) refl
        ]
        | inr tar ↦ elim (Result-cases (net.open_tar path w)) [
          | inl (listed, e) ↦
              rw (tar, e, extract_client_binary) (content-untar path dir listed w outside)
          | inr (failed, e) ↦ rw (tar, e, extract_client_binary) refl
        ]
      ]

  -- The download and the archive leave the file alone.
  content-fetch :
      (info : UpdateInfo) (dir : String) (w : W)
      → ((name : String) → at ≢ net.join dir name)
      → content (fetch os net info dir w).0 at ≡ content w at
  unfolding fetch
  content-fetch info dir w outside =
      let path = net.join dir info.asset_name in
      let w' = (net.receive path w).0 in
      let received = apart.receive path w (outside info.asset_name) in
      let extracted = content-extract_client_binary path dir w' outside in ground arith

module _ {W : Type 0} (os : Os W) (net : Download W) (content : W → String → Option String)
    (files : IsFiles os content) (exe : String) (apart_exe : IsApart net content exe)
    (apart_old : IsApart net content (exe <> ".old"))
    (apart_new : IsApart net content (exe <> ".new")) where
  -- The program is what the archive held, and the former one is beside it.
  abbrev pub IsUpdated : UpdateInfo → W → W → Type 0
  IsUpdated info w w' =
      (dir bin text : String) × ((net.make_temp w).1 ≡ ok dir)
      × ((fetch os net info dir (net.make_temp w).0).1 ≡ ok bin)
      × (os.read_file bin (fetch os net info dir (net.make_temp w).0).0 ≡ contents text)
      × (content w' exe ≡ some text)
      × (content w' (exe <> ".old") ≡ content w exe)

  update_in-IsSafe :
      (info : UpdateInfo) (dir : String) (w : W)
      → (net.make_temp w).1 ≡ ok dir
      → let w' = update_in os net info exe dir (net.make_temp w).0 in
        (w'.1 ≡ none → IsUpdated info w w'.0) × IsKept os net content files exe w w'.0
  unfolding update_in
  update_in-IsSafe info dir w made =
      let w₁ = (net.make_temp w).0 in
      let fetched = fetch os net info dir w₁ in
      let outside : (name : String) → exe ≢ net.join dir name =
        λ name. apart_exe.outside dir name w made in
      let before =
        content-fetch os net content exe apart_exe info dir w₁ outside ∙ apart_exe.make_temp w in
      elim (Result-cases fetched.1) [
        | inr (e, failed) ↦
            rw (failed, update_in)
              (λ done. cc, inl (apart_exe.remove_all dir fetched.0 w made ∙ before))
        | inl (bin, found) ↦
            let placed =
              content-install_binary os net content files exe apart_exe apart_old apart_new bin
                fetched.0 in
            let w₂ = (install_binary os net exe bin fetched.0).0 in
            let end_exe = apart_exe.remove_all dir w₂ w made in
            let end_old = apart_old.remove_all dir w₂ w made in
            rw (found, update_in)
              (
                λ done.
                    let (text, read, now, saved) = placed.0 done in
                    (dir, bin, text, made, found, read, end_exe ∙ now, end_old ∙ saved ∙ before),
                elim placed.1 [
                  | inl h ↦ inl (end_exe ∙ h ∙ before)
                  | inr h ↦ inr (end_old ∙ h ∙ before)
                ],
              )
      ]

  download_to-IsSafe :
      (info : UpdateInfo) (w : W)
      → ((download_to os net info exe w).1 ≡ none
          → IsUpdated info w (download_to os net info exe w).0)
        × IsKept os net content files exe w (download_to os net info exe w).0
  unfolding download_to
  download_to-IsSafe info w = elim (Result-cases (net.get info.download_url)) [
    | inr (e, failed) ↦ rw (failed, download_to) (λ done. cc, inl refl)
    | inl (status, answered) ↦ elim (Bool-cases (nat_eq status 200)) [
      | inr bad ↦ rw (answered, bad, download_to) (λ done. cc, inl refl)
      | inl fine ↦ elim (Result-cases (net.make_temp w).1) [
        | inr (e, failed) ↦
            rw (answered, fine, failed, download_to) (λ done. cc, inl (apart_exe.make_temp w))
        | inl (dir, made) ↦
            let same : download_to os net info exe w
                ≡ update_in os net info exe dir (net.make_temp w).0 =
              rw (answered, fine, made, download_to) refl in
            subst (λ r. (r.1 ≡ none → IsUpdated info w r.0) × IsKept os net content files exe w r.0)
              (sym same) (update_in-IsSafe info dir w made)
      ]
    ]
  ]

  -- The program is never lost: after ApplyUpdate its former contents are under its name, or under
  -- that with ".old"; and where there is no error, the latter is so and under its name is what the
  -- archive that was downloaded held. The program and its two neighbours are not in the temporary
  -- directory.
  pub apply_update-IsSafe :
      (info : UpdateInfo) (w : W)
      → located os net ≡ ok exe
      → ((apply_update os net (some info) w).1 ≡ none
          → IsUpdated info w (apply_update os net (some info) w).0)
        × IsKept os net content files exe w (apply_update os net (some info) w).0
  unfolding apply_update
  apply_update-IsSafe info w at = elim (Bool-cases (info.download_url == "")) [
    | inl without ↦ rw (without, apply_update) (λ done. cc, inl refl)
    | inr given ↦ rw (given, at, apply_update) (download_to-IsSafe info w)
  ]
