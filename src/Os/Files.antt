-- ===== src/Os/Files.antt =====
-- The files of the machine, as the documentation of os and POSIX has them.
use Prim.Native.String.{◌++◌ as ◌<>◌}
use text.Mathlib.TextLemmas.{cons-append, nil-append}
use wakehub.Base.{◌≡◌, ◌≢◌, sym, ◌∙◌, String, Option, none, some}
use wakehub.Os.{Os, contents}

-- `content w path` is the text of the file at the path, if there is one. A call that fails may have
-- touched the file that it is to write and no other, and a renaming that fails nothing.
pub record IsFiles {W : Type 0} (os : Os W) (content : W → String → Option String) : Type 0 where
  pub read :
      (path text : String) (w : W)
      → content w path ≡ some text
      → os.read_file path w ≡ contents text
  pub write :
      (path text : String) (w : W)
      → (os.write_file path text w).1 ≡ none
      → content (os.write_file path text w).0 path ≡ some text
  pub write_other :
      (path text at : String) (w : W)
      → at ≢ path
      → content (os.write_file path text w).0 at ≡ content w at
  pub remove_other :
      (path at : String) (w : W) → at ≢ path → content (os.remove path w).0 at ≡ content w at
  pub rename :
      (from to : String) (w : W)
      → (os.rename from to w).1 ≡ none
      → content (os.rename from to w).0 to ≡ content w from
  pub rename_other :
      (from to at : String) (w : W)
      → at ≢ from
      → at ≢ to
      → content (os.rename from to w).0 at ≡ content w at
  pub rename_failed :
      (from to at : String) (w : W)
      → (os.rename from to w).1 ≢ none
      → content (os.rename from to w).0 at ≡ content w at
  pub mkdir : (path at : String) (w : W) → content (os.mkdir_all path w).0 at ≡ content w at

-- A path with an extension is another path.
pub append-ne : (s t : String) → t ≢ "" → s ≢ s <> t
append-ne String.[] t given e = given (sym (e ∙ nil-append t))
append-ne (String.◌∷◌ c s) t given e = append-ne s t given (cc (e, cons-append c s t))

-- So are two paths with different extensions.
pub append_cancel : (s t u : String) → s <> t ≡ s <> u → t ≡ u
append_cancel String.[] t u e = sym (nil-append t) ∙ e ∙ nil-append u
append_cancel (String.◌∷◌ c s) t u e =
    append_cancel s t u (cc (e, cons-append c s t, cons-append c s u))
