-- ===== src/Client/Quote.antt =====
-- internal/clientapp/quote.go, and SanitizeInstance of nics.go: texts for the command lines of
-- services and for the names of mDNS.
pub mod Words
use Prim.Native.Char.{code}
use Prim.Native.String
use wakehub.Base.{ℕ, String, Bool, ◌||◌, not, if◌then◌else◌, ◌==◌, nat_eq}
use wakehub.Text.{replace_char, all_chars, is_letter, is_digit}

unfoldable pub win_quote : String → String
win_quote s =
    if s == ""
    then "\"\""
    else if all_chars (λ n. not ((nat_eq n b' ' || nat_eq n b'\t') || nat_eq n b'"')) s
    then s
    else String.◌++◌ "\"" (String.◌++◌ (replace_char b'"' "\\\"" s) "\"")

unfoldable pub shell_quote : String → String
shell_quote s =
    if s == "" then "''" else String.◌++◌ "'" (String.◌++◌ (replace_char b'\'' "'\\''" s) "'")

-- `windows` says what runtime.GOOS is.
unfoldable pub build_service_command : Bool → String → String → String
build_service_command windows exe config_path =
    if windows
    then String.◌++◌ (win_quote exe) (String.◌++◌ " run -config " (win_quote config_path))
    else String.◌++◌ (shell_quote exe) (String.◌++◌ " run -config " (shell_quote config_path))

-- The loop over the characters.
unfoldable pub sanitized : String → String
sanitized String.[] = String.[]
sanitized (String.◌∷◌ c s) =
    if (is_letter (code c) || is_digit (code c)) || nat_eq (code c) b'-'
    then String.◌∷◌ c (sanitized s)
    else String.◌++◌ "-" (sanitized s)

unfoldable pub sanitize_instance : String → String
sanitize_instance s = let out = sanitized s in if out == "" then "client" else out
