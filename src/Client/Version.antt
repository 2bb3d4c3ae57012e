-- ===== src/Client/Version.antt =====
-- internal/clientapp/update.go, lines 182 to 246: the names of releases and the order of versions.
pub mod Order
use Prim.Native.Char.{code}
use Prim.Native.String
use Prim.Native.String.{len, slice}
use wakehub.Base.{
  ℕ, ◌+◌, ◌-◌, ◌*◌, ◌%◌, ◌^◌, String, Bool, true, false, ◌&&◌, ◌||◌, not, Option, none, some,
  if◌then◌else◌, ◌==◌, ltb, nat_eq,
}
use wakehub.Text.{trim_space, has_prefix, is_digit}

-- titleOS and releaseArch, for runtime.GOOS with its first letter in upper case, and runtime.GOARCH.
unfoldable pub release_arch : String → String
release_arch arch = if arch == "amd64" then "x86_64" else if arch == "386" then "i386" else arch

unfoldable pub client_asset_name : String → String → String → String
client_asset_name os title arch = String.◌++◌ "wakehub-client_" (
    String.◌++◌ title (
      String.◌++◌ "_"
        (String.◌++◌ (release_arch arch) (if os == "windows" then ".zip" else ".tar.gz"))))

-- strings.TrimPrefix(s, "v")
abbrev pub without_v : String → String
without_v s = if has_prefix s "v" then slice s 1 (len s) else s

-- The loop over the characters of a part, which ends at the first that is no digit: the number, an
-- int of 64 bits, that starts as `n`. What follows the first "." belongs to the next part.
unfoldable pub number_from : ℕ → String → ℕ
number_from n String.[] = n
number_from n (String.◌∷◌ c s) =
    let longer = number_from ((n * 10 + (code c - b'0')) % 2 ^ 64) s in
    if is_digit (code c) then longer else n

-- The text behind the first "."
unfoldable pub after_dot : String → Option String
after_dot String.[] = none
after_dot (String.◌∷◌ c s) =
    let later = after_dot s in if nat_eq (code c) b'.' then some s else later

-- The number of a part that is there, which ends at the "." after it.
abbrev part : Option String → ℕ
part none = 0
part (some s) = number_from 0 s

abbrev tail_of : Option String → Option String
tail_of none = none
tail_of (some s) = after_dot s

unfoldable pub split_ver : String → ℕ × ℕ × ℕ
split_ver s = let minor = after_dot s in (number_from 0 s, part minor, part (tail_of minor))

-- a < b for two ints of 64 bits in two's complement
abbrev pub int_ltb : ℕ → ℕ → Bool
int_ltb a b = ltb ((a + 2 ^ 63) % 2 ^ 64) ((b + 2 ^ 63) % 2 ^ 64)

-- The loop over the three numbers.
unfoldable pub later : ℕ × ℕ × ℕ → ℕ × ℕ × ℕ → Bool
later (l0, l1, l2) (c0, c1, c2) =
    if int_ltb c0 l0
    then true
    else if int_ltb l0 c0
    then false
    else if int_ltb c1 l1
    then true
    else if int_ltb l1 c1
    then false
    else int_ltb c2 l2

-- The two versions, as the function has trimmed them.
abbrev pub trimmed : String → String
trimmed s = without_v (trim_space s)

abbrev pub is_unreleased : String → Bool
is_unreleased current = (current == "" || current == "dev") || current == "unknown"

unfoldable pub is_newer_version : String → String → Bool
is_newer_version given_latest given_current =
    let latest = trimmed given_latest in
    let current = trimmed given_current in
    if is_unreleased current
    then not (latest == "") && not (latest == current)
    else if latest == current
    then false
    else later (split_ver latest) (split_ver current)
