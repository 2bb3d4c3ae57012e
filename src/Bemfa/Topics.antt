-- ===== src/Bemfa/Topics.antt =====
-- internal/bemfa/manager.go, lines 505 to 592: the texts that name topics, devices and users.
use Prim.Native.String
use Prim.Native.String.{len, slice}
use wakehub.Base.{
  ℕ, zero, suc, ◌-◌, String, Bool, ◌&&◌, ◌||◌, not, List, Option, none, some, if◌then◌else◌, ◌==◌,
  leb, ltb,
}
use wakehub.Text.{
  trim_space, to_lower, remove_char, has_suffix, all_chars, is_digit, is_letter, decimal,
}
use wakehub.Config.Random.{encode_hex}

-- utf8.RuneCountInString
unfoldable pub rune_count : String → ℕ
rune_count String.[] = 0
rune_count (String.◌∷◌ c s) = suc (rune_count s)

-- r[:n], for the runes of a text
unfoldable pub first_runes : ℕ → String → String
first_runes zero s = String.[]
first_runes (suc n) String.[] = String.[]
first_runes (suc n) (String.◌∷◌ c s) = String.◌∷◌ c (first_runes n s)

unfoldable pub normalize_topic : String → String
normalize_topic topic =
    remove_char b' '
      (remove_char b'_' (remove_char b'-' (remove_char b':' (to_lower (trim_space topic)))))

abbrev pub is_alphanumeric : ℕ → Bool
is_alphanumeric n = is_letter n || is_digit n

-- topicPattern: two to twenty-nine letters and digits, and then 001.
unfoldable pub matches_topic_pattern : String → Bool
matches_topic_pattern s =
    has_suffix s "001"
    && all_chars is_alphanumeric s
    && leb 5 (rune_count s)
    && leb (rune_count s) 32

-- `quote` is strconv.Quote.
unfoldable pub validate_topic : (String → String) → String → Option String
validate_topic quote given =
    let topic = normalize_topic given in
    if topic == ""
    then some "bemfa topic is empty"
    else if not (has_suffix topic "001")
    then some (String.◌++◌ "bemfa topic must end with 001 (outlet), got " topic)
    else if not (matches_topic_pattern topic)
    then some (
        String.◌++◌ "bemfa topic invalid " (
          String.◌++◌ (quote topic)
            ": only letters/digits allowed, length 5-32, must end with 001"))
    else none

unfoldable pub sanitize_name : String → String
sanitize_name given =
    let name = trim_space given in if ltb 32 (rune_count name) then first_runes 32 name else name

unfoldable pub sanitize_uid : String → String
sanitize_uid uid = remove_char b'\t' (
    remove_char b' ' (
      remove_char b'\n' (
        remove_char b'\r' (
          remove_char 0xfeff
            (remove_char 0x200d (remove_char 0x200c (remove_char 0x200b (trim_space uid))))))))

-- The lengths and the cuts are in bytes.
unfoldable pub mask_uid : String → String
mask_uid given =
    let uid = sanitize_uid given in
    if leb (len uid) 6
    then (if uid == "" then "" else "****")
    else String.◌++◌ (slice uid 0 3) (String.◌++◌ "****" (slice uid (len uid - 3) (len uid)))

-- The loop over the characters: hexadecimal digits pass, and so do all others from 33 to 126.
abbrev pub is_uid_char : ℕ → Bool
is_uid_char n =
    (is_digit n || (leb b'a' n && leb n b'f') || (leb b'A' n && leb n b'F'))
    || not (ltb n 33 || ltb 126 n)

unfoldable pub validate_uid : String → Option String
validate_uid given =
    let uid = sanitize_uid given in
    if uid == ""
    then some "bemfa UID is empty"
    else if ltb (len uid) 16
    then some (
        String.◌++◌ "bemfa UID too short ("
          (String.◌++◌ (decimal (len uid)) " chars); 请使用控制台「用户私钥」(通常为较长十六进制)，不要用密钥/AppID"))
    else if not (all_chars is_uid_char uid)
    then some "bemfa UID contains invalid character"
    else none

-- `read 4` is what rand.Read leaves in the four bytes: zeros, where it fails.
unfoldable pub generate_topic : (ℕ → List ℕ) → String
generate_topic read = String.◌++◌ "pc" (String.◌++◌ (encode_hex (read 4)) "001")

unfoldable pub is_outlet_topic : String → Bool
is_outlet_topic topic = has_suffix (to_lower (trim_space topic)) "001"
