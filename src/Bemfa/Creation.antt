-- ===== src/Bemfa/Creation.antt =====
-- internal/bemfa/manager.go, lines 380 to 503: the attempts to make a topic at the cloud.
use Prim.Native.String
use wakehub.Base.{
  ℕ, negsuc, leb_ℤ, String, Bool, false, ◌&&◌, ◌||◌, not, List, [], ◌∷◌, Option, none, some,
  if◌then◌else◌, ◌==◌,
}
use wakehub.Text.{to_lower, contains}
use wakehub.Bemfa.{Call, CallError, Manager, append_log_locked, log_event, log_info, log_warn}
use wakehub.Bemfa.Topics.{
  normalize_topic, sanitize_name, sanitize_uid, mask_uid, validate_uid, validate_topic,
}

abbrev says_exists : String → Bool
says_exists given =
    let s = to_lower given in contains s "exist" || contains s "已存在" || contains s "重复"

abbrev says_parameter : String → Bool
says_parameter given = let s = to_lower given in contains s "参数" || contains s "param"

unfoldable pub is_already_exists : CallError → Bool
is_already_exists e =
    (elim e.api [ none ↦ false | some (code, message) ↦ says_exists message ]) || says_exists e.text

unfoldable pub is_param_error : CallError → Bool
is_param_error e =
    (elim e.api [
      | none ↦ false
      | some (code, message) ↦
          (leb_ℤ code (negsuc 0) && leb_ℤ (negsuc 0) code) || says_parameter message
    ])
    || says_parameter e.text

-- The calls, by their number in `Call`, with their labels.
abbrev pub attempts : List (ℕ × String)
attempts =
    (0, "CreateTopic(v2,type=1)")
    ∷ (1, "CreateTopic(v2,type=5,MQTTv2)")
    ∷ (2, "CreateTopicV1(type=1)")
    ∷ (3, "CreateTopics(v2,type=1)")
    ∷ []

unfoldable pub creation_failure : Call → String → String → String → String → String
creation_failure call uid topic name last = String.◌++◌ last (
    String.◌++◌ " | topic=" (
      String.◌++◌ topic (
        String.◌++◌ " name=" (
          String.◌++◌ (call.quote name) (
            String.◌++◌ " uid=" (
              String.◌++◌ (mask_uid uid)
                " | 排查: 1)UID须为巴法「用户私钥」非密钥/AppID 2)主题仅字母数字且以001结尾 3)可先在MQTT控制台手动创建同名主题"))))))

-- The loop over the attempts, with the text of the last error.
unfoldable pub create_from :
    Call → String → String → String → String → List (ℕ × String) → Manager → Manager × Option String
create_from call uid topic name last [] m = (m, some (creation_failure call uid topic name last))
create_from call uid topic name last ((k, label) ∷ rest) m = elim (call.create k topic name) [
  | none ↦ (
    append_log_locked call log_event
        (String.◌++◌ "create topic ok via " (
          String.◌++◌ label
            (String.◌++◌ " topic=" (String.◌++◌ topic (String.◌++◌ " name=" name)))))
        m,
    none,
  )
  | some e ↦
      if is_already_exists e
      then (
        append_log_locked call log_info (String.◌++◌ "topic already exists topic=" topic) m,
        none,
      )
      else let warned =
          append_log_locked call log_warn
            (String.◌++◌ "create topic failed via " (
              String.◌++◌ label (
                String.◌++◌ " topic=" (
                  String.◌++◌ topic
                    (String.◌++◌ " uid=" (String.◌++◌ (mask_uid uid) (String.◌++◌ ": " e.text)))))))
            m in
        if not (is_param_error e)
        then (warned, some (creation_failure call uid topic name e.text))
        else create_from call uid topic name e.text rest warned
]

unfoldable pub create_topic_idempotent :
    Call → String → String → String → Manager → Manager × Option String
create_topic_idempotent call given_uid given_topic given_name m =
    let uid = sanitize_uid given_uid in
    let topic = normalize_topic given_topic in
    let kept = sanitize_name given_name in
    let name = if kept == "" then "WakeHub" else kept in
    if uid == "" then (m, some "bemfa UID is empty") else elim (validate_uid uid) [
      | some e ↦ (m, some e)
      | none ↦ elim (validate_topic call.quote topic) [
        | some e ↦ (m, some e)
        | none ↦ create_from call uid topic name "" attempts m
      ]
    ]
