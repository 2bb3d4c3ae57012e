-- ===== src/Service/Groups.antt =====
-- internal/device/service.go, Batch and WakeGroup: the map of the results.
use wakehub.Base.{
  ℕ, ◌+◌, ◌≡◌, refl, sym, ◌∙◌, ap, ◌↔◌, String, Bool, false, not, List, [], ◌∷◌, Option, none, some,
  if◌then◌else◌, ◌==◌, eq_iff, arith, any, lookup, insert, lookup-insert,
}
use wakehub.Config.{Device, Group}
use wakehub.Config.Table.{HasUniqueIds}
use wakehub.Config.Table.Entries.{entry_key, HasUniqueIds-insert, lookup_of_IsFresh}
use wakehub.Config.Store.{Store, get_device}
use wakehub.Config.Store.Groups.{get_group}
use wakehub.Service.{
  Service, Call, wake, batch_action, batch_from, batch, group_action, result_text,
  record_and_notify, notify, partial_failure,
}

-- The error of Wake for a device: no other action changes it.
abbrev pub wake_error : Store → Call → String → Option String
wake_error s call id = elim (get_device s id) [
  | none ↦ some "device not found"
  | some d ↦ (wakehub.Wol.wake call.net (Device.mac d) d.broadcast d.port d.repeat).1
]

-- What the last of these calls for an id reports, `before` where none is for it.
abbrev pub last_result :
    Store → (ℕ → Call) → ℕ → List String → String → Option String → Option String
last_result s calls k [] at before = before
last_result s calls k (id ∷ ids) at before =
    last_result s calls (k + 1) ids at
      (if id == at then some (result_text (wake_error s (calls k) id)) else before)

wake-wake_error :
    (call : Call) (id : String) (s : Service)
    → ((wake call id s).1 ≡ wake_error s.store call id) × ((wake call id s).0.store ≡ s.store)
unfolding wake record_and_notify notify
wake-wake_error call id s = ground arith

abbrev after : (ℕ → Call) → ℕ → String → Service → Service
after calls k id s = (wake (calls k) id s).0

lookup-batch_from :
    (calls : ℕ → Call) (k : ℕ) (ids : List String) (s : Service) (out : List (String × String))
    (at : String)
    → lookup at (batch_from "wake" calls k ids s out).1
      ≡ last_result s.store calls k ids at (lookup at out)
unfolding batch_from batch_action
lookup-batch_from calls k [] s out at = refl
lookup-batch_from calls k (id ∷ ids) s out at =
    let (failed, kept) = wake-wake_error (calls k) id s in
    lookup-batch_from calls (k + 1) ids (after calls k id s)
      (insert id (result_text (wake (calls k) id s).1) out) at
    ∙ ap
        (λ t.
          last_result t calls (k + 1) ids at
            (lookup at (insert id (result_text (wake (calls k) id s).1) out)))
        kept
    ∙ ap (last_result s.store calls (k + 1) ids at) (
        lookup-insert id at (result_text (wake (calls k) id s).1) out
        ∙ ap (λ e. if id == at then some (result_text e) else lookup at out) failed)

abbrev failed_entry : String × String → Bool
failed_entry e = not (e.1 == "ok")

ok_of_any :
    (table : List (String × String)) (at v : String)
    → any failed_entry table ≡ false
    → lookup at table ≡ some v
    → v ≡ "ok"
unfolding lookup
ok_of_any [] at v h e = cc
ok_of_any (x ∷ table) at v h e = ground (arith, ok_of_any table at v, eq_iff x.1 "ok")

any_of_ok :
    (table : List (String × String))
    → HasUniqueIds entry_key table
    → ((at v : String) → lookup at table ≡ some v → v ≡ "ok")
    → any failed_entry table ≡ false
any_of_ok [] u h = refl
any_of_ok (x ∷ table) u h =
    let head = h x.0 x.1 (unfold lookup in ground (arith, eq_iff x.0 x.0)) in
    let absent = lookup_of_IsFresh x.0 table u.0 in
    let rest =
      any_of_ok table u.1
        (λ at v e. h at v (unfold lookup in ground (arith, absent, eq_iff x.0 at))) in
    ground (arith, head, rest, eq_iff x.1 "ok")

HasUniqueIds-batch_from :
    (action : String) (calls : ℕ → Call) (k : ℕ) (ids : List String) (s : Service)
    (out : List (String × String))
    → HasUniqueIds entry_key out
    → HasUniqueIds entry_key (batch_from action calls k ids s out).1
unfolding batch_from
HasUniqueIds-batch_from action calls k [] s out h = h
HasUniqueIds-batch_from action calls k (id ∷ ids) s out h =
    HasUniqueIds-batch_from action calls (k + 1) ids _ _ (HasUniqueIds-insert id _ out h)

abbrev pub AllLastOk : Store → (ℕ → Call) → List String → Type 0
AllLastOk t calls ids = (at v : String) → last_result t calls 0 ids at none ≡ some v → v ≡ "ok"

batch-AllLastOk :
    (calls : ℕ → Call) (ids : List String) (s : Service)
    → (any failed_entry (batch "wake" calls ids s).1 ≡ false) ↔ AllLastOk s.store calls ids
unfolding batch lookup
batch-AllLastOk calls ids s = (
  λ h at v e. ok_of_any _ at v h (lookup-batch_from calls 0 ids s [] at ∙ e),
  λ h.
      any_of_ok _ (HasUniqueIds-batch_from "wake" calls 0 ids s [] tt)
        (λ at v e. h at v (sym (lookup-batch_from calls 0 ids s [] at) ∙ e)),
)

-- What a group action reports, by what it does for a group that it finds.
grouped-none_iff :
    (s : Service) (o : Option Group) (run : Group → Service × List (String × String))
    (R : Group → Type 0)
    → ((g : Group) → (any failed_entry (run g).1 ≡ false) ↔ R g)
    → ((elim o as (λ _. Service × Option String) [
      | none ↦ (s, some "group not found")
      | some g ↦
          ((run g).0, if any failed_entry (run g).1 then some (partial_failure (run g).1) else none)
    ]).1
        ≡ none)
      ↔ ((g : Group) × (o ≡ some g) × R g)
grouped-none_iff s none run R h = (λ q. absurd (cc q), λ y. absurd (cc y.1))
grouped-none_iff s (some g) run R h = (
  λ q. (g, refl, (h g).0 (ground arith)),
  λ y. let same : g ≡ y.0 = cc y.1 in let clean = (h g).1 (rw same y.2) in ground arith,
)

-- WakeGroup reports success exactly when the group exists and, for each member, the last of its
-- wakes in the batch reports "ok"; a member that is listed again hides its earlier failures.
pub group_action-wake_iff :
    (calls : ℕ → Call) (group_id : String) (s : Service)
    → ((group_action "wake" calls group_id s).1 ≡ none)
      ↔ ((g : Group) × (get_group s.store group_id ≡ some g) × AllLastOk s.store calls g.device_ids)
unfolding group_action
group_action-wake_iff calls group_id s =
    grouped-none_iff s (get_group s.store group_id) (λ g. batch "wake" calls g.device_ids s)
      (λ g. AllLastOk s.store calls g.device_ids) (λ g. batch-AllLastOk calls g.device_ids s)
