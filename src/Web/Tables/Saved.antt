-- ===== src/Web/Tables/Saved.antt =====
-- internal/web/handlers_extra.go: an entry that a page saves, and the page that shows it.
use wakehub.Base.{
  ◌≡◌, ◌∙◌, refl, none, some, Result, ok, eq_iff, eq_refl, Option-cases, inl, inr, arith,
}
use wakehub.Config.{Group}
use wakehub.Config.Table.{find, id_or}
use wakehub.Config.Table.Laws.{find-upserted}
use wakehub.Text.{trim_space}
use wakehub.Config.Store.{Store, Env, new_id, save_locked, group_id}
use wakehub.Config.Store.Groups.{get_group, upsert_group, stored_group, groups_with}
use wakehub.Web.{get, post}
use wakehub.Web.Tables.{saved, shown, groups, save_entry, handle_table, handle_entry}

stored_group-id :
    (env : Env) (g : Group) (s : Store) → (stored_group env g s).id ≡ id_or (new_id env) g.id
unfolding stored_group
stored_group-id env g s = ground (arith, eq_iff g.id "")

find-groups_with :
    (env : Env) (g : Group) (s : Store)
    → (g.id ≡ "" → get_group s (new_id env) ≡ none)
    → find group_id (stored_group env g s).id (groups_with env g s) ≡ some (stored_group env g s)
unfolding groups_with get_group
find-groups_with env g s fresh =
    find-upserted group_id (new_id env) g.id s.file.groups (stored_group env g s)
      (stored_group-id env g s) fresh (stored_group env g s).id
    ∙ ground (arith, eq_refl (stored_group env g s).id)

get_group-upsert_group :
    (env : Env) (g : Group) (s : Store)
    → (g.id ≡ "" → get_group s (new_id env) ≡ none)
    → (upsert_group env g s).2 ≡ none
    → get_group (upsert_group env g s).0 (upsert_group env g s).1.id ≡ some (upsert_group env g s).1
unfolding upsert_group save_locked get_group
get_group-upsert_group env g s fresh e =
    let kept : Group = record g { name = trim_space g.name } in
    let held = find-groups_with env kept s fresh in ground (arith, held)

-- A group that the page makes is the one that its own page then shows: where the answer to POST is a
-- group, GET of this group's id shows it. The id that is drawn is no group's.
pub handle_entry-handle_table :
    (env env' : Env) (given kept : Group) (s s' : Store) (body : Result Group)
    → get_group s (new_id env) ≡ none
    → handle_table groups env post (ok given) s ≡ (s', saved kept)
    → handle_entry groups env' get kept.id body s' ≡ (s', shown kept)
unfolding handle_table save_entry handle_entry
handle_entry-handle_table env env' given kept s s' body fresh e =
    let g : Group = record given { id = "" } in
    elim (Option-cases (upsert_group env g s).2) [
      | inr (x, refused) ↦ absurd (ground arith)
      | inl fine ↦
          let held = get_group-upsert_group env g s (λ _. fresh) fine in
          let left : (upsert_group env g s).0 ≡ s' = ground arith in
          let same : (upsert_group env g s).1 ≡ kept = ground arith in
          let found : get_group s' kept.id ≡ some kept = cc (held, left, same) in
          simp (found, handle_entry) refl
    ]
