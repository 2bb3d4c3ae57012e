-- ===== src/Config/Store/Requests/Steps.antt =====
-- internal/config/store.go: the operations, and the file on disk.
use wakehub.Base.{String, Option, none, some, ◌≡◌, ◌⊎◌, arith}
use wakehub.Config.Password.{Bcrypt}
use wakehub.Config.Store.{Store, Env, encode, upsert_device, delete_device, save_locked}
use wakehub.Config.Store.Groups.{upsert_group, delete_group}
use wakehub.Config.Store.Schedules.{upsert_schedule, mark_schedule_run, delete_schedule}
use wakehub.Config.Store.Globals.{update_settings, ensure_client_token}
use wakehub.Config.Store.Requests.{
  Request, put_device, drop_device, put_group, drop_group, put_schedule, mark_run, drop_schedule,
  change_settings, ensure_token, save, serve,
}

-- The file on disk is the one from before, or all of what the store holds now; where an operation
-- reports no error and changed anything, it is the latter.
pub record IsAtomic (s s' : Store) (e : Option String) : Type 0 where
  pub whole : (s'.disk ≡ s.disk) ⊎ (s'.disk ≡ some (encode s'.file))
  pub durable : e ≡ none → (s' ≡ s) ⊎ (s'.disk ≡ some (encode s'.file))

save_locked-IsAtomic :
    (env : Env) (s t : Store)
    → t.disk ≡ s.disk
    → IsAtomic s (save_locked env t).0 (save_locked env t).1
unfolding save_locked
save_locked-IsAtomic env s t h = ground arith

-- No operation leaves a part of its change on disk, whichever write fails; and the change of one
-- that reports no error is on disk.
pub serve-IsAtomic :
    (crypt : Bcrypt) (env : Env) (r : Request) (s : Store)
    → IsAtomic s (serve crypt env r s).0 (serve crypt env r s).1
unfolding serve upsert_device delete_device upsert_group delete_group upsert_schedule
    mark_schedule_run delete_schedule update_settings ensure_client_token save_locked
serve-IsAtomic crypt env (put_device d) s = ground arith
serve-IsAtomic crypt env (drop_device id) s = ground arith
serve-IsAtomic crypt env (put_group g) s = ground arith
serve-IsAtomic crypt env (drop_group id) s = ground arith
serve-IsAtomic crypt env (put_schedule sc) s = ground arith
serve-IsAtomic crypt env (mark_run id day) s = ground arith
serve-IsAtomic crypt env (drop_schedule id) s = ground arith
serve-IsAtomic crypt env (change_settings change) s = ground arith
serve-IsAtomic crypt env ensure_token s = ground arith
serve-IsAtomic crypt env save s = ground arith
