-- ===== src/Command/Main.antt =====
-- cmd/main.go, init and main, and the SetupWithManager of each controller.
use backup_restore_openstack.Prelude.{String, Option, none, some, List, [], ◌∷◌}
use backup_restore_openstack.Types.Meta.{Error}
use backup_restore_openstack.Effects.{Kind}
use backup_restore_openstack.Command.{
  Step, add_to_scheme, get_config, new_manager, complete, add_healthz_check, add_readyz_check,
  start, log_error, Exit, exited, panicked, Program,
}
use backup_restore_openstack.Command.Options.{
  Argument, Parsed, parsed, ended, default_flags, parse_flags, manager_options,
}

abbrev pub end_on : Option Error → (Error → Exit × List Step) → Exit × List Step → Exit × List Step
end_on none fail go = go
end_on (some e) fail go = fail e

-- utilruntime.Must
unfoldable pub must : Step → Program → Program
must q go w t = end_on (w t q) (λ e. (panicked, q ∷ t)) (go w (q ∷ t))

-- `if err := …; err != nil { setupLog.Error(…); os.Exit(1) }`
unfoldable pub or_exit : Step → String → Option String → Program → Program
or_exit q message controller go w t =
    end_on (w t q) (λ e. (exited 1, log_error e message controller ∷ q ∷ t)) (go w (q ∷ t))

-- ctrl.GetConfigOrDie(), which logs an error of its own
unfoldable pub or_die : Step → Program → Program
or_die q go w t = end_on (w t q) (λ e. (exited 1, q ∷ t)) (go w (q ∷ t))

pub data Controller : Type 0 where
  pv_snapshot_reconciler pvc_reconciler restore_pvc_reconciler create_snapshot_reconciler
        scheduler_snapshot_reconciler sync_snapshot_reconciler create_kube_snapshot_reconciler :
      Controller

-- the kind that the SetupWithManager of each controller gives to For
abbrev for_pv_snapshot : Kind
for_pv_snapshot = Kind.pv_snapshot

abbrev for_pvc : Kind
for_pvc = Kind.pvc

abbrev for_restore_pvc : Kind
for_restore_pvc = Kind.restore_pvc

abbrev for_snapshot : Kind
for_snapshot = Kind.snapshot

abbrev for_scheduler_snapshot : Kind
for_scheduler_snapshot = Kind.scheduler_snapshot

abbrev for_sync_snapshot : Kind
for_sync_snapshot = Kind.sync_snapshot

abbrev for_create_kube_snapshot : Kind
for_create_kube_snapshot = Kind.create_kube_snapshot

unfoldable pub watched : Controller → Kind
watched pv_snapshot_reconciler = for_pv_snapshot
watched pvc_reconciler = for_pvc
watched restore_pvc_reconciler = for_restore_pvc
watched create_snapshot_reconciler = for_snapshot
watched scheduler_snapshot_reconciler = for_scheduler_snapshot
watched sync_snapshot_reconciler = for_sync_snapshot
watched create_kube_snapshot_reconciler = for_create_kube_snapshot

abbrev name_of : Controller → String
name_of pv_snapshot_reconciler = "PvSnapshot"
name_of pvc_reconciler = "Pvc"
name_of restore_pvc_reconciler = "RestorePvc"
name_of create_snapshot_reconciler = "CreateSnapshot"
name_of scheduler_snapshot_reconciler = "SchedulerSnapshot"
name_of sync_snapshot_reconciler = "SyncSnapshot"
name_of create_kube_snapshot_reconciler = "CreateKubeSnapshot"

-- the blocks of main that create a controller, one after another
unfoldable pub create_controllers : List Controller → Program → Program
unfolding watched
create_controllers [] go = go
create_controllers (c ∷ cs) go =
    or_exit (complete (watched c)) "unable to create controller" (some (name_of c))
      (create_controllers cs go)

abbrev pub controllers : List Controller
controllers =
    pv_snapshot_reconciler ∷ pvc_reconciler ∷ restore_pvc_reconciler ∷ create_snapshot_reconciler
    ∷ scheduler_snapshot_reconciler ∷ sync_snapshot_reconciler ∷ create_kube_snapshot_reconciler
    ∷ []

unfoldable pub finish : Program
finish w t = (exited 0, t)

-- the checks and the manager
unfoldable pub serve : Program
unfolding finish
serve = or_exit (add_healthz_check "healthz") "unable to set up health check" none (
    or_exit (add_readyz_check "readyz") "unable to set up ready check" none
      (or_exit start "problem running manager" none finish))

-- init, before main
unfoldable pub init : Program → Program
init go = must (add_to_scheme "client-go") (must (add_to_scheme "snapshot.mfke.io/v1beta1") go)

-- main after flag.Parse()
unfoldable pub run_with : Parsed → Program
unfolding serve
run_with (ended code) w t = (exited code, t)
run_with (parsed flags) w t =
    or_die get_config
      (or_exit (new_manager (manager_options flags)) "unable to start manager" none
        (create_controllers controllers serve))
      w t

unfoldable pub main : List Argument → Program
unfolding init run_with
main arguments = init (run_with (parse_flags default_flags arguments))
