-- ===== src/Tests/TotalRuns.antt =====
-- Rounds that return, on a server with a restore and a scheduler.
use backup_restore_openstack.Prelude.{◌+◌, ◌≡◌, ◌≢◌, refl, none, some, List, [], ◌∷◌, arith}
use backup_restore_openstack.Types.Meta.{NamespacedName, ObjectMeta, new_meta}
use backup_restore_openstack.Types.Scheduler.{SchedulerSnapshot}
use backup_restore_openstack.Effects.{Kind, Request, Reply, ok, Env, Reconciled, done}
use backup_restore_openstack.Utils.Strings.{slice_from}
use backup_restore_openstack.Command.Main.{Controller}
use backup_restore_openstack.KubeSnapshot.Reconcile as KubeReconcile
use backup_restore_openstack.System.{reconcile}
use backup_restore_openstack.System.Total.{HasCluster}
use backup_restore_openstack.Effects.Trace.{All}
use backup_restore_openstack.System.Total.Restore.{Fits}
use backup_restore_openstack.System.Total.Scheduler.{IsRunnable}
use backup_restore_openstack.System.Total.Laws.{IsSound, rounds-Return}
use backup_restore_openstack.Tests.Sample.{env, answer, restore, restored_claim, scheduler}

abbrev daily : SchedulerSnapshot
daily = record (scheduler "@tick") {
  meta = record (new_meta "daily" "fke-shoot") {
    finalizers = "snapshotv1beta1.mfke.io/snapshot" ∷ [];
  };
}

abbrev sound_answer : List Request → (q : Request) → Reply q
sound_answer t (Request.get Kind.restore_pvc n) = ok restore
sound_answer t (Request.get Kind.scheduler_snapshot n) = ok daily
sound_answer t (Request.update_status Kind.scheduler_snapshot o) = ok daily
sound_answer t (Request.list_pvcs n) =
    ok (record restored_claim { storage_class_name = some "ssd" } ∷ [])
sound_answer t q = answer t q

abbrev sound_env : Env
sound_env = record env { answer = sound_answer }

shoot-HasCluster : (m : ObjectMeta) → m.namespace ≡ "fke-shoot" → HasCluster m
unfolding slice_from
shoot-HasCluster m h = rw h (λ k. cc)

daily-IsRunnable : IsRunnable sound_env daily
daily-IsRunnable =
    (shoot-HasCluster daily.meta refl, (((λ _ u. u + 10), "UTC", refl, refl, λ u. omega arith), tt))

same_of : {A : Type 0} (a b : A) → ok a ≡ ok b → b ≡ a
same_of a b h = cc

keeps : {A : Type 0} (P : A → Type 0) (a b : A) → ok a ≡ ok b → P a → P b
keeps P a b h p = rw (same_of a b h) p

sound_env-IsSound : IsSound sound_env
sound_env-IsSound = record {
  restores =
      λ t n r h. keeps (Fits sound_env) restore r h (shoot-HasCluster restore.meta refl, λ k. cc);
  syncs = λ t n o h. cc;
  pvcs = λ t n o h. cc;
  pv_snapshots = λ t n o h. cc;
  schedulers = λ t n o h. keeps (IsRunnable sound_env) daily o h daily-IsRunnable;
  written_schedulers = λ t o p h. keeps (IsRunnable sound_env) daily p h daily-IsRunnable;
  namespaces = λ t e h. cc;
  volume_snapshots = λ t ns e h. cc;
  classes =
      λ t ns items h. keeps (All (λ i. i.storage_class_name ≢ none)) _ items h ((λ k. cc), tt);
}

abbrev key : NamespacedName
key = record { namespace = "fke-shoot"; name = "daily" }

rounds-Return_example :
    (r : Reconciled) × ((reconcile Controller.scheduler_snapshot_reconciler key sound_env []).0
      ≡ done r)
rounds-Return_example =
    rounds-Return sound_env sound_env-IsSound Controller.scheduler_snapshot_reconciler key []
