-- ===== src/Tests/SchedulerRuns.antt =====
-- The theorems about schedulers on the small cluster.
use backup_restore_openstack.Prelude.{◌≡◌, ◌↔◌, ◌*◌, refl, inl, true, some, List, [], ◌∷◌, arith}
use backup_restore_openstack.Prelude.Int.{pos, ◌<ℤ◌}
use backup_restore_openstack.Types.Snapshot.{Snapshot}
use backup_restore_openstack.Types.Scheduler.{SnapshotRetentionPolicy}
use backup_restore_openstack.Effects.{Kind, delete}
use backup_restore_openstack.Effects.Trace.{Issues}
use backup_restore_openstack.Utils.Const.{hour}
use backup_restore_openstack.Restores.ClaimLaws.{Any}
use backup_restore_openstack.Schedulers.Objects.{
  unit_duration, get_default_requeue_after, compare_backup_targets, deleted_snapshot,
}
use backup_restore_openstack.Schedulers.Retention.{limit_of, expire_aged, expire_snapshots}
use backup_restore_openstack.Schedulers.RetentionLaws.{
  Deletes, expire_snapshots-Deletes, limit-exact, limit-overflows,
}
use backup_restore_openstack.Schedulers.Rounds.{pvc_phase}
use backup_restore_openstack.Schedulers.CreationLaws.{Creates, pvc_phase-Creates}
use backup_restore_openstack.Schedulers.InvalidLaws.{IsStopped, pvc_phase-IsStopped}
use backup_restore_openstack.Schedulers.Reconcile.{pick_requeue}
use backup_restore_openstack.Schedulers.RoundLaws.{IsLeast, pick_requeue-IsLeast}
use backup_restore_openstack.Schedulers.TargetView.{view, compare_backup_targets-view}
use backup_restore_openstack.Tests.Sample.{
  env, snapshot, unused_snapshot, kube_snapshot, scheduler, data_class, data_detail, policy,
}

abbrev listed : List Snapshot
listed = snapshot ∷ unused_snapshot ∷ []

expire_snapshots-Deletes_example :
    Deletes env (pos 1) data_class listed (expire_snapshots (pos 1) data_class listed env []).1
expire_snapshots-Deletes_example = expire_snapshots-Deletes env (pos 1) data_class listed

abbrev century : SnapshotRetentionPolicy
century = policy "days" 106752

limit-overflows_example :
    (limit_of century (24 * hour) <ℤ pos 0)
    × ((expire_aged (limit_of century (24 * hour)) unused_snapshot (pos 5) env []).1
        ≡ delete Kind.snapshot (
            deleted_snapshot unused_snapshot.meta.name unused_snapshot.meta.namespace
              unused_snapshot.spec.pvc_name unused_snapshot.spec.namespace)
          ∷ [])
limit-overflows_example =
    limit-overflows env [] century 106752 (24 * hour) (pos 5) unused_snapshot refl (omega arith)
      (omega arith) (omega arith) (omega arith)

pvc_phase-Creates_example :
    Issues
      (Creates (scheduler "@tick") (data_detail ∷ []) (data_class ∷ []))
      (pvc_phase (scheduler "@tick") 20 (data_detail ∷ []) (data_class ∷ []))
pvc_phase-Creates_example =
    pvc_phase-Creates (scheduler "@tick") 20 (data_detail ∷ []) (data_class ∷ [])

pick_requeue-IsLeast_example :
    IsLeast (pick_requeue (pos 7 ∷ pos 3 ∷ [])) (pos 7 ∷ pos 3 ∷ [])
    × Any (λ e. pick_requeue (pos 7 ∷ pos 3 ∷ []) ≡ e) (pos 7 ∷ pos 3 ∷ [])
pick_requeue-IsLeast_example = pick_requeue-IsLeast (pos 7) (pos 3 ∷ [])

limit-exact_example :
    (limit_of (policy "days" 3) (24 * hour) ≡ pos (3 * (24 * hour)))
    × (get_default_requeue_after (pos 3) "days" ≡ pos (3 * (24 * hour)))
unfolding unit_duration
limit-exact_example = limit-exact (policy "days" 3) 3 (24 * hour) refl refl (omega arith)

pvc_phase-IsStopped_example :
    IsStopped (pvc_phase (scheduler "never") 20 (data_detail ∷ []) (data_class ∷ []) env []).0
pvc_phase-IsStopped_example =
    pvc_phase-IsStopped env (scheduler "never") 20 (data_detail ∷ []) data_class [] []
      (inl (inl tt))

compare_backup_targets-view_example :
    ((compare_backup_targets kube_snapshot.spec.backup_targets
        (record kube_snapshot.spec.backup_targets {
          include_namespaces = some ("web" ∷ "apps" ∷ []);
        })).0
      ≡ true)
    ↔ (view kube_snapshot.spec.backup_targets
        ≡ view (record kube_snapshot.spec.backup_targets {
          include_namespaces = some ("web" ∷ "apps" ∷ []);
        }))
compare_backup_targets-view_example =
    compare_backup_targets-view kube_snapshot.spec.backup_targets
      (record kube_snapshot.spec.backup_targets { include_namespaces = some ("web" ∷ "apps" ∷ []) })
