-- ===== src/Tests/RestoreRuns.antt =====
-- The theorems about restores on the small cluster.
use backup_restore_openstack.Prelude.{refl, inl, [], ◌∷◌}
use backup_restore_openstack.Effects.Trace.{Issues}
use backup_restore_openstack.Restores.Restore.{reconcile_restore_pvc}
use backup_restore_openstack.Restores.Reconcile.{finalize}
use backup_restore_openstack.Restores.ClaimLaws.{
  Claims, reconcile_restore_pvc-Claims, IsQuiet, reconcile_restore_pvc-IsQuiet,
}
use backup_restore_openstack.Restores.CountLaws.{IsCounted, reconcile_restore_pvc-IsCounted}
use backup_restore_openstack.Restores.UseLaws.{IsReleased, finalize-IsReleased}
use backup_restore_openstack.Tests.Sample.{env, restore, restored_claim}

reconcile_restore_pvc-Claims_example : Issues (Claims restore) (reconcile_restore_pvc restore)
reconcile_restore_pvc-Claims_example = reconcile_restore_pvc-Claims restore refl

reconcile_restore_pvc-IsCounted_example : IsCounted env (reconcile_restore_pvc restore env []).1
reconcile_restore_pvc-IsCounted_example = reconcile_restore_pvc-IsCounted env restore

reconcile_restore_pvc-IsQuiet_example : IsQuiet (reconcile_restore_pvc restore env []).1
reconcile_restore_pvc-IsQuiet_example =
    reconcile_restore_pvc-IsQuiet env restore (restored_claim ∷ []) (λ t. refl) (inl (refl, refl))

finalize-IsReleased_example : IsReleased env restore (finalize restore env []).1
finalize-IsReleased_example = finalize-IsReleased env restore
