-- ===== src/Tests/SyncRuns.antt =====
-- The theorems about the SyncSnapshot and the Pvc controller on the small cluster.
use backup_restore_openstack.Prelude.{[], ◌∷◌}
use backup_restore_openstack.Types.Meta.{new_meta}
use backup_restore_openstack.Types.Lists.{Pvc, SyncSnapshot}
use backup_restore_openstack.Effects.Trace.{Issues}
use backup_restore_openstack.Syncs.Reconcile.{reconcile_live}
use backup_restore_openstack.Syncs.MarkLaws.{IsSyncRequest, reconcile_live-IsSyncRequest}
use backup_restore_openstack.Listings.PvcList.{write_list}
use backup_restore_openstack.Listings.ListLaws.{IsNew, write_list-IsNew}
use backup_restore_openstack.Tests.Sample.{data_detail}

abbrev sync : SyncSnapshot
sync = record {
  meta = new_meta "sync" "fke-shoot";
  status = record { conditions = []; missing_snapshot = []; extra_snapshot = [] };
}

abbrev listing : Pvc
listing = record {
  meta = new_meta "pvcs" "fke-shoot";
  status = record { conditions = []; pvc_list = [] };
}

reconcile_live-IsSyncRequest_example : Issues IsSyncRequest (reconcile_live sync)
reconcile_live-IsSyncRequest_example = reconcile_live-IsSyncRequest sync

write_list-IsNew_example :
    Issues (IsNew listing (data_detail ∷ [])) (write_list listing (data_detail ∷ []))
write_list-IsNew_example = write_list-IsNew listing (data_detail ∷ [])
