-- ===== src/System/Total/Shoot.antt =====
-- utils.go: when the helpers return.
use backup_restore_openstack.Prelude.{String, ◌≡◌, ◌≢◌, none, List, [], ◌∷◌, arith}
use backup_restore_openstack.Types.Meta.{Error}
use backup_restore_openstack.Types.Snapshot.{PvSnapshotItem}
use backup_restore_openstack.Utils.Const.{volume_snapshot}
use backup_restore_openstack.Types.Restore.{PersistentVolumeClaim}
use backup_restore_openstack.Effects.{
  Request, list_namespaces, list_pvcs, dynamic_list, ok, err, M, check, call, ◌>>=◌, Env,
}
use backup_restore_openstack.Effects.Trace.{All}
use backup_restore_openstack.Effects.Triple.{
  Triple, Triple-bind, Triple-then, Triple-call, Triple-check,
}
use backup_restore_openstack.Utils.Shoot.{get_namespace, details, get_pvc}
use backup_restore_openstack.Utils.Kubeconfig.{
  get_secret_shoot_integrated_kubeconfig_key, get_secret_shoot_integrated_kubeconfig,
}
use backup_restore_openstack.Utils.VolumeSnapshots.{
  get_pv_snapshot_list_per_namespace, get_volume_snapshot_in_shoot,
}
use backup_restore_openstack.System.Total.{
  Never, Always, IsTotal, pure-IsTotal, deref-IsTotal, totals,
}

module _ (env : Env) where
  pub key-IsTotal : (ns : String) → IsTotal env (get_secret_shoot_integrated_kubeconfig_key ns)
  unfolding get_secret_shoot_integrated_kubeconfig_key
  key-IsTotal ns = search totals depth 12

  pub kubeconfig-IsTotal : (ns : String) → IsTotal env (get_secret_shoot_integrated_kubeconfig ns)
  unfolding get_secret_shoot_integrated_kubeconfig
  kubeconfig-IsTotal ns = search totals depth 16

  pub volume_snapshots-IsTotal : (ns : String) → IsTotal env (get_volume_snapshot_in_shoot ns)
  unfolding get_volume_snapshot_in_shoot
  volume_snapshots-IsTotal ns = search totals depth 12

  pub listing-IsTotal : (ns : String) → IsTotal env (get_pv_snapshot_list_per_namespace ns)
  unfolding get_pv_snapshot_list_per_namespace
  listing-IsTotal ns = search (totals, volume_snapshots-IsTotal) depth 9

  -- the VolumeSnapshots of a shoot can be listed
  abbrev pub AreFound : Type 0
  AreFound =
      (t : List Request) (ns : String) (e : Error)
      → env.answer t (dynamic_list volume_snapshot ns) ≢ err e

  -- then their listing is one to go on with
  pub listed-IsTotal :
      AreFound
      → (ns : String)
      → Triple env
          (Never env)
          (Always env)
          (get_pv_snapshot_list_per_namespace ns)
          (λ listed _. (e : Error) → listed ≢ err e)
  unfolding get_pv_snapshot_list_per_namespace get_volume_snapshot_in_shoot ◌>>=◌
  listed-IsTotal h ns = record { at = λ t s. ground (arith, h t ns) }

  pub on_found-IsTotal :
      {B : Type 0} (ns : String) (fail : Error → M B) (go : List PvSnapshotItem → M B)
      → AreFound
      → ((items : List PvSnapshotItem) → IsTotal env (go items))
      → IsTotal env (do listed ← get_pv_snapshot_list_per_namespace ns; check listed fail go)
  on_found-IsTotal ns fail go h g =
      Triple-bind {Q = λ listed _. (e : Error) → listed ≢ err e}
        (get_pv_snapshot_list_per_namespace ns) _ (listed-IsTotal h ns)
        (λ listed.
          Triple-check listed _ _ (λ e k. record { at = λ t f. absurd (f e k) })
            (λ items k. record { at = λ t f. (g items).at t tt }))

  -- the namespaces of a shoot can be listed
  abbrev pub AreListed : Type 0
  AreListed = (t : List Request) (e : Error) → env.answer t list_namespaces ≢ err e

  pub namespaces-IsTotal : AreListed → IsTotal env get_namespace
  unfolding get_namespace
  namespaces-IsTotal h =
      Triple-bind {Q = λ listed _. (e : Error) → listed ≢ err e} (call list_namespaces) _
        (Triple-call list_namespaces (λ t s. h t))
        (λ listed.
          Triple-check listed _ _ (λ e k. record { at = λ t f. absurd (f e k) })
            (λ names k. record { at = λ t f. (pure-IsTotal env names).at t tt }))

  -- every PVC that is listed has a storage class
  abbrev HaveClass : List PersistentVolumeClaim → Type 0
  HaveClass items = All (λ i. i.storage_class_name ≢ none) items

  abbrev pub AreClassed : Type 0
  AreClassed =
      (t : List Request) (ns : String) (items : List PersistentVolumeClaim)
      → env.answer t (list_pvcs ns) ≡ ok items
      → HaveClass items

  details-IsTotal :
      (items : List PersistentVolumeClaim) → HaveClass items → IsTotal env (details items)
  unfolding details
  details-IsTotal [] h = search totals depth 6
  details-IsTotal (i ∷ items) (h, hs) =
      let rest = details-IsTotal items hs in search (totals, deref-IsTotal, rest) depth 9

  pub pvcs-IsTotal : AreClassed → (ns : List String) → IsTotal env (get_pvc ns)
  unfolding get_pvc
  pvcs-IsTotal h [] = search totals depth 6
  pvcs-IsTotal h (name ∷ ns) =
      Triple-bind
        {Q = λ listed _. (items : List PersistentVolumeClaim) → listed ≡ ok items → HaveClass items}
        (call (list_pvcs name)) _ (Triple-call (list_pvcs name) (λ t s. h t name))
        (λ listed.
          Triple-check listed _ _ (λ e k. record { at = λ t f. (pvcs-IsTotal h ns).at t tt })
            (λ items k. record {
              at = λ t f.
                  (Triple-then _ _ (details-IsTotal items (f items k)) (λ found.
                      Triple-then _ _ (pvcs-IsTotal h ns) (λ more. pure-IsTotal env _))).at
                    t tt;
            }))

pub ruleset shoot_totals =
    (totals, key-IsTotal, kubeconfig-IsTotal, volume_snapshots-IsTotal, listing-IsTotal)
