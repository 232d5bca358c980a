-- ===== src/System/Shoot.antt =====
-- utils.go and pvc_controller.go: what the controllers read in the shoot, and the stored count.
use backup_restore_openstack.Prelude.{ℕ, String, Option, none, some, List, [], ◌∷◌}
use backup_restore_openstack.Prelude.Int.{ℤ}
use backup_restore_openstack.Types.Meta.{NamespacedName}
use backup_restore_openstack.Types.Restore.{PersistentVolumeClaim}
use backup_restore_openstack.Effects.{Request, list_pvcs, Env, M}
use backup_restore_openstack.Effects.Triple.{Triple, Triple-panic, Triple-then, Triple-check}
use backup_restore_openstack.Utils.Kubeconfig.{
  get_secret_shoot_integrated_kubeconfig_key, get_secret_shoot_integrated_kubeconfig,
}
use backup_restore_openstack.Utils.Shoot.{deref, get_namespace, details, get_pvc}
use backup_restore_openstack.Utils.VolumeSnapshots.{
  get_pv_snapshot_list_per_namespace, get_volume_snapshot_in_shoot,
}
use backup_restore_openstack.System.Frame
use backup_restore_openstack.System.Frame.{frames}

module _ (env : Env) (key : NamespacedName) (first : ℤ) (n : ℤ) (m : ℕ) where
  abbrev Same : List Request → Type 0
  Same = Frame.Same env key first n m

  abbrev Keeps : {A : Type 0} → M A → Type 0
  Keeps a = Triple env Same Same a (λ _. Same)

  pub key-Keeps : (ns : String) → Keeps (get_secret_shoot_integrated_kubeconfig_key ns)
  unfolding get_secret_shoot_integrated_kubeconfig_key
  key-Keeps ns = search frames depth 12

  pub kubeconfig-Keeps : (ns : String) → Keeps (get_secret_shoot_integrated_kubeconfig ns)
  unfolding get_secret_shoot_integrated_kubeconfig
  kubeconfig-Keeps ns = search frames depth 16

  pub deref-Keeps :
      {A : Type 0} (q : Option String) (go : String → M A)
      → ((s : String) → Keeps (go s))
      → Keeps (deref q go)
  deref-Keeps none go h = Triple-panic (λ t s. s)
  deref-Keeps (some s) go h = h s

  pub namespaces-Keeps : Keeps get_namespace
  unfolding get_namespace
  namespaces-Keeps = search frames depth 9

  pub details-Keeps : (items : List PersistentVolumeClaim) → Keeps (details items)
  unfolding details
  details-Keeps [] = search frames depth 6
  details-Keeps (i ∷ items) =
      let rest = details-Keeps items in search (frames, deref-Keeps, rest) depth 9

  pub pvcs-Keeps : (ns : List String) → Keeps (get_pvc ns)
  unfolding get_pvc
  pvcs-Keeps [] = search frames depth 6
  pvcs-Keeps (name ∷ ns) =
      Triple-then _ _ (Frame.call-Keeps env key first n m (list_pvcs name) tt) (λ listed.
        Triple-check listed _ _ (λ e h. pvcs-Keeps ns)
          (λ items h. Triple-then _ _ (details-Keeps items) (λ found.
            Triple-then _ _ (pvcs-Keeps ns) (λ more. Frame.pure-Keeps env key first n m _))))

  pub volume_snapshots-Keeps : (ns : String) → Keeps (get_volume_snapshot_in_shoot ns)
  unfolding get_volume_snapshot_in_shoot
  volume_snapshots-Keeps ns = search frames depth 12

  pub listing-Keeps : (ns : String) → Keeps (get_pv_snapshot_list_per_namespace ns)
  unfolding get_pv_snapshot_list_per_namespace
  listing-Keeps ns = search (frames, volume_snapshots-Keeps) depth 9

pub ruleset shoot_frames = (
  frames, key-Keeps, kubeconfig-Keeps, deref-Keeps, namespaces-Keeps, pvcs-Keeps,
  volume_snapshots-Keeps, listing-Keeps,
)
