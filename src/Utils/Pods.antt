-- ===== src/Utils/Pods.antt =====
-- internal/controller/utils_pods.go: the pods of a list by phase, and the update of a pod's images.
-- slices.SortFunc leaves the order of equal elements open; the sort here keeps it.
pub mod Laws
pub mod OrderLaws
pub mod PartLaws
use backup_restore_openstack.Prelude.{
  ℕ, ◌+◌, String, ◌==◌, Bool, true, false, not, ◌||◌, List, [], ◌∷◌, nat_eq, leb, if◌then◌else◌,
}
use backup_restore_openstack.Types.Kube.{
  PodPhase, pod_pending, pod_running, pod_succeeded, pod_failed, pod_unknown, pod_phase_other,
  Container, Pod,
}
use backup_restore_openstack.Utils.Lists.{length}
use backup_restore_openstack.Utils.Const.{second}
use Prim.Native.Nat.{◌/◌}

pub record SeparatedPods : Type 0 where
  pub running : List Pod
  pub succeeded : List Pod
  pub failed : List Pod

-- CreationTimestamp.Unix()
abbrev pub unix : Pod → ℕ
unix p = p.meta.creation_timestamp / second

unfoldable pub insert_pod : Pod → List Pod → List Pod
insert_pod p [] = p ∷ []
insert_pod p (q ∷ ps) = if leb (unix p) (unix q) then p ∷ q ∷ ps else q ∷ insert_pod p ps

unfoldable pub sort_pods : List Pod → List Pod
unfolding insert_pod
sort_pods [] = []
sort_pods (p ∷ ps) = insert_pod p (sort_pods ps)

-- the body of the loop, on a pod in front of those that the rest of the loop separates
unfoldable pub place_pod : PodPhase → Pod → SeparatedPods → SeparatedPods
place_pod pod_running p r = record r { running = p ∷ r.running }
place_pod pod_pending p r = record r { running = p ∷ r.running }
place_pod pod_unknown p r = record r { running = p ∷ r.running }
place_pod pod_succeeded p r = record r { succeeded = p ∷ r.succeeded }
place_pod pod_failed p r = record r { failed = p ∷ r.failed }
place_pod pod_phase_other p r = r

unfoldable pub separate : List Pod → SeparatedPods
unfolding place_pod
separate [] = record { running = []; succeeded = []; failed = [] }
separate (p ∷ ps) = place_pod p.status.phase p (separate ps)

unfoldable pub separate_pods : List Pod → SeparatedPods
unfolding separate sort_pods
separate_pods items = separate (sort_pods items)

-- the loop of updatePodImages over two lists of one length: the containers and needsUpdating
unfoldable pub update_images : List Container → List Container → List Container × Bool
update_images [] existing = (existing, false)
update_images (w ∷ ws) [] = ([], false)
update_images (w ∷ ws) (e ∷ es) =
    let (rest, changed) = update_images ws es in
    if w.image == e.image then (e ∷ rest, changed) else (record e { image = w.image } ∷ rest, true)

abbrev with_containers : Pod → List Container × Bool → Pod × Bool
with_containers p (containers, changed) =
    (record p { spec = record p.spec { containers = containers } }, changed)

-- the existing pod after the call, and needsUpdating
unfoldable pub update_pod_images : Pod → Pod → Pod × Bool
unfolding update_images
update_pod_images wanted existing =
    if nat_eq (length wanted.spec.containers) (length existing.spec.containers)
    then with_containers existing (update_images wanted.spec.containers existing.spec.containers)
    else (existing, false)
