-- ===== src/Utils/Pods/Laws.antt =====
-- What updatePodImages leaves behind.
use backup_restore_openstack.Prelude.{String, eq_iff, ◌≡◌, ◌↔◌, refl, false, List, [], ◌∷◌, arith}
use backup_restore_openstack.Types.Kube.{Container, Pod}
use backup_restore_openstack.Utils.Lists.{length}
use backup_restore_openstack.Utils.Pods.{update_images, update_pod_images}

abbrev pub images : List Container → List String
images [] = []
images (c ∷ cs) = c.image ∷ images cs

images-update_images :
    (ws es : List Container) → length ws ≡ length es → images (update_images ws es).0 ≡ images ws
unfolding update_images
images-update_images [] [] h = refl
images-update_images [] (e ∷ es) h = absurd (omega arith)
images-update_images (w ∷ ws) [] h = absurd (omega arith)
images-update_images (w ∷ ws) (e ∷ es) h =
    ground (arith, images-update_images ws es (omega arith), eq_iff w.image e.image)

unchanged-update_images :
    (ws es : List Container)
    → length ws ≡ length es
    → ((update_images ws es).1 ≡ false) ↔ (images es ≡ images ws)
unfolding update_images
unchanged-update_images [] [] h = ground arith
unchanged-update_images [] (e ∷ es) h = absurd (omega arith)
unchanged-update_images (w ∷ ws) [] h = absurd (omega arith)
unchanged-update_images (w ∷ ws) (e ∷ es) h =
    ground (arith, unchanged-update_images ws es (omega arith), eq_iff w.image e.image)

-- If the pods have equally many containers, the existing pod has the wanted images afterwards, and the
-- result is false exactly if it had them before.
pub images-update_pod_images :
    (wanted existing : Pod)
    → length wanted.spec.containers ≡ length existing.spec.containers
    → (images (update_pod_images wanted existing).0.spec.containers ≡ images wanted.spec.containers)
      × (((update_pod_images wanted existing).1 ≡ false)
          ↔ (images existing.spec.containers ≡ images wanted.spec.containers))
unfolding update_pod_images
images-update_pod_images wanted existing h = ground (
  arith,
  images-update_images wanted.spec.containers existing.spec.containers h,
  unchanged-update_images wanted.spec.containers existing.spec.containers h,
)
