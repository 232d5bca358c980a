-- ===== src/Utils/Pods/PartLaws.antt =====
-- The pods in the lists of separatePods.
use backup_restore_openstack.Prelude.{
  ℕ, ◌+◌, ◌≡◌, ◌∙◌, refl, Bool, true, false, ◌&&◌, List, [], ◌∷◌, if◌then◌else◌, arith,
}
use backup_restore_openstack.Types.Kube.{
  PodPhase, pod_pending, pod_running, pod_succeeded, pod_failed, pod_unknown, pod_phase_other, Pod,
}
use backup_restore_openstack.Utils.Pods.{
  SeparatedPods, insert_pod, sort_pods, place_pod, separate, separate_pods,
}

abbrev pub count : (Pod → Bool) → List Pod → ℕ
count f [] = 0
count f (p ∷ ps) = let rest = count f ps in if f p then rest + 1 else rest

abbrev pub runs : PodPhase → Bool
runs pod_running = true
runs pod_pending = true
runs pod_unknown = true
runs _ = false

abbrev pub has_succeeded : PodPhase → Bool
has_succeeded pod_succeeded = true
has_succeeded _ = false

abbrev pub has_failed : PodPhase → Bool
has_failed pod_failed = true
has_failed _ = false

-- Of the pods that pass the test, the lists hold as many as there are in that phase.
abbrev pub Splits : (Pod → Bool) → List Pod → SeparatedPods → Type 0
Splits f items r =
    (count f r.running ≡ count (λ p. f p && runs p.status.phase) items)
    × ((count f r.succeeded ≡ count (λ p. f p && has_succeeded p.status.phase) items)
        × (count f r.failed ≡ count (λ p. f p && has_failed p.status.phase) items))

count-insert_pod :
    (f : Pod → Bool) (p : Pod) (ps : List Pod) → count f (insert_pod p ps) ≡ count f (p ∷ ps)
unfolding insert_pod
count-insert_pod f p [] = refl
count-insert_pod f p (q ∷ ps) = ground (arith, count-insert_pod f p ps)

count-sort_pods : (f : Pod → Bool) (ps : List Pod) → count f (sort_pods ps) ≡ count f ps
unfolding sort_pods
count-sort_pods f [] = refl
count-sort_pods f (p ∷ ps) =
    ground (arith, count-insert_pod f p (sort_pods ps), count-sort_pods f ps)

place_pod-Splits :
    (f : Pod → Bool) (p : Pod) (ps : List Pod) (r : SeparatedPods)
    → Splits f ps r
    → Splits f (p ∷ ps) (place_pod p.status.phase p r)
unfolding place_pod
place_pod-Splits f p ps r h = elim p.status.phase [
  | pod_running ↦ ground (arith, h)
  | pod_pending ↦ ground (arith, h)
  | pod_unknown ↦ ground (arith, h)
  | pod_succeeded ↦ ground (arith, h)
  | pod_failed ↦ ground (arith, h)
  | pod_phase_other ↦ ground (arith, h)
]

separate-Splits : (f : Pod → Bool) (ps : List Pod) → Splits f ps (separate ps)
unfolding separate
separate-Splits f [] = (refl, (refl, refl))
separate-Splits f (p ∷ ps) = place_pod-Splits f p ps (separate ps) (separate-Splits f ps)

-- Whatever test is applied to the pods, the lists of separatePods hold as many that pass it as the list
-- has that pass it and run, are pending or unknown, have succeeded, or have failed: none is lost,
-- doubled or put in the wrong list.
pub separate_pods-Splits :
    (f : Pod → Bool) (items : List Pod) → Splits f items (separate_pods items)
unfolding separate_pods
separate_pods-Splits f items =
    let (a, (b, c)) = separate-Splits f (sort_pods items) in
    (a ∙ count-sort_pods _ items, (b ∙ count-sort_pods _ items, c ∙ count-sort_pods _ items))
