-- ===== src/Utils/Pods/OrderLaws.antt =====
-- The order of the pods in the lists of separatePods.
use backup_restore_openstack.Prelude.{ℕ, ◌≤◌, List, [], ◌∷◌, arith}
use backup_restore_openstack.Types.Kube.{
  PodPhase, pod_pending, pod_running, pod_succeeded, pod_failed, pod_unknown, pod_phase_other, Pod,
}
use backup_restore_openstack.Utils.Pods.{
  SeparatedPods, unix, insert_pod, sort_pods, place_pod, separate, separate_pods,
}

-- The pods are in the order of their creation, the first not before the second n.
abbrev pub IsOrdered : ℕ → List Pod → Type 0
IsOrdered n [] = Unit
IsOrdered n (p ∷ ps) = (n ≤ unix p) × IsOrdered (unix p) ps

abbrev pub AreOrdered : ℕ → SeparatedPods → Type 0
AreOrdered n r = IsOrdered n r.running × (IsOrdered n r.succeeded × IsOrdered n r.failed)

lower-IsOrdered : (m n : ℕ) (ps : List Pod) → m ≤ n → IsOrdered n ps → IsOrdered m ps
lower-IsOrdered m n [] h k = tt
lower-IsOrdered m n (p ∷ ps) h (k, rest) = (omega (arith, h, k), rest)

insert_pod-IsOrdered :
    (n : ℕ) (p : Pod) (ps : List Pod) → n ≤ unix p → IsOrdered n ps → IsOrdered n (insert_pod p ps)
unfolding insert_pod
insert_pod-IsOrdered n p [] h k = (h, tt)
insert_pod-IsOrdered n p (q ∷ ps) h (k, rest) = ground (arith, insert_pod-IsOrdered (unix q) p ps)

sort_pods-IsOrdered : (ps : List Pod) → IsOrdered 0 (sort_pods ps)
unfolding sort_pods
sort_pods-IsOrdered [] = tt
sort_pods-IsOrdered (p ∷ ps) =
    insert_pod-IsOrdered 0 p (sort_pods ps) (omega arith) (sort_pods-IsOrdered ps)

place_pod-AreOrdered :
    (n : ℕ) (phase : PodPhase) (p : Pod) (r : SeparatedPods)
    → n ≤ unix p
    → AreOrdered (unix p) r
    → AreOrdered n (place_pod phase p r)
unfolding place_pod
place_pod-AreOrdered n pod_running p r h (a, (b, c)) =
    ((h, a), (lower-IsOrdered n (unix p) _ h b, lower-IsOrdered n (unix p) _ h c))
place_pod-AreOrdered n pod_pending p r h (a, (b, c)) =
    ((h, a), (lower-IsOrdered n (unix p) _ h b, lower-IsOrdered n (unix p) _ h c))
place_pod-AreOrdered n pod_unknown p r h (a, (b, c)) =
    ((h, a), (lower-IsOrdered n (unix p) _ h b, lower-IsOrdered n (unix p) _ h c))
place_pod-AreOrdered n pod_succeeded p r h (a, (b, c)) =
    (lower-IsOrdered n (unix p) _ h a, ((h, b), lower-IsOrdered n (unix p) _ h c))
place_pod-AreOrdered n pod_failed p r h (a, (b, c)) =
    (lower-IsOrdered n (unix p) _ h a, (lower-IsOrdered n (unix p) _ h b, (h, c)))
place_pod-AreOrdered n pod_phase_other p r h (a, (b, c)) = (
  lower-IsOrdered n (unix p) _ h a,
  (lower-IsOrdered n (unix p) _ h b, lower-IsOrdered n (unix p) _ h c),
)

separate-AreOrdered : (n : ℕ) (ps : List Pod) → IsOrdered n ps → AreOrdered n (separate ps)
unfolding separate
separate-AreOrdered n [] h = (tt, (tt, tt))
separate-AreOrdered n (p ∷ ps) (h, rest) =
    place_pod-AreOrdered n p.status.phase p (separate ps) h (separate-AreOrdered (unix p) ps rest)

-- The running, the succeeded and the failed pods that separatePods returns are each in the order of
-- their creation, whatever the order of the list.
pub separate_pods-AreOrdered : (items : List Pod) → AreOrdered 0 (separate_pods items)
unfolding separate_pods
separate_pods-AreOrdered items = separate-AreOrdered 0 (sort_pods items) (sort_pods-IsOrdered items)
