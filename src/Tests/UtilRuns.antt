-- ===== src/Tests/UtilRuns.antt =====
-- The theorems about the helpers on small values.
use backup_restore_openstack.Prelude.{
  ◌==◌, List, ℕ, [], ◌∷◌, ◌+◌, ◌-◌, ◌<◌, ◌≤◌, ◌≡◌, ◌⊎◌, refl, arith,
}
use backup_restore_openstack.Types.Kube.{Pod, PodPhase}
use backup_restore_openstack.Effects.{Schedule, done, diverged}
use backup_restore_openstack.Utils.Cron.{year, previous}
use backup_restore_openstack.Utils.Cron.Laws.{IsLast, previous-IsLast, previous-diverges}
use backup_restore_openstack.Utils.Pods.{separate_pods}
use backup_restore_openstack.Utils.Pods.OrderLaws.{AreOrdered, separate_pods-AreOrdered}
use backup_restore_openstack.Utils.Pods.PartLaws.{Splits, separate_pods-Splits}
use backup_restore_openstack.Tests.Sample.{pod}

-- every ten nanoseconds
abbrev ticks : Schedule
ticks location t = t + 10

abbrev never : Schedule
never location t = 0

later : (u : ℕ) → u < ticks "UTC" u
later u = omega arith

previous-IsLast_example :
    (r : ℕ) × ((previous ticks "UTC" 25 ≡ done r)
      × (((25 < ticks "UTC" (25 - year)) × (r ≡ 0))
          ⊎ ((ticks "UTC" (25 - year) ≤ r) × IsLast (ticks "UTC") 25 r)))
previous-IsLast_example = previous-IsLast ticks "UTC" 25 later

previous_of_ticks : previous ticks "UTC" 25 ≡ done 20
unfolding previous
previous_of_ticks = refl

previous-diverges_example : previous never "UTC" 25 ≡ diverged
previous-diverges_example = previous-diverges never "UTC" 25 refl

abbrev pods : List Pod
pods =
    pod "node" PodPhase.pod_failed "a"
    ∷ pod "node" PodPhase.pod_running "b"
    ∷ pod "other" PodPhase.pod_pending "c"
    ∷ []

separate_pods-AreOrdered_example : AreOrdered 0 (separate_pods pods)
separate_pods-AreOrdered_example = separate_pods-AreOrdered pods

separate_pods-Splits_example : Splits (λ p. p.spec.node_name == "node") pods (separate_pods pods)
separate_pods-Splits_example = separate_pods-Splits (λ p. p.spec.node_name == "node") pods
