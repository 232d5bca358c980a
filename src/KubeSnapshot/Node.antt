-- ===== src/KubeSnapshot/Node.antt =====
-- createkubesnapshot_controller.go, nominateAPIServerNode. Go iterates over a map in any order; here
-- it is the order of the list that stands for the map.
use backup_restore_openstack.Prelude.{
  ℕ, ◌+◌, String, ◌==◌, ltb, List, [], ◌∷◌, none, some, concat, if◌then◌else◌,
}
use backup_restore_openstack.Prelude.Dict.{lookup, insert}
use backup_restore_openstack.Types.Meta.{wrapped}
use backup_restore_openstack.Types.Kube.{Pod}
use backup_restore_openstack.Effects.{Kind, list, Answer, ok, err, M, pure, check, call, ◌>>=◌}

abbrev pub count_of : String → List (String × ℕ) → ℕ
count_of n nodes = elim (lookup n nodes) [ none ↦ 0 | some c ↦ c ]

-- nodes[pod.Spec.NodeName]++, unless the name is empty
unfoldable pub count_nodes : List (String × ℕ) → List Pod → List (String × ℕ)
count_nodes nodes [] = nodes
count_nodes nodes (p ∷ ps) =
    count_nodes
      (if p.spec.node_name == ""
        then nodes
        else insert p.spec.node_name (count_of p.spec.node_name nodes + 1) nodes)
      ps

-- the second loop, from (maxNode, maxCount)
unfoldable pub max_node : String × ℕ → List (String × ℕ) → String × ℕ
max_node best [] = best
max_node best (n ∷ ns) = max_node (if ltb best.1 n.1 then n else best) ns

unfoldable pub nominate_node : List Pod → String
unfolding count_nodes max_node
nominate_node pods = (max_node ("", 0) (count_nodes [] pods)).0

unfoldable pub nominate_api_server_node : String → M (Answer String)
unfolding nominate_node
nominate_api_server_node target = do
  pods ← call (list Kind.pod target (("app", "kubernetes") ∷ ("role", "apiserver") ∷ []))
  check pods
      (λ e. pure (
        err (
          wrapped e (
            concat (
              "unable to list kube-apiserver pods in namespace " ∷ target ∷ ": " ∷ e.message
              ∷ [])))))
      (λ items. pure (ok (nominate_node items)))
