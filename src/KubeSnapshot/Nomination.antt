-- ===== src/KubeSnapshot/Nomination.antt =====
-- The node that is nominated runs the most pods.
use text.Mathlib.TextPositions.{eq_refl}
use backup_restore_openstack.Prelude.{
  ℕ, ◌+◌, ◌≤◌, String, ◌==◌, eq_iff, ◌≡◌, ◌≢◌, refl, ap, Bool-cases, ◌⊎◌, inl, inr, none, some,
  List, [], ◌∷◌, arith, ltb, if◌then◌else◌,
}
use backup_restore_openstack.Prelude.Dict.{lookup, insert, lookup-insert}
use backup_restore_openstack.Types.Kube.{Pod}
use backup_restore_openstack.KubeSnapshot.Node.{count_of, count_nodes, max_node, nominate_node}

-- how many pods of the list run on a node
abbrev pub pods_on : String → List Pod → ℕ
pods_on n [] = 0
pods_on n (p ∷ ps) = (if p.spec.node_name == n then 1 else 0) + pods_on n ps

count_of-insert :
    (k n : String) (c : ℕ) (nodes : List (String × ℕ))
    → count_of n (insert k c nodes) ≡ (if k == n then c else count_of n nodes)
count_of-insert k n c nodes = ground (arith, lookup-insert k n c nodes)

count_of-count_nodes :
    (n : String) (nodes : List (String × ℕ)) (ps : List Pod)
    → n ≢ ""
    → count_of n (count_nodes nodes ps) ≡ count_of n nodes + pods_on n ps
unfolding count_nodes
count_of-count_nodes n nodes [] h = omega arith
count_of-count_nodes n nodes (p ∷ ps) h = ground (
  arith,
  count_of-count_nodes n
      (if p.spec.node_name == ""
        then nodes
        else insert p.spec.node_name (count_of p.spec.node_name nodes + 1) nodes)
      ps h,
  count_of-insert p.spec.node_name n (count_of p.spec.node_name nodes + 1) nodes,
  eq_iff p.spec.node_name n,
  eq_iff p.spec.node_name "",
)

-- no key stands twice
abbrev IsDistinct : List (String × ℕ) → Type 0
IsDistinct [] = Unit
IsDistinct ((k, c) ∷ nodes) = (lookup k nodes ≡ none) × IsDistinct nodes

insert-IsDistinct :
    (k : String) (c : ℕ) (nodes : List (String × ℕ))
    → IsDistinct nodes
    → IsDistinct (insert k c nodes)
insert-IsDistinct k c [] h = (refl, tt)
insert-IsDistinct k c ((j, d) ∷ nodes) h =
    ground
      (arith, insert-IsDistinct k c nodes h.1, lookup-insert k j c nodes, eq_iff j k, eq_iff k j)

count_nodes-IsDistinct :
    (nodes : List (String × ℕ)) (ps : List Pod)
    → IsDistinct nodes
    → IsDistinct (count_nodes nodes ps)
unfolding count_nodes
count_nodes-IsDistinct nodes [] h = h
count_nodes-IsDistinct nodes (p ∷ ps) h =
    count_nodes-IsDistinct
      (if p.spec.node_name == ""
        then nodes
        else insert p.spec.node_name (count_of p.spec.node_name nodes + 1) nodes)
      ps
      (ground (
        arith,
        h,
        insert-IsDistinct p.spec.node_name (count_of p.spec.node_name nodes + 1) nodes h,
      ))

max_node-ge :
    (best : String × ℕ) (nodes : List (String × ℕ)) (n : String)
    → (best.1 ≤ (max_node best nodes).1) × (count_of n nodes ≤ (max_node best nodes).1)
unfolding max_node
max_node-ge best [] n = omega arith
max_node-ge best (x ∷ nodes) n =
    ground (arith, max_node-ge (if ltb best.1 x.1 then x else best) nodes n)

-- the result is the start, or an entry
abbrev IsFrom : String × ℕ → String × ℕ → List (String × ℕ) → Type 0
IsFrom best r nodes = (r ≡ best) ⊎ (lookup r.0 nodes ≡ some r.1)

IsFrom-cons :
    (best x r : String × ℕ) (nodes : List (String × ℕ))
    → lookup x.0 nodes ≡ none
    → IsFrom (if ltb best.1 x.1 then x else best) r nodes
    → IsFrom best r (x ∷ nodes)
IsFrom-cons best x r nodes new h = grind (arith, eq_iff x.0 r.0, eq_refl x.0)

max_node-IsFrom :
    (best : String × ℕ) (nodes : List (String × ℕ))
    → IsDistinct nodes
    → IsFrom best (max_node best nodes) nodes
unfolding max_node
max_node-IsFrom best [] h = inl refl
max_node-IsFrom best (x ∷ nodes) h =
    IsFrom-cons best x (max_node (if ltb best.1 x.1 then x else best) nodes) nodes h.0
      (max_node-IsFrom (if ltb best.1 x.1 then x else best) nodes h.1)

counted :
    (n : String) (pods : List Pod) → n ≢ "" → count_of n (count_nodes [] pods) ≡ pods_on n pods
counted n pods h = omega (arith, count_of-count_nodes n [] pods h)

no_empty_key :
    (nodes : List (String × ℕ)) (ps : List Pod) → lookup "" (count_nodes nodes ps) ≡ lookup "" nodes
unfolding count_nodes
no_empty_key nodes [] = refl
no_empty_key nodes (p ∷ ps) = ground (
  arith,
  no_empty_key
      (if p.spec.node_name == ""
        then nodes
        else insert p.spec.node_name (count_of p.spec.node_name nodes + 1) nodes)
      ps,
  lookup-insert p.spec.node_name "" (count_of p.spec.node_name nodes + 1) nodes,
)

most_of :
    (n : String) (pods : List Pod) (r : String × ℕ)
    → n ≢ ""
    → count_of n (count_nodes [] pods) ≤ r.1
    → IsFrom ("", 0) r (count_nodes [] pods)
    → pods_on n pods ≤ pods_on r.0 pods
most_of n pods r h le (inl start) =
    omega (arith, counted n pods h, ap (λ (x : String × ℕ). x.1) start)
most_of n pods r h le (inr entry) = elim (Bool-cases (r.0 == "")) [
  | inl empty ↦ absurd (ground (arith, eq_iff r.0 "", no_empty_key [] pods, entry, empty))
  | inr named ↦
      ground (arith, eq_iff r.0 "", eq_refl r.0, entry, named, counted n pods h, counted r.0 pods)
]

-- No node but the empty name runs more of the pods than the node that is nominated.
pub pods_on-le-nominate_node :
    (pods : List Pod) (n : String) → n ≢ "" → pods_on n pods ≤ pods_on (nominate_node pods) pods
unfolding nominate_node
pods_on-le-nominate_node pods n h =
    most_of n pods (max_node ("", 0) (count_nodes [] pods)) h
      (max_node-ge ("", 0) (count_nodes [] pods) n).1
      (max_node-IsFrom ("", 0) (count_nodes [] pods) (count_nodes-IsDistinct [] pods tt))
