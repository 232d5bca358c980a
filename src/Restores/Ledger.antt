-- ===== src/Restores/Ledger.antt =====
-- restorepvc_controller.go, the whole of Reconcile against an abstract count of uses: a number that
-- only goes up by one, and down by one where it is positive.
pub mod Bounds
pub mod Steps
pub mod Calls
pub mod Creation
pub mod Rounds
use backup_restore_openstack.Prelude.{
  ℕ, ◌+◌, String, ◌==◌, ◌≡◌, ◌⊎◌, Bool, true, false, ◌&&◌, List, [], ◌∷◌, if◌then◌else◌,
}
use backup_restore_openstack.Prelude.Int.{ℤ, pos, negsuc, ◌+ℤ◌, leb_ℤ, wrap}
use backup_restore_openstack.Types.Meta.{NamespacedName, ObjectMeta}
use backup_restore_openstack.Types.Snapshot.{Snapshot}
use backup_restore_openstack.Effects.{
  Kind, Request, get, update, update_status, create_pvc, Answer, ok, err, Env,
}
use backup_restore_openstack.Types.Restore.{PersistentVolumeClaim}

-- One step of the abstract count.
pub data UseStep (m n : ℤ) : Type 0 where
  taken : n ≡ wrap 64 (m +ℤ pos 1) → UseStep m n
  returned : leb_ℤ m (pos 0) ≡ false → n ≡ wrap 64 (m +ℤ negsuc 0) → UseStep m n

pub data Uses (m : ℤ) : ℤ → Type 0 where
  here : Uses m m
  next : {n p : ℤ} → Uses m n → UseStep n p → Uses m p

-- the uses that were taken in a run of the abstract count
abbrev pub cost : {m n : ℤ} → UseStep m n → ℕ
cost (taken e) = 1
cost (returned h e) = 0

abbrev pub takes : {m n : ℤ} → Uses m n → ℕ
takes here = 0
takes (next u s) = takes u + cost s

abbrev pub is_at : NamespacedName → ObjectMeta → Bool
is_at key m = m.namespace == key.namespace && m.name == key.name

abbrev pub accepted : {A : Type 0} → Answer A → Bool
accepted (ok a) = true
accepted (err e) = false

-- The count that the API server stores for the snapshot `key` after the requests of a trace.
abbrev pub count : Env → NamespacedName → ℤ → List Request → ℤ
count env key first [] = first
count env key first (update Kind.snapshot o ∷ t) =
    let rest = count env key first t in
    if accepted {A = Snapshot} (env.answer t (update Kind.snapshot o)) && is_at key o.meta
    then o.spec.num_in_use
    else rest
count env key first (_ ∷ t) = count env key first t

-- A count that is written: the one before, or one step of the abstract count from it.
abbrev pub UseMove : ℤ → ℤ → Type 0
UseMove m n = (n ≡ m) ⊎ UseStep m n

-- Each accepted write of the snapshot `key` stores such a count.
abbrev pub Moves : Env → NamespacedName → ℤ → List Request → Type 0
Moves env key first [] = Unit
Moves env key first (update Kind.snapshot o ∷ t) =
    (accepted {A = Snapshot} (env.answer t (update Kind.snapshot o)) && is_at key o.meta ≡ true
      → UseMove (count env key first t) o.spec.num_in_use)
    × Moves env key first t
Moves env key first (_ ∷ t) = Moves env key first t

-- The PVCs that were created in the shoot.
abbrev pub made : Env → List Request → ℕ
made env [] = 0
made env (create_pvc ns p ∷ t) =
    let rest = made env t in
    if accepted {A = PersistentVolumeClaim} (env.answer t (create_pvc ns p)) then rest + 1 else rest
made env (_ ∷ t) = made env t

-- The server of a world in which only the program writes: a Snapshot that it answers with, to a read
-- or a write, carries the count that it stores.
pub record IsStore (env : Env) (key : NamespacedName) (first : ℤ) : Type 0 where
  pub reads :
      (t : List Request) (k : NamespacedName) (s : Snapshot)
      → env.answer t (get Kind.snapshot k) ≡ ok s
      → is_at key s.meta ≡ true
      → s.spec.num_in_use ≡ count env key first t
  pub writes :
      (t : List Request) (o s : Snapshot)
      → env.answer t (update Kind.snapshot o) ≡ ok s
      → is_at key s.meta ≡ true
      → s.spec.num_in_use ≡ count env key first (update Kind.snapshot o ∷ t)
  pub status_writes :
      (t : List Request) (o s : Snapshot)
      → env.answer t (update_status Kind.snapshot o) ≡ ok s
      → is_at key s.meta ≡ true
      → s.spec.num_in_use ≡ count env key first t
