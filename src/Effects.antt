-- ===== src/Effects.antt =====
-- What the controllers ask of the world, and the state that a reconciliation carries. The API
-- servers, the clock and the libraries of other projects are an `Env`: every theorem that takes one
-- holds for all of them. The state is the trace of the requests made so far, newest first; an answer
-- may depend on all of it, so the answers of an API server that others write to are covered too.
pub mod Trace
pub mod Triple
pub mod Returns
use backup_restore_openstack.Prelude.{
  ℕ, String, Bool, true, false, Option, none, some, List, [], ◌∷◌,
}
use backup_restore_openstack.Prelude.Int.{ℤ, pos}
use backup_restore_openstack.Types.Meta.{Error, NamespacedName, ObjectMeta, Condition}
use backup_restore_openstack.Types.Snapshot.{Snapshot}
use backup_restore_openstack.Types.Kube.{CreateKubeSnapshot, Pod}
use backup_restore_openstack.Types.Restore.{RestorePvc, PersistentVolumeClaim}
use backup_restore_openstack.Types.Scheduler.{SchedulerSnapshot}
use backup_restore_openstack.Types.Lists.{Pvc, PvSnapshot, SyncSnapshot, Secret, Namespace}
use backup_restore_openstack.Types.Json.{Json, Found}

-- The kinds of object that the seed's client serves.
pub data Kind : Type 0 where
  snapshot create_kube_snapshot restore_pvc scheduler_snapshot sync_snapshot pvc pv_snapshot pod
        secret namespace :
      Kind

abbrev pub Object : Kind → Type 0
Object Kind.snapshot = Snapshot
Object Kind.create_kube_snapshot = CreateKubeSnapshot
Object Kind.restore_pvc = RestorePvc
Object Kind.scheduler_snapshot = SchedulerSnapshot
Object Kind.sync_snapshot = SyncSnapshot
Object Kind.pvc = Pvc
Object Kind.pv_snapshot = PvSnapshot
Object Kind.pod = Pod
Object Kind.secret = Secret
Object Kind.namespace = Namespace

pub data Request : Type 0 where
  -- the client of the seed; `list` takes a namespace and the labels to match
  get : Kind → NamespacedName → Request
  list : Kind → String → List (String × String) → Request
  create update update_status patch delete : (k : Kind) → Object k → Request
  -- CreateShootKubeClient and CreateDynamicKubeClient, with a kubeconfig and the cluster's name
  connect connect_dynamic : String → String → Request
  -- the shoot's typed client
  list_namespaces : Request
  list_pvcs : String → Request
  get_pvc : String → String → Request
  create_pvc : String → PersistentVolumeClaim → Request
  -- the shoot's dynamic client: resource, namespace, and the object or its name
  dynamic_list : String → String → Request
  dynamic_create : String → String → Json → Request
  dynamic_delete : String → String → String → Request
  -- time.Now() and time.Sleep, in nanoseconds
  now : Request
  sleep : ℕ → Request

pub data Answer (A : Type 0) : Type 0 where
  ok : A → Answer A
  err : Error → Answer A

-- A create, an update and a patch fill the object that they are given from the server's answer.
abbrev pub Reply : Request → Type 0
Reply (get k n) = Answer (Object k)
Reply (list k n l) = Answer (List (Object k))
Reply (create k o) = Answer (Object k)
Reply (update k o) = Answer (Object k)
Reply (update_status k o) = Answer (Object k)
Reply (patch k o) = Answer (Object k)
Reply (delete k o) = Answer (Unit {0})
Reply (connect s c) = Answer (Unit {0})
Reply (connect_dynamic s c) = Answer (Unit {0})
Reply list_namespaces = Answer (List String)
Reply (list_pvcs n) = Answer (List PersistentVolumeClaim)
Reply (get_pvc n p) = Answer PersistentVolumeClaim
Reply (create_pvc n p) = Answer PersistentVolumeClaim
Reply (dynamic_list r n) = Answer (List Json)
Reply (dynamic_create r n o) = Answer Json
Reply (dynamic_delete r n o) = Answer (Unit {0})
Reply now = ℕ
Reply (sleep d) = Unit {0}

-- cron.Schedule, an interface with the one method Next, at a location; and time.Location by name.
abbrev pub Location : Type 0
Location = String

abbrev pub Schedule : Type 0
Schedule = Location → ℕ → ℕ

pub record Env : Type 0 where
  pub answer : List Request → (q : Request) → Reply q
  -- controllerutil, on the list of an object's finalizers
  pub contains_finalizer : List String → String → Bool
  pub add_finalizer : List String → String → List String
  pub remove_finalizer : List String → String → List String × Bool
  -- apimachinery's meta, on the list of an object's conditions
  pub set_status_condition : List Condition → Condition → List Condition
  pub find_status_condition : List Condition → String → Option Condition
  -- apimachinery's unstructured, yaml and resource
  pub nested_map : Json → String → Found Json
  pub nested_string : Json → String → Found String
  pub nested_bool : Json → String → Found Bool
  pub decode_yaml : String → Answer Json
  pub parse_quantity : String → Option String
  -- cron.ParseStandard, and the time zone database: time.LoadLocation and the RFC 3339 format
  pub parse_standard : String → Answer Schedule
  pub load_location : String → Answer Location
  pub parse_rfc3339 : String → Answer ℕ
  pub format_time : Location → ℕ → String
  -- the layout 0601021504
  pub format_compact : Location → ℕ → String
  -- the text of a metav1.Time
  pub time_string : ℕ → String

-- A panic ends the reconciliation, and so does a loop that does not end.
pub data Outcome {ℓ} (A : Type ℓ) : Type ℓ where
  done : A → Outcome A
  panicked : Outcome A
  diverged : Outcome A

abbrev pub M : Type 0 → Type 0
M A = Env → List Request → Outcome A × List Request

module _ {A : Type 0} where
  unfoldable pub pure : A → M A
  pure a env t = (done a, t)

  unfoldable pub panic : M A
  panic env t = (panicked, t)

  unfoldable pub diverge : M A
  diverge env t = (diverged, t)

  -- A value that a library's function gives.
  unfoldable pub asks : (Env → A) → M A
  asks f env t = (done (f env), t)

  -- A computation that asks for nothing, but may not end.
  unfoldable pub settle : Outcome A → M A
  settle r env t = (r, t)

  -- `if err := …; err != nil { … }`
  unfoldable pub check {ℓ} : {B : Type ℓ} → Answer A → (Error → B) → (A → B) → B
  check (ok a) fail go = go a
  check (err e) fail go = fail e

-- the same for a value of type error, which may be nil
module _ {B : Type 0} where
  unfoldable pub unless : Option Error → (Error → B) → B → B
  unless (some e) fail go = fail e
  unless none fail go = go

unfoldable pub call : (q : Request) → M (Reply q)
call q env t = (done (env.answer t q), q ∷ t)

module _ {A B : Type 0} where
  abbrev continue : Outcome A → (A → M B) → M B
  continue (done a) f env t = f a env t
  continue panicked f env t = (panicked, t)
  continue diverged f env t = (diverged, t)

  infixl 5 ◌>>=◌ ◌>>◌
  -- to open this is to open the ways to build an action
  unfoldable pub ◌>>=◌ : M A → (A → M B) → M B
  unfolding pure panic diverge asks settle call check unless
  ◌>>=◌ m f env t = let (r, t') = m env t in continue r f env t'

  abbrev pub ◌>>◌ : M A → M B → M B
  m >> n = m >>= λ _. n

-- ctrl.Result, and what Reconcile returns: the error is nil for `none`. A duration is an integer of
-- nanoseconds.
pub record Result : Type 0 where
  pub requeue : Bool
  pub requeue_after : ℤ

abbrev pub Reconciled : Type 0
Reconciled = Result × Option Error

-- ctrl.Result{}
abbrev pub no_requeue : Result
no_requeue = record { requeue = false; requeue_after = pos 0 }

-- ctrl.Result{Requeue: true}
abbrev pub requeue_now : Result
requeue_now = record { requeue = true; requeue_after = pos 0 }

-- ctrl.Result{RequeueAfter: d}
abbrev pub after : ℤ → Result
after d = record { requeue = false; requeue_after = d }

-- An update, or a status update, with the object after the call and the error. A call that fails
-- leaves the object as it was changed locally.
abbrev pub filled : {A : Type 0} → A → Answer A → A × Option Error
filled o (ok stored) = (stored, none)
filled o (err e) = (o, some e)

unfoldable pub save : (k : Kind) → Object k → M (Object k × Option Error)
save k o env t = (done (filled {A = Object k} o (env.answer t (update k o))), update k o ∷ t)

unfoldable pub save_status : (k : Kind) → Object k → M (Object k × Option Error)
save_status k o env t =
    (done (filled {A = Object k} o (env.answer t (update_status k o))), update_status k o ∷ t)

-- the finalizer and condition helpers, on an object's metadata and conditions
unfoldable pub has_finalizer : String → ObjectMeta → M Bool
has_finalizer name m env t = (done (env.contains_finalizer m.finalizers name), t)

unfoldable pub add_finalizer : String → ObjectMeta → M ObjectMeta
add_finalizer name m env t =
    (done (record m { finalizers = env.add_finalizer m.finalizers name }), t)

unfoldable pub drop_finalizer : String → ObjectMeta → M (ObjectMeta × Bool)
drop_finalizer name m env t = (
  done (
    record m { finalizers = (env.remove_finalizer m.finalizers name).0 },
    (env.remove_finalizer m.finalizers name).1,
  ),
  t,
)

unfoldable pub set_condition : List Condition → Condition → M (List Condition)
set_condition cs c env t = (done (env.set_status_condition cs c), t)
