-- ===== src/Schedulers/CreationLaws.antt =====
-- Which Snapshots the schedules create.
use backup_restore_openstack.Prelude.{
  ℕ, String, eq_iff, ◌≡◌, inl, inr, refl, Bool, true, ◌&&◌, Option, none, some, List, [], ◌∷◌,
  arith,
}
use backup_restore_openstack.Prelude.Int.{ℤ, pos}
use backup_restore_openstack.Types.Snapshot.{Snapshot}
use backup_restore_openstack.Types.Scheduler.{
  SnapshotRetentionPolicy, PvcSnapshotClass, Scheduler, SchedulerSnapshot,
}
use backup_restore_openstack.Types.Lists.{PvcDetail}
use backup_restore_openstack.Effects.{Kind, Request, create, Answer, Schedule, Location, M}
use backup_restore_openstack.Effects.Trace.{Issues, Issues-pure, issues_rules}
use backup_restore_openstack.Utils.Cron.{
  calculate_duration, convert_time_now_to_string, validate_cron_spec, validate_schedule_location,
  with_schedule, next_snapshot_duration, previous_snapshot_duration,
}
use backup_restore_openstack.Restores.ClaimLaws.{Any}
use backup_restore_openstack.Schedulers.Objects.{
  scheduled_snapshot, new_create_snapshot, new_delete_snapshot,
}
use backup_restore_openstack.Schedulers.Retention.{
  creation_text, expire_aged, expire_snapshot, expire_snapshots, retain_by_unit, retain_snapshots,
}
use backup_restore_openstack.Schedulers.Rounds.{pvc_existed, pvc_round, pvc_schedules, pvc_phase}

both_true : (e v a b : Bool) → (e && v && a && b) ≡ true → e ≡ true
both_true e v a b h = ground arith

-- the PVC has the name and the namespace of the class
abbrev pub IsOf : PvcSnapshotClass → PvcDetail → Type 0
IsOf c p = (p.pvc_name ≡ c.pvc_name) × (p.namespace ≡ c.namespace)

pvc_existed-Any :
    (c : PvcSnapshotClass) (pvcs : List PvcDetail) → pvc_existed c pvcs ≡ true → Any (IsOf c) pvcs
unfolding pvc_existed
pvc_existed-Any c [] h = cc
pvc_existed-Any c (p ∷ ps) h =
    ground
      (arith, h, pvc_existed-Any c ps, eq_iff c.pvc_name p.pvc_name, eq_iff c.namespace p.namespace)

-- A Snapshot is created for a class of the scheduler whose PVC is in the shoot, unused and in the
-- scheduler's namespace.
abbrev pub IsWanted : SchedulerSnapshot → List PvcDetail → Snapshot → PvcSnapshotClass → Type 0
IsWanted o pvcs s c =
    Any (IsOf c) pvcs
    × ((s.spec.pvc_name ≡ c.pvc_name)
        × ((s.spec.namespace ≡ c.namespace)
            × ((s.meta.namespace ≡ o.meta.namespace) × (s.spec.num_in_use ≡ pos 0))))

abbrev pub Creates : SchedulerSnapshot → List PvcDetail → List PvcSnapshotClass → Request → Type 0
Creates o pvcs cs (create Kind.snapshot s) = Any (IsWanted o pvcs s) cs
Creates o pvcs cs _ = Unit

module _ (o : SchedulerSnapshot) (pvcs : List PvcDetail) (cs : List PvcSnapshotClass) where
  abbrev Quiet : {A : Type 0} → M A → Type 0
  Quiet m = Issues (Creates o pvcs cs) m

  time-Creates : (t : ℕ) → Quiet (convert_time_now_to_string t)
  unfolding convert_time_now_to_string
  time-Creates t = search issues_rules

  age-Creates : (text : String) → Quiet (calculate_duration text)
  unfolding calculate_duration
  age-Creates text = search issues_rules depth 9

  text-Creates : (s : Snapshot) → Quiet (creation_text s)
  text-Creates s = search issues_rules

  with_schedule-Creates :
      {A : Type 0} (cron : Answer Schedule) (location : Answer Location)
      (go : Schedule → Location → M A)
      → ((s : Schedule) (l : Location) → Quiet (go s l))
      → Quiet (with_schedule cron location go)
  unfolding with_schedule
  with_schedule-Creates cron location go h = search (issues_rules, h)

  previous-Creates :
      (cron : Answer Schedule) (location : Answer Location) (t : ℕ)
      → Quiet (previous_snapshot_duration cron location t)
  unfolding previous_snapshot_duration
  previous-Creates cron location t = search (issues_rules, with_schedule-Creates) depth 9

  next-Creates :
      (cron : Answer Schedule) (location : Answer Location) (t : ℕ)
      → Quiet (next_snapshot_duration cron location t)
  unfolding next_snapshot_duration
  next-Creates cron location t = search (issues_rules, with_schedule-Creates) depth 9

  spec-Creates : (s : String) → Quiet (validate_cron_spec s)
  unfolding validate_cron_spec
  spec-Creates s = search issues_rules

  location-Creates : (s : String) → Quiet (validate_schedule_location s)
  unfolding validate_schedule_location
  location-Creates s = search issues_rules

  IsWanted-Creates :
      (c : PvcSnapshotClass) (kind time : String)
      → ((s : Snapshot) → IsWanted o pvcs s c → Any (IsWanted o pvcs s) cs)
      → pvc_existed c pvcs ≡ true
      → Any
          (IsWanted o pvcs (scheduled_snapshot c.pvc_name c.namespace o.meta.namespace kind time))
          cs
  unfolding scheduled_snapshot
  IsWanted-Creates c kind time into e =
      into (scheduled_snapshot c.pvc_name c.namespace o.meta.namespace kind time)
        (pvc_existed-Any c pvcs e, (refl, (refl, (refl, refl))))

  snapshot-Creates :
      (c : PvcSnapshotClass) (kind : String)
      → ((s : Snapshot) → IsWanted o pvcs s c → Any (IsWanted o pvcs s) cs)
      → pvc_existed c pvcs ≡ true
      → Quiet (new_create_snapshot c.pvc_name c.namespace o.meta.namespace kind)
  unfolding new_create_snapshot
  snapshot-Creates c kind into e =
      search (issues_rules, time-Creates, IsWanted-Creates, into, e) depth 9

  round-Creates :
      (c : PvcSnapshotClass) (t : ℕ) (wanted : Bool) (cron : Answer Schedule)
      (location : Answer Location) (left : ℤ)
      → ((s : Snapshot) → IsWanted o pvcs s c → Any (IsWanted o pvcs s) cs)
      → (wanted ≡ true → pvc_existed c pvcs ≡ true)
      → Quiet (pvc_round o c t wanted cron location left)
  unfolding pvc_round
  round-Creates c t wanted cron location left into e =
      search (issues_rules, previous-Creates, snapshot-Creates, into, e) depth 12

  schedules-Creates :
      (c : PvcSnapshotClass) (t : ℕ) (validated : Bool) (ss : List Scheduler)
      → ((s : Snapshot) → IsWanted o pvcs s c → Any (IsWanted o pvcs s) cs)
      → Quiet (pvc_schedules o c t (pvc_existed c pvcs) validated ss)
  unfolding pvc_schedules
  schedules-Creates c t validated [] into = Issues-pure []
  schedules-Creates c t validated (s ∷ ss) into =
      let others = λ (v : Bool). schedules-Creates c t v ss into in
      search
        (
          issues_rules, spec-Creates, location-Creates, next-Creates, round-Creates, into,
          both_true, others,
        )
        depth 12

  deletion-Creates :
      (name seed pvc shoot : String) → Quiet (new_delete_snapshot name seed pvc shoot)
  unfolding new_delete_snapshot
  deletion-Creates name seed pvc shoot = search issues_rules depth 9

  aged-Creates : (limit d : ℤ) (s : Snapshot) → Quiet (expire_aged limit s d)
  unfolding expire_aged
  aged-Creates limit d s = search (issues_rules, deletion-Creates) depth 9

  expire-Creates :
      (limit : ℤ) (c : PvcSnapshotClass) (s : Snapshot) → Quiet (expire_snapshot limit c s)
  unfolding expire_snapshot
  expire-Creates limit c s = search (issues_rules, text-Creates, age-Creates, aged-Creates) depth 12

  expire_all-Creates :
      (limit : ℤ) (c : PvcSnapshotClass) (ss : List Snapshot) → Quiet (expire_snapshots limit c ss)
  unfolding expire_snapshots
  expire_all-Creates limit c [] = Issues-pure []
  expire_all-Creates limit c (s ∷ ss) =
      let others = expire_all-Creates limit c ss in
      let first = expire-Creates limit c s in search (issues_rules, first, others) depth 9

  retain_by_unit-Creates :
      (policy : SnapshotRetentionPolicy) (c : PvcSnapshotClass) (ss : List Snapshot)
      (unit : Option ℕ)
      → Quiet (retain_by_unit policy c ss unit)
  unfolding retain_by_unit
  retain_by_unit-Creates policy c ss none = Issues-pure []
  retain_by_unit-Creates policy c ss (some unit) = search (issues_rules, expire_all-Creates)

  retain-Creates : (c : PvcSnapshotClass) → Quiet (retain_snapshots o c)
  unfolding retain_snapshots
  retain-Creates c = search (issues_rules, retain_by_unit-Creates) depth 9

  classes-Creates :
      (t : ℕ) (ds : List PvcSnapshotClass)
      → ((s : Snapshot) → Any (IsWanted o pvcs s) ds → Any (IsWanted o pvcs s) cs)
      → Quiet (pvc_phase o t pvcs ds)
  unfolding pvc_phase
  classes-Creates t [] into = Issues-pure []
  classes-Creates t (d ∷ ds) into =
      let others = classes-Creates t ds (λ s h. into s (inr h)) in
      let schedules = o.spec.snapshot_scheduler.schedules in
      let first = schedules-Creates d t true schedules (λ s h. into s (inl h)) in
      let kept = retain-Creates d in search (issues_rules, first, kept, others) depth 9

-- In the PVC phase, retention included, a Snapshot is only created for a class of the scheduler for which a
-- PVC with its name and namespace is among the PVCs of the shoot; it has the class's PVC and namespace, stands in the scheduler's namespace and is in
-- use nowhere.
pub pvc_phase-Creates :
    (o : SchedulerSnapshot) (t : ℕ) (pvcs : List PvcDetail) (cs : List PvcSnapshotClass)
    → Issues (Creates o pvcs cs) (pvc_phase o t pvcs cs)
pvc_phase-Creates o t pvcs cs = classes-Creates o pvcs cs t cs (λ s h. h)
