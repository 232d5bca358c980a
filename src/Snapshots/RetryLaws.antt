-- ===== src/Snapshots/RetryLaws.antt =====
-- How long a snapshot that is not ready is looked at again.
use backup_restore_openstack.Prelude.{
  ℕ, zero, suc, ◌<◌, ◌+◌, ◌*◌, String, eq_refl, ◌≡◌, refl, ◌⊎◌, inl, inr, true, false, none, some,
  List, [], arith,
}
use backup_restore_openstack.Prelude.Int.{pos, ◌+ℤ◌, wrap}
use backup_restore_openstack.Types.Meta.{Annotations, put, Error, Condition}
use backup_restore_openstack.Types.Snapshot.{Snapshot, SnapshotStatus, PvSnapshotItem}
use backup_restore_openstack.Effects.{
  Kind, Request, update, update_status, pure, Result, Reconciled, requeue_now, after, Env, save,
  save_status, set_condition, unless, ◌>>=◌,
}
use backup_restore_openstack.Effects.Trace.{Issues, issues_rules}
use backup_restore_openstack.Restores.ClaimLaws.{Any}
use backup_restore_openstack.Effects.Returns.{Returns, returns_rules}
use backup_restore_openstack.Prelude.Dict.{lookup-insert}
use backup_restore_openstack.Utils.Decimal.{atoi, itoa}
use backup_restore_openstack.Utils.Const.{second}
use backup_restore_openstack.Snapshots.Status.{build_snapshot_status, commit_if_changed}
use backup_restore_openstack.Snapshots.Outcome.{
  counted, retries_key, retry_count, handle_timeout, commit_condition, handle_retry, is_pending,
  is_timed_out, handle_snapshot_success,
}

-- Without an error there is another round: at once, or after 15 seconds.
abbrev pub IsRequeued : Reconciled → Type 0
IsRequeued (r, none) = (r ≡ requeue_now) ⊎ (r ≡ after (pos (15 * second)))
IsRequeued (r, some e) = Unit

IsRequeued-now : IsRequeued (requeue_now, none)
IsRequeued-now = inl refl

IsRequeued-later : IsRequeued (after (pos (15 * second)), none)
IsRequeued-later = inr refl

failed_round : (r : Result) (e : Error) → IsRequeued (r, some e)
failed_round r e = tt

handle_retry-IsRequeued :
    (s : Snapshot) (item : PvSnapshotItem) (new : SnapshotStatus)
    → Returns IsRequeued (handle_retry s item new)
unfolding handle_retry
handle_retry-IsRequeued s item new =
    search (returns_rules, IsRequeued-now, IsRequeued-later, failed_round) depth 12

-- A snapshot that is not ready and has not reached the retry limit is looked at again, whatever the
-- API server answers: the run returns an error, or a requeue.
pub handle_snapshot_success-IsRequeued :
    (s : Snapshot) (item : PvSnapshotItem)
    → is_pending item ≡ true
    → is_timed_out s item ≡ false
    → Returns IsRequeued (handle_snapshot_success s item)
unfolding handle_snapshot_success
handle_snapshot_success-IsRequeued s item p t =
    rw (p, t) (handle_retry-IsRequeued s item (build_snapshot_status s item "Succeeded"))

-- Every status written has no conditions.
abbrev pub IsBare : Request → Type 0
IsBare (update_status Kind.snapshot o) = o.status.conditions ≡ []
IsBare _ = Unit

commit-IsBare :
    (s : Snapshot) (new : SnapshotStatus)
    → new.conditions ≡ []
    → Issues IsBare (commit_if_changed s new)
unfolding commit_if_changed
commit-IsBare s new h = search issues_rules

handle_timeout-IsBare :
    (s : Snapshot) (new : SnapshotStatus)
    → new.conditions ≡ []
    → Issues IsBare (handle_timeout s new)
unfolding handle_timeout
handle_timeout-IsBare s new h = search (issues_rules, commit-IsBare) depth 9

pending_of_timeout :
    (s : Snapshot) (item : PvSnapshotItem) → is_timed_out s item ≡ true → is_pending item ≡ true
pending_of_timeout s item h = ground arith

bare_status :
    (s : Snapshot) (item : PvSnapshotItem) (c : String)
    → (build_snapshot_status s item c).conditions ≡ []
unfolding build_snapshot_status
bare_status s item c = refl

-- A snapshot without a creation time that has reached the retry limit: the status that is written, if
-- one is, has no conditions at all, so the Timeout condition that was set just before is lost.
pub timeout_loses_condition :
    (s : Snapshot) (item : PvSnapshotItem)
    → is_timed_out s item ≡ true
    → Issues IsBare (handle_snapshot_success s item)
unfolding handle_snapshot_success
timeout_loses_condition s item h =
    rw (pending_of_timeout s item h, h)
      (handle_timeout-IsBare s (build_snapshot_status s item "Succeeded")
        (bare_status s item "Succeeded"))

count_of_written : (n : ℕ) → n < 5 → atoi (itoa (wrap 64 (pos n +ℤ pos 1))) ≡ some (pos (n + 1))
unfolding atoi itoa wrap ◌+ℤ◌
count_of_written zero h = refl
count_of_written (suc zero) h = refl
count_of_written (suc (suc zero)) h = refl
count_of_written (suc (suc (suc zero))) h = refl
count_of_written (suc (suc (suc (suc zero)))) h = refl
count_of_written (suc (suc (suc (suc (suc n))))) h = absurd (omega arith)

retry_count-put :
    (m : Annotations) (n : ℕ)
    → n < 5
    → retry_count (put m retries_key (itoa (wrap 64 (pos n +ℤ pos 1)))) ≡ pos (n + 1)
unfolding retry_count
retry_count-put none n h = ground (arith, count_of_written n h)
retry_count-put (some m) n h = ground (
  arith,
  count_of_written n h,
  eq_refl retries_key,
  lookup-insert retries_key retries_key (itoa (wrap 64 (pos n +ℤ pos 1))) m,
)

-- Every update of the snapshot carries this retry count.
abbrev pub Counts : ℕ → Request → Type 0
Counts n (update Kind.snapshot o) = retry_count o.meta.annotations ≡ pos n
Counts n _ = Unit

commit-Counts :
    (n : ℕ) (s : Snapshot) (new : SnapshotStatus) → Issues (Counts n) (commit_if_changed s new)
unfolding commit_if_changed
commit-Counts n s new = search issues_rules

commit_condition-Counts :
    (n : ℕ) (s : Snapshot) (c : Condition) (r : Reconciled)
    → Issues (Counts n) (commit_condition s c (λ _. pure r))
unfolding commit_condition
commit_condition-Counts n s c r = search issues_rules depth 9

counted-Counts :
    (s : Snapshot) (n : ℕ)
    → n < 5
    → retry_count s.meta.annotations ≡ pos n
    → Counts (n + 1) (update Kind.snapshot (counted s (retry_count s.meta.annotations)))
counted-Counts s n h c = rw c (retry_count-put s.meta.annotations n h)

handle_retry-Counts :
    (s : Snapshot) (item : PvSnapshotItem) (new : SnapshotStatus) (n : ℕ)
    → n < 5
    → retry_count s.meta.annotations ≡ pos n
    → Issues (Counts (n + 1)) (handle_retry s item new)
unfolding handle_retry
handle_retry-Counts s item new n h c =
    let written = counted-Counts s n h c in
    search (issues_rules, written, commit-Counts, commit_condition-Counts) depth 9

in_time :
    (s : Snapshot) (item : PvSnapshotItem) (n : ℕ)
    → n < 5
    → retry_count s.meta.annotations ≡ pos n
    → is_timed_out s item ≡ false
in_time s item n h c = ground arith

-- an update of the snapshot that carries this retry count
abbrev pub IsCount : ℕ → Request → Type 0
IsCount n (update Kind.snapshot o) = retry_count o.meta.annotations ≡ pos n
IsCount n _ = ⊥

-- a retry makes that update first, and whatever comes then only adds to the trace
handle_retry-Any :
    (env : Env) (t : List Request) (s : Snapshot) (item : PvSnapshotItem) (new : SnapshotStatus)
    (n : ℕ)
    → n < 5
    → retry_count s.meta.annotations ≡ pos n
    → Any (IsCount (n + 1)) (handle_retry s item new env t).1
unfolding handle_retry commit_if_changed commit_condition save save_status set_condition unless pure
    ◌>>=◌
handle_retry-Any env t s item new n h c = grind (arith, counted-Counts s n h c)

-- Below the limit each round of a snapshot that is not ready asks the API server to store a retry count
-- one higher than the one it read; and no update of the snapshot in that round carries another count.
pub handle_snapshot_success-Counts :
    (env : Env) (t : List Request) (s : Snapshot) (item : PvSnapshotItem) (n : ℕ)
    → n < 5
    → is_pending item ≡ true
    → retry_count s.meta.annotations ≡ pos n
    → Any (IsCount (n + 1)) (handle_snapshot_success s item env t).1
      × Issues (Counts (n + 1)) (handle_snapshot_success s item)
unfolding handle_snapshot_success
handle_snapshot_success-Counts env t s item n h p c =
    let new = build_snapshot_status s item "Succeeded" in
    rw (p, in_time s item n h c)
      (handle_retry-Any env t s item new n h c, handle_retry-Counts s item new n h c)
