-- ===== src/Schedulers/RetentionLaws.antt =====
-- What the retention phases delete.
use backup_restore_openstack.Prelude.{
  ℕ, ◌*◌, ◌≤◌, ◌<◌, ◌^◌, String, ◌==◌, eq_iff, ◌≡◌, ◌⊎◌, inl, inr, refl, true, false, some, List,
  [], ◌∷◌, not, ◌&&◌, if◌then◌else◌, arith,
}
use mathlib.Core.Path.{ap, subst, sym}
use backup_restore_openstack.Prelude.Int.{ℤ, pos, ◌*ℤ◌, ◌≤ℤ◌, ◌<ℤ◌, ltb_ℤ, leb_ℤ, wrap}
use backup_restore_openstack.Types.Snapshot.{Snapshot}
use backup_restore_openstack.Types.Scheduler.{PvcSnapshotClass, SnapshotRetentionPolicy}
use backup_restore_openstack.Effects.{
  Kind, Request, delete, now, Answer, ok, err, Env, pure, asks, check, call, ◌>>=◌,
}
use backup_restore_openstack.Effects.Triple.{
  Triple, trace_of, Triple-pure, Triple-bind, Triple-then, Triple-if, Triple-check,
}
use backup_restore_openstack.Utils.Const.{minute, hour}
use backup_restore_openstack.Utils.Cron.{calculate_duration, sub_time}
use backup_restore_openstack.Restores.ClaimLaws.{Any}
use backup_restore_openstack.Schedulers.Objects.{
  deleted_snapshot, new_delete_snapshot, unit_duration, get_default_requeue_after,
}
use backup_restore_openstack.Schedulers.Retention.{
  limit_of, creation_text, expire_aged, expire_snapshot, expire_snapshots,
}

-- the text whose age counts: the creation time of the VolumeSnapshot if it is known, or else that of the
-- Snapshot
abbrev pub age_text : Env → Snapshot → String
age_text env s =
    if not (s.status.creation_time == "") && not (s.status.creation_time == "N/A")
    then s.status.creation_time
    else env.time_string s.meta.creation_timestamp

not_positive : (z : ℤ) → ltb_ℤ (pos 0) z ≡ false → z ≤ℤ pos 0
not_positive z h = ground arith

at_least : (l d : ℤ) → leb_ℤ l d ≡ true → l ≤ℤ d
at_least l d h = ground arith

same_of : {A : Type 0} (a b : A) → ok a ≡ ok b → b ≡ a
same_of a b h = cc

module _ (env : Env) (limit : ℤ) (c : PvcSnapshotClass) (ss : List Snapshot) where
  -- The snapshot that a deletion at this time names: its PVC has the name of the class's, it is in use
  -- nowhere, and its age is known and has reached the limit.
  abbrev pub IsExpired : ℕ → Snapshot → Snapshot → Type 0
  IsExpired instant o s =
      (created : ℕ) × (o
        ≡ deleted_snapshot s.meta.name s.meta.namespace s.spec.pvc_name s.spec.namespace)
      × (s.spec.num_in_use ≤ℤ pos 0)
      × (s.status.source_pvc_name ≡ c.pvc_name)
      × (env.parse_rfc3339 (age_text env s) ≡ ok created)
      × (limit ≤ℤ sub_time instant created)

  -- the last request read the time, at which a listed snapshot is past its own
  abbrev pub IsDue : Snapshot → List Request → Type 0
  IsDue o (now ∷ t) = Any (IsExpired (env.answer t now) o) ss
  IsDue o _ = ⊥

  -- Each deletion of a Snapshot is due when it is asked for, and nothing but the time is asked for besides.
  abbrev pub Deletes : List Request → Type 0
  Deletes [] = Unit
  Deletes (delete Kind.snapshot o ∷ t) = IsDue o t × Deletes t
  Deletes (now ∷ t) = Deletes t
  Deletes (_ ∷ t) = ⊥

  -- the last request read the time, and the age of the text is `d`
  abbrev IsAge : String → ℤ → List Request → Type 0
  IsAge text d (now ∷ t) =
      (created : ℕ) × (env.parse_rfc3339 text ≡ ok created)
      × (d ≡ sub_time (env.answer t now) created)
  IsAge text d _ = ⊥

  abbrev Aged : String → Answer ℤ → List Request → Type 0
  Aged text a t = Deletes t × ((d : ℤ) → a ≡ ok d → IsAge text d t)

  parsed-Aged :
      (text : String) (a : Answer ℕ)
      → env.parse_rfc3339 text ≡ a
      → Triple env Deletes Deletes
          (check a
            (λ e. pure (err e))
            (λ created. do instant ← call now; pure (ok (sub_time instant created))))
          (Aged text)
  unfolding check ◌>>=◌
  parsed-Aged text (ok created) h = record {
    at = λ t q. (q, λ d e. (created, h, same_of (sub_time (env.answer t now) created) d e));
  }
  parsed-Aged text (err x) h = record { at = λ t q. (q, λ d e. cc) }

  age-Aged : (text : String) → Triple env Deletes Deletes (calculate_duration text) (Aged text)
  unfolding calculate_duration asks ◌>>=◌
  age-Aged text = record { at = λ t q. (parsed-Aged text (env.parse_rfc3339 text) refl).at t q }

  text-Deletes :
      (s : Snapshot)
      → Triple env Deletes Deletes (creation_text s) (λ x t. Deletes t × (x ≡ age_text env s))
  unfolding asks
  text-Deletes s =
      Triple-if (not (s.status.creation_time == "") && not (s.status.creation_time == "N/A")) _ _
        (λ p. Triple-pure _ (λ t q. (q, rw p refl))) (λ p. record { at = λ t q. (q, rw p refl) })

  due :
      (s : Snapshot) (d : ℤ) (t : List Request)
      → s.status.source_pvc_name ≡ c.pvc_name
      → ((instant : ℕ) (o : Snapshot) → IsExpired instant o s → Any (IsExpired instant o) ss)
      → IsAge (age_text env s) d t
      → limit ≤ℤ d
      → s.spec.num_in_use ≤ℤ pos 0
      → IsDue (deleted_snapshot s.meta.name s.meta.namespace s.spec.pvc_name s.spec.namespace) t
  due s d (now ∷ t) p into (created, parsed, same) l u =
      into (env.answer t now) _ (created, refl, u, p, parsed, rw (sym same) l)
  due s d _ p into h l u = absurd h

  aged_text :
      (s : Snapshot) (text : String) (d : ℤ) (t : List Request)
      → text ≡ age_text env s
      → IsAge text d t
      → IsAge (age_text env s) d t
  aged_text s text d t e h = rw (sym e) h

  aged-Deletes :
      (s : Snapshot) (d : ℤ) (J : List Request → Type 0)
      → ((t : List Request) → J t → Deletes t)
      → ((t : List Request)
          → J t
          → limit ≤ℤ d
          → s.spec.num_in_use ≤ℤ pos 0
          → IsDue
              (deleted_snapshot s.meta.name s.meta.namespace s.spec.pvc_name s.spec.namespace)
              t)
      → Triple env Deletes J (expire_aged limit s d) (λ _. Deletes)
  unfolding expire_aged new_delete_snapshot ◌>>=◌
  aged-Deletes s d J keeps is_due =
      Triple-if (leb_ℤ limit d) _ _
        (λ old.
          Triple-if (ltb_ℤ (pos 0) s.spec.num_in_use) _ _ (λ _. Triple-pure [] keeps)
            (λ free. record {
              at = λ t q. (
                is_due t q (at_least limit d old) (not_positive s.spec.num_in_use free),
                keeps t q,
              );
            }))
        (λ _. Triple-pure _ keeps)

  expire_snapshot-Deletes :
      (s : Snapshot)
      → ((instant : ℕ) (o : Snapshot) → IsExpired instant o s → Any (IsExpired instant o) ss)
      → Triple env Deletes Deletes (expire_snapshot limit c s) (λ _. Deletes)
  unfolding expire_snapshot
  expire_snapshot-Deletes s into =
      Triple-if (s.status.source_pvc_name == c.pvc_name) _ _
        (λ q.
          let p = (eq_iff s.status.source_pvc_name c.pvc_name).0 q in
          Triple-bind {Q = λ x t. Deletes t × (x ≡ age_text env s)} (creation_text s) _
            (text-Deletes s)
            (λ text. record {
              at = λ t h.
                  (Triple-bind {Q = Aged text} (calculate_duration text) _ (age-Aged text) (λ age.
                      Triple-check age _ _ (λ e _. Triple-pure [] (λ u k. k.0))
                        (λ d e.
                          aged-Deletes s d (Aged text age) (λ u k. k.0)
                            (λ u k. due s d u p into (aged_text s text d u h.1 (k.1 d e)))))).at
                    t h.0;
            }))
        (λ _. Triple-pure [] (λ t h. h))

  expire_all-Deletes :
      (xs : List Snapshot)
      → ((instant : ℕ) (o : Snapshot) → Any (IsExpired instant o) xs → Any (IsExpired instant o) ss)
      → Triple env Deletes Deletes (expire_snapshots limit c xs) (λ _. Deletes)
  unfolding expire_snapshots
  expire_all-Deletes [] into = Triple-pure [] (λ t h. h)
  expire_all-Deletes (x ∷ xs) into =
      Triple-then _ _ (expire_snapshot-Deletes x (λ i o u. into i o (inl u))) (λ first.
        Triple-then _ _ (expire_all-Deletes xs (λ i o u. into i o (inr u)))
          (λ rest. Triple-pure _ (λ t h. h)))

-- The retention of a class deletes only listed snapshots of a PVC with the name of the class's, that no
-- restore uses and whose age, at the time read just before, has reached the limit; and it asks for nothing
-- else but the time.
pub expire_snapshots-Deletes :
    (env : Env) (limit : ℤ) (c : PvcSnapshotClass) (ss : List Snapshot)
    → Deletes env limit c ss (expire_snapshots limit c ss env []).1
expire_snapshots-Deletes env limit c ss =
    trace_of (Deletes env limit c ss) (expire_snapshots limit c ss env [])
      ((expire_all-Deletes env limit c ss ss (λ i o u. u)).at [] tt)

wrap_small : (n : ℕ) → n < 2 ^ 63 → wrap 64 (pos n) ≡ pos n
unfolding wrap
wrap_small n h = ground arith

wrap_large : (n : ℕ) → 2 ^ 63 ≤ n → n < 2 ^ 64 → wrap 64 (pos n) <ℤ pos 0
unfolding wrap
wrap_large n h k = ground arith

times_pos : (m n : ℕ) → pos m *ℤ pos n ≡ pos (m * n)
unfolding ◌*ℤ◌
times_pos m n = ground arith

-- the units, with the default of each
Known : String → ℕ → Type 0
Known u unit =
    ((u ≡ "minutes") × (unit ≡ minute))
    ⊎ (((u ≡ "hours") × (unit ≡ hour)) ⊎ ((u ≡ "days") × (unit ≡ 24 * hour)))

unit_Known : (u : String) (unit : ℕ) → unit_duration u ≡ some unit → Known u unit
unfolding unit_duration Known
unit_Known u unit h = ground (arith, eq_iff "minutes" u, eq_iff "hours" u, eq_iff "days" u)

fits_unit : (n : ℕ) {unit u : ℕ} → unit ≡ u → n * unit < 2 ^ 63 → n * u < 2 ^ 63
fits_unit n e h = subst (λ u. n * u < 2 ^ 63) e h

default-Known :
    (u : String) (n unit : ℕ)
    → Known u unit
    → n * unit < 2 ^ 63
    → get_default_requeue_after (pos n) u ≡ pos (n * unit)
unfolding get_default_requeue_after Known
default-Known u n unit (inl (m, e)) h =
    rw (m, e, times_pos n minute) (wrap_small (n * minute) (fits_unit n e h))
default-Known u n unit (inr (inl (m, e))) h =
    rw (m, e, times_pos n hour) (wrap_small (n * hour) (fits_unit n e h))
default-Known u n unit (inr (inr (m, e))) h =
    let f = fits_unit n e h in
    rw (m, e, times_pos n 24, wrap_small (n * 24) (omega arith), times_pos (n * 24) hour)
      (rw (wrap_small (n * 24 * hour) (omega arith)) (ap pos (omega arith)))

-- A retention of n units is n times the unit, as long as that fits in a 64-bit duration; the default
-- requeue time is the same.
pub limit-exact :
    (policy : SnapshotRetentionPolicy) (n unit : ℕ)
    → policy.max ≡ pos n
    → unit_duration policy.time_units ≡ some unit
    → n * unit < 2 ^ 63
    → (limit_of policy unit ≡ pos (n * unit))
      × (get_default_requeue_after policy.max policy.time_units ≡ pos (n * unit))
limit-exact policy n unit m u h = rw m (
  rw (times_pos n unit) (wrap_small (n * unit) h),
  default-Known policy.time_units n unit (unit_Known policy.time_units unit u) h,
)

below : (l d : ℤ) → l <ℤ pos 0 → pos 0 ≤ℤ d → leb_ℤ l d ≡ true
below l d h k = ground arith

not_in_use : (z : ℤ) → z ≤ℤ pos 0 → ltb_ℤ (pos 0) z ≡ false
not_in_use z h = ground arith

limit_is_negative :
    (policy : SnapshotRetentionPolicy) (n unit : ℕ)
    → policy.max ≡ pos n
    → 2 ^ 63 ≤ n * unit
    → n * unit < 2 ^ 64
    → limit_of policy unit <ℤ pos 0
limit_is_negative policy n unit m h k = rw (m, times_pos n unit) (wrap_large (n * unit) h k)

deletion_trace :
    (env : Env) (t : List Request) (s : Snapshot)
    → ((do
      failed ← new_delete_snapshot s.meta.name s.meta.namespace s.spec.pvc_name s.spec.namespace
      pure {A = List ℤ} [])
        env t).1
      ≡ delete Kind.snapshot
          (deleted_snapshot s.meta.name s.meta.namespace s.spec.pvc_name s.spec.namespace)
        ∷ t
unfolding new_delete_snapshot ◌>>=◌
deletion_trace env t s = ground arith

-- A retention whose product with its unit is between 2^63 and 2^64 nanoseconds has a negative limit, and
-- with it the step of the retention for a snapshot of a PVC class asks to delete it whenever it is in use
-- nowhere and its age is not negative, however young it is.
pub limit-overflows :
    (env : Env) (t : List Request) (policy : SnapshotRetentionPolicy) (n unit : ℕ) (d : ℤ)
    (s : Snapshot)
    → policy.max ≡ pos n
    → 2 ^ 63 ≤ n * unit
    → n * unit < 2 ^ 64
    → pos 0 ≤ℤ d
    → s.spec.num_in_use ≤ℤ pos 0
    → (limit_of policy unit <ℤ pos 0)
      × ((expire_aged (limit_of policy unit) s d env t).1
          ≡ delete Kind.snapshot
              (deleted_snapshot s.meta.name s.meta.namespace s.spec.pvc_name s.spec.namespace)
            ∷ t)
unfolding expire_aged new_delete_snapshot ◌>>=◌ call check pure
limit-overflows env t policy n unit d s m h k q u =
    let low = limit_is_negative policy n unit m h k in
    (low, rw (below _ d low q, not_in_use s.spec.num_in_use u) (deletion_trace env t s))
