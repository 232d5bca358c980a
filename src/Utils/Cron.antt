-- ===== src/Utils/Cron.antt =====
-- utils.go: the times of a schedule. cron.ParseStandard and time.LoadLocation return nil with an
-- error; the time methods panic on it. A year before the time given is a number, so the model is the
-- code's from one year after Go's zero time on.
pub mod Laws
use backup_restore_openstack.Prelude.{
  ℕ, zero, suc, ◌+◌, ◌-◌, ◌*◌, ◌^◌, String, Bool, ltb, leb, if◌then◌else◌,
}
use backup_restore_openstack.Prelude.Int.{ℤ, pos, negsuc}
use backup_restore_openstack.Effects.{
  Request, now, Answer, ok, err, Schedule, Location, Outcome, done, diverged, M, pure, panic, asks,
  settle, check, call, ◌>>=◌,
}
use backup_restore_openstack.Utils.Const.{second, hour}

-- at most the largest, and at least the smallest, time.Duration
abbrev pub clamp : ℕ → ℕ
clamp n = if ltb n (2 ^ 63) then n else 2 ^ 63 - 1

-- a.Sub(b)
unfoldable pub sub_time : ℕ → ℕ → ℤ
sub_time a b = if leb b a then pos (clamp (a - b)) else negsuc (clamp (b - a - 1))

abbrev pub next_schedule_delta : ℕ
next_schedule_delta = 100000000

-- the hours of 365 days
abbrev pub year : ℕ
year = 8760 * hour

unfoldable pub validate_cron_spec : String → M (Answer Schedule)
validate_cron_spec spec = asks (λ env. env.parse_standard spec)

unfoldable pub validate_schedule_location : String → M (Answer Location)
validate_schedule_location location = asks (λ env. env.load_location location)

-- schedule.Next(t.In(location))
unfoldable pub next : Schedule → Location → ℕ → ℕ
next schedule location t = schedule location t

-- the loop: the time to look at, and the last one that was not after `t`
unfoldable pub find_previous : ℕ → (ℕ → ℕ) → ℕ → ℕ → ℕ → Outcome ℕ
find_previous zero step t candidate last = diverged
find_previous (suc fuel) step t candidate last =
    let rest = find_previous fuel step t (step candidate) candidate in
    if ltb t candidate then done last else rest

-- from one year before on
unfoldable pub previous : Schedule → Location → ℕ → Outcome ℕ
unfolding find_previous
previous schedule location t =
    find_previous (suc (2 * (t + 2))) (schedule location) t (schedule location (t - year)) 0

unfoldable pub with_schedule :
    {A : Type 0} → Answer Schedule → Answer Location → (Schedule → Location → M A) → M A
with_schedule cron location go =
    check location (λ e. panic) (λ l. check cron (λ e. panic) (λ s. go s l))

unfoldable pub previous_snapshot_duration : Answer Schedule → Answer Location → ℕ → M ℤ
unfolding previous with_schedule sub_time
previous_snapshot_duration cron location t =
    with_schedule cron location λ s l. do last ← settle (previous s l t); pure (sub_time t last)

unfoldable pub next_snapshot_duration : Answer Schedule → Answer Location → ℕ → M ℤ
unfolding next with_schedule sub_time
next_snapshot_duration cron location t =
    with_schedule cron location (λ s l. pure (sub_time (next s l t + next_schedule_delta) t))

unfoldable pub convert_time_now_to_string : ℕ → M String
convert_time_now_to_string t = do
  location ← asks (λ env. env.load_location "Asia/Bangkok")
  check location (λ e. pure "") (λ l. asks (λ env. env.format_compact l t))

unfoldable pub calculate_duration : String → M (Answer ℤ)
unfolding sub_time
calculate_duration text = do
  parsed ← asks (λ env. env.parse_rfc3339 text)
  check parsed (λ e. pure (err e)) λ t. do instant ← call now; pure (ok (sub_time instant t))
