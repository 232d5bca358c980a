-- ===== src/Utils/Cron/Laws.antt =====
-- The search for the last time of a schedule.
use backup_restore_openstack.Prelude.{
  ℕ, zero, suc, ◌+◌, ◌-◌, ◌*◌, ◌≤◌, ◌<◌, ◌≡◌, ◌∙◌, refl, ◌⊎◌, inl, inr, true, false, ltb, arith,
}
use backup_restore_openstack.Effects.{Schedule, Location, Outcome, done, diverged}
use backup_restore_openstack.Utils.Cron.{year, find_previous, previous}

-- `r` is a time that the schedule gives, it is not after `t`, and the next one is.
abbrev pub IsLast : (ℕ → ℕ) → ℕ → ℕ → Type 0
IsLast step t r = (u : ℕ) × (r ≡ step u) × (r ≤ t) × (t < step r)

lt_or_ge : (t c : ℕ) → (t < c) ⊎ (c ≤ t)
lt_or_ge t c = ground arith

reached : (t c : ℕ) → t < c → ltb t c ≡ true
reached t c h = ground arith

not_reached : (t c : ℕ) → c ≤ t → ltb t c ≡ false
not_reached t c h = ground arith

-- What the loop ends with: the time it started from is after `t`, or it found the last one.
abbrev Ends : (ℕ → ℕ) → ℕ → ℕ → ℕ → Outcome ℕ → Type 0
Ends step t candidate last o =
    (r : ℕ) × ((o ≡ done r)
      × (((t < candidate) × (r ≡ last)) ⊎ ((candidate ≤ r) × IsLast step t r)))

module _ (step : ℕ → ℕ) (later : (u : ℕ) → u < step u) (t : ℕ) where
  found_at :
      (fuel candidate last u : ℕ)
      → candidate ≡ step u
      → candidate ≤ t
      → Ends step t
          (step candidate)
          candidate
          (find_previous fuel step t (step candidate) candidate)
      → Ends step t candidate last (find_previous (suc fuel) step t candidate last)
  unfolding find_previous
  found_at fuel candidate last u g h (r, (e, inl (before, same))) = (
    r,
    (
      rw (not_reached t candidate h) e,
      inr (omega (arith, same), (u, same ∙ g, omega (arith, same, h), rw same before)),
    ),
  )
  found_at fuel candidate last u g h (r, (e, inr (after, last_one))) =
      (r, (rw (not_reached t candidate h) e, inr (omega (arith, after, later candidate), last_one)))

  find_previous-Ends :
      (fuel candidate last u : ℕ)
      → candidate ≡ step u
      → t < candidate + fuel
      → Ends step t candidate last (find_previous (suc fuel) step t candidate last)
  unfolding find_previous
  find_previous-Ends zero candidate last u g h =
      (last, (rw (reached t candidate (omega arith)) refl, inl (omega arith, refl)))
  find_previous-Ends (suc fuel) candidate last u g h = elim (lt_or_ge t candidate) [
    | inl over ↦ (last, (rw (reached t candidate over) refl, inl (over, refl)))
    | inr under ↦ found_at (suc fuel) candidate last u g under (
        find_previous-Ends fuel (step candidate) candidate candidate refl
          (omega (arith, later candidate)))
  ]

-- A schedule of which each time is followed by a later one: the search ends, and gives a time of the
-- schedule that is not after `t` while the next one is; or, if there was none in the year before, Go's
-- zero time.
pub previous-IsLast :
    (schedule : Schedule) (location : Location) (t : ℕ)
    → ((u : ℕ) → u < schedule location u)
    → (r : ℕ) × ((previous schedule location t ≡ done r)
        × (((t < schedule location (t - year)) × (r ≡ 0))
            ⊎ ((schedule location (t - year) ≤ r) × IsLast (schedule location) t r)))
unfolding previous
previous-IsLast schedule location t later =
    find_previous-Ends (schedule location) later t (2 * (t + 2)) (schedule location (t - year)) 0
      (t - year) refl (omega arith)

never_found : (fuel t last : ℕ) → find_previous fuel (λ _. 0) t 0 last ≡ diverged
unfolding find_previous
never_found zero t last = refl
never_found (suc fuel) t last = rw (not_reached t 0 (omega arith)) (never_found fuel t 0)

-- A schedule without any time, for which cron gives Go's zero time: the search does not end.
pub previous-diverges :
    (schedule : Schedule) (location : Location) (t : ℕ)
    → schedule location ≡ (λ _. 0)
    → previous schedule location t ≡ diverged
unfolding previous
previous-diverges schedule location t h = rw h (never_found (suc (2 * (t + 2))) t 0)
