-- ===== src/Restores/Ledger/Bounds.antt =====
-- What the abstract count of uses guarantees.
use backup_restore_openstack.Prelude.{ℕ, zero, suc, ◌+◌, ◌^◌, ◌<◌, ◌≤◌, ◌≡◌, ◌∙◌, ap, sym, arith}
use backup_restore_openstack.Prelude.Int.{ℤ, pos, negsuc, ◌+ℤ◌, leb_ℤ, wrap}
use backup_restore_openstack.Restores.UseLaws.{wrap_up}
use backup_restore_openstack.Restores.Ledger.{
  UseStep, taken, returned, Uses, here, next, cost, takes,
}

-- The count is a number, and at most `a`.
abbrev pub IsWithin : ℤ → ℕ → Type 0
IsWithin n a = (b : ℕ) × (n ≡ pos b) × (b ≤ a)

up : (b : ℕ) → b + 1 < 2 ^ 63 → wrap 64 (pos b +ℤ pos 1) ≡ pos (b + 1)
unfolding ◌+ℤ◌
up b h = ground (arith, wrap_up (b + 1) h)

down : (b : ℕ) → b < 2 ^ 63 → wrap 64 (pos (suc b) +ℤ negsuc 0) ≡ pos b
unfolding ◌+ℤ◌
down b h = ground (arith, wrap_up b h)

step-IsWithin :
    {m n : ℤ} (s : UseStep m n) (a : ℕ)
    → a + cost s < 2 ^ 63
    → IsWithin m a
    → IsWithin n (a + cost s)
step-IsWithin (taken e) a h (b, eq, l) =
    (b + 1, e ∙ (ap (λ x. wrap 64 (x +ℤ pos 1)) eq ∙ up b (omega arith)), omega arith)
step-IsWithin (returned p e) a h (zero, eq, l) =
    let same = sym p ∙ ap (λ x. leb_ℤ x (pos 0)) eq in cc
step-IsWithin (returned p e) a h (suc b, eq, l) =
    (b, e ∙ (ap (λ x. wrap 64 (x +ℤ negsuc 0)) eq ∙ down b (omega arith)), omega arith)

pub Uses-IsWithin :
    {m n : ℤ} (u : Uses m n) (a : ℕ) → m ≡ pos a → a + takes u < 2 ^ 63 → IsWithin n (a + takes u)
Uses-IsWithin here a e h = (a, e, omega arith)
Uses-IsWithin (next u s) a e h =
    let (b, eq, l) =
      step-IsWithin s (a + takes u) (omega arith) (Uses-IsWithin u a e (omega arith)) in
    (b, eq, omega arith)
