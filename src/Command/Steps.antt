-- ===== src/Command/Steps.antt =====
-- The steps of main: which were taken before the manager is started.
use backup_restore_openstack.Prelude.{
  ◌≡◌, ◌≢◌, ◌↔◌, ◌⊎◌, inl, inr, refl, String, Option, none, some, List, [], ◌∷◌,
}
use backup_restore_openstack.Types.Meta.{Error}
use backup_restore_openstack.Effects.{Kind}
use backup_restore_openstack.Effects.Trace.{All}
use backup_restore_openstack.Command.{
  Step, complete, add_healthz_check, add_readyz_check, start, log_error, World, Exit, exited,
  panicked, Program,
}
use backup_restore_openstack.Command.Main.{end_on, must, or_exit, or_die, finish}

module _ (w : World) where
  -- the step was taken, and did not fail
  abbrev pub Has : Step → List Step → Type 0
  Has q [] = ⊥
  Has q (p ∷ t) = ((p ≡ q) × (w t p ≡ none)) ⊎ Has q t

  -- a controller watches each of the seven kinds, and the manager answers the probes
  abbrev pub IsReady : List Step → Type 0
  IsReady t =
      All (λ k. Has (complete k) t)
        (Kind.pv_snapshot ∷ Kind.pvc ∷ Kind.restore_pvc ∷ Kind.snapshot ∷ Kind.scheduler_snapshot
          ∷ Kind.sync_snapshot ∷ Kind.create_kube_snapshot ∷ [])
      × (Has (add_healthz_check "healthz") t × Has (add_readyz_check "readyz") t)

  -- the manager is only started when all is ready
  abbrev pub IsOrdered : List Step → Type 0
  IsOrdered [] = Unit
  IsOrdered (start ∷ t) = IsReady t × IsOrdered t
  IsOrdered (_ ∷ t) = IsOrdered t

  abbrev pub IsRun : Exit × List Step → Type 0
  IsRun (x, t) = IsOrdered t × ((x ≡ exited 0) ↔ Has start t)

  -- before the start: the steps that were taken
  abbrev pub Before : List Step → List Step → Type 0
  Before qs t = All (λ q. Has q t) qs × (IsOrdered t × (Has start t → ⊥))

  pub record Leads (qs : List Step) (go : Program) : Type 0 where
    pub at : (t : List Step) → Before qs t → IsRun (go w t)

  other-IsOrdered : (q : Step) (t : List Step) → q ≢ start → IsOrdered t → IsOrdered (q ∷ t)
  other-IsOrdered start t n h = absurd (n refl)
  other-IsOrdered (log_error e m c) t n h = h
  other-IsOrdered _ t n h = h

  All-later : (p : Step) (qs t : List Step) → All (λ q. Has q t) qs → All (λ q. Has q (p ∷ t)) qs
  All-later p [] t h = tt
  All-later p (q ∷ qs) t (h, hs) = (inr h, All-later p qs t hs)

  other-Before :
      (p : Step) (qs t : List Step)
      → p ≢ start
      → w t p ≡ none
      → Before qs t
      → Before (p ∷ qs) (p ∷ t)
  other-Before p qs t n e (h, (o, s)) = (
    (inl (refl, e), All-later p qs t h),
    (other-IsOrdered p t n o, λ k. elim k [ inl both ↦ n both.0 | inr earlier ↦ s earlier ]),
  )

  failed-Run :
      (x : Exit) (p : Step) (t qs : List Step) (e : Error)
      → x ≢ exited 0
      → p ≢ start
      → w t p ≡ some e
      → Before qs t
      → IsRun (x, p ∷ t)
  failed-Run x p t qs e bad n f (h, (o, s)) = (
    other-IsOrdered p t n o,
    (
      λ k. absurd (bad k),
      λ k. elim k [ inl both ↦ absurd (n both.0) | inr earlier ↦ absurd (s earlier) ],
    ),
  )

  log-Run :
      (x : Exit) (t : List Step) (e : Error) (m : String) (c : Option String)
      → IsRun (x, t)
      → IsRun (x, log_error e m c ∷ t)
  log-Run x t e m c (o, (f, g)) =
      (o, (λ k. inr (f k), λ k. elim k [ inl both ↦ cc | inr earlier ↦ g earlier ]))

  step-Run :
      (p : Step) (t qs : List Step) (go : Program) (fail : Error → Exit × List Step)
      (e : Option Error)
      → p ≢ start
      → ((x : Error) → w t p ≡ some x → IsRun (fail x))
      → Leads (p ∷ qs) go
      → Before qs t
      → w t p ≡ e
      → IsRun (end_on e fail (go w (p ∷ t)))
  step-Run p t qs go fail none n f l b e = l.at (p ∷ t) (other-Before p qs t n e b)
  step-Run p t qs go fail (some x) n f l b e = f x e

  module _ (p : Step) (qs : List Step) (go : Program) (n : p ≢ start) (l : Leads (p ∷ qs) go) where
    pub or_exit-Leads : (m : String) (c : Option String) → Leads qs (or_exit p m c go)
    unfolding or_exit
    or_exit-Leads m c = record {
      at = λ t b.
          step-Run p t qs go _ (w t p) n
            (λ x f.
              log-Run (exited 1) (p ∷ t) x m c (failed-Run (exited 1) p t qs x (λ k. cc) n f b))
            l b refl;
    }

    pub or_die-Leads : Leads qs (or_die p go)
    unfolding or_die
    or_die-Leads = record {
      at = λ t b.
          step-Run p t qs go _ (w t p) n (λ x f. failed-Run (exited 1) p t qs x (λ k. cc) n f b) l b
            refl;
    }

    pub must-Leads : Leads qs (must p go)
    unfolding must
    must-Leads = record {
      at = λ t b.
          step-Run p t qs go _ (w t p) n (λ x f. failed-Run panicked p t qs x (λ k. cc) n f b) l b
            refl;
    }

  started-Run :
      (qs t : List Step) (m : String) (c : Option String) (e : Option Error)
      → (All (λ q. Has q t) qs → IsReady t)
      → Before qs t
      → w t start ≡ e
      → IsRun (end_on e (λ x. (exited 1, log_error x m c ∷ start ∷ t)) (exited 0, start ∷ t))
  started-Run qs t m c none r (h, (o, s)) e = ((r h, o), (λ k. inl (refl, e), λ k. refl))
  started-Run qs t m c (some x) r (h, (o, s)) e =
      log-Run (exited 1) (start ∷ t) x m c
        ((r h, o), (λ k. cc, λ k. elim k [ inl both ↦ cc | inr earlier ↦ absurd (s earlier) ]))

  pub start-Leads :
      (qs : List Step) (m : String) (c : Option String)
      → ((t : List Step) → All (λ q. Has q t) qs → IsReady t)
      → Leads qs (or_exit start m c finish)
  unfolding or_exit finish
  start-Leads qs m c r = record { at = λ t b. started-Run qs t m c (w t start) (r t) b refl }
