-- ===== src/Command/Laws.antt =====
-- When the manager is started, and how the process ends.
use backup_restore_openstack.Prelude.{◌≡◌, refl, false, List, [], ◌∷◌}
use backup_restore_openstack.Effects.Trace.{All}
use backup_restore_openstack.Command.{
  Step, add_to_scheme, get_config, new_manager, complete, add_healthz_check, add_readyz_check,
  World, Program,
}
use backup_restore_openstack.Command.Options.{
  Argument, parsed, default_flags, parse_flags, Flags, TlsConfig, TlsOption, manager_options,
}
use backup_restore_openstack.Command.Main.{
  Controller, watched, create_controllers, controllers, serve, run_with, init, main,
}
use backup_restore_openstack.Command.Steps.{
  Has, IsReady, IsRun, Leads, or_exit-Leads, or_die-Leads, must-Leads, start-Leads,
}

module _ (w : World) where
  -- the steps of the controllers, on top of others
  abbrev created : List Controller → List Step → List Step
  created [] qs = qs
  created (c ∷ cs) qs = created cs (complete (watched c) ∷ qs)

  create_controllers-Leads :
      (cs : List Controller) (qs : List Step) (go : Program)
      → Leads w (created cs qs) go
      → Leads w qs (create_controllers cs go)
  unfolding create_controllers
  create_controllers-Leads [] qs go l = l
  create_controllers-Leads (c ∷ cs) qs go l =
      or_exit-Leads w (complete (watched c)) qs (create_controllers cs go) (λ k. cc)
        (create_controllers-Leads cs (complete (watched c) ∷ qs) go l) _ _

  created-IsReady :
      (qs t : List Step)
      → All
          (λ q. Has w q t)
          (add_readyz_check "readyz" ∷ add_healthz_check "healthz" ∷ created controllers qs)
      → IsReady w t
  unfolding watched
  created-IsReady qs t (ready, (health, (kube, (sync, (scheduler, (snapshot, (restore, rest))))))) =
      (
        (rest.1.0, (rest.0, (restore, (snapshot, (scheduler, (sync, (kube, tt))))))),
        (health, ready),
      )

  serve-Leads : (qs : List Step) → Leads w (created controllers qs) serve
  unfolding serve
  serve-Leads qs =
      or_exit-Leads w (add_healthz_check "healthz") _ _ (λ k. cc)
        (or_exit-Leads w (add_readyz_check "readyz") _ _ (λ k. cc)
          (start-Leads w _ _ _ (created-IsReady qs)) _ _)
        _ _

  run-Leads : (qs : List Step) (flags : Flags) → Leads w qs (run_with (parsed flags))
  unfolding run_with
  run-Leads qs flags =
      or_die-Leads w get_config _ _ (λ k. cc)
        (or_exit-Leads w (new_manager (manager_options flags)) _ _ (λ k. cc)
          (create_controllers-Leads controllers _ serve (serve-Leads _)) _ _)

  main-Leads :
      (arguments : List Argument) (flags : Flags)
      → parse_flags default_flags arguments ≡ parsed flags
      → Leads w [] (main arguments)
  unfolding main init
  main-Leads arguments flags h =
      must-Leads w (add_to_scheme "client-go") _ _ (λ k. cc)
        (must-Leads w (add_to_scheme "snapshot.mfke.io/v1beta1") _ _ (λ k. cc)
          (rw h (run-Leads _ flags)))

  -- Where the flag package accepts every argument, whichever step fails then: the manager is only
  -- started after a controller was completed for each of the seven kinds (PvSnapshot, Pvc, RestorePvc,
  -- Snapshot, SchedulerSnapshot, SyncSnapshot and CreateKubeSnapshot) and both probes were added; and
  -- the process ends with code 0 exactly if the manager was started and did not fail.
  pub main-IsRun :
      (arguments : List Argument) (flags : Flags)
      → parse_flags default_flags arguments ≡ parsed flags
      → IsRun w (main arguments w [])
  main-IsRun arguments flags h = (main-Leads arguments flags h).at [] (tt, (tt, λ k. k))

-- the configuration after the options
abbrev pub configured : List TlsOption → TlsConfig → TlsConfig
configured [] c = c
configured (f ∷ fs) c = configured fs (f c)

-- Unless the flag allows HTTP/2, the metrics server and the webhook server offer HTTP/1.1 only.
pub manager_options-IsHttp1 :
    (f : Flags) (c : TlsConfig)
    → f.enable_http2 ≡ false
    → ((configured (manager_options f).metrics_tls c).next_protos ≡ "http/1.1" ∷ [])
      × ((configured (manager_options f).webhook_tls c).next_protos ≡ "http/1.1" ∷ [])
unfolding manager_options
manager_options-IsHttp1 f c h = rw h (refl, refl)
