-- ===== src/Tests/CommandRuns.antt =====
-- The start of the program where all goes well, and where one controller cannot be created.
use backup_restore_openstack.Prelude.{◌≡◌, refl, true, none, some, List, [], ◌∷◌}
use backup_restore_openstack.Types.Meta.{plain}
use backup_restore_openstack.Effects.{Kind}
use backup_restore_openstack.Command.{Step, World, exited}
use backup_restore_openstack.Command.Options.{
  Setting, Argument, default_flags, parse_flags, manager_options,
}
use backup_restore_openstack.Command.Main.{
  main, run_with, must, or_die, or_exit, create_controllers,
}
use backup_restore_openstack.Command.Steps.{IsRun}
use backup_restore_openstack.Command.Laws.{main-IsRun}

abbrev calm : World
calm t q = none

-- the watch of the restores fails
abbrev refusing : World
refusing t (Step.complete Kind.restore_pvc) = some (plain "no kind")
refusing t q = none

refused_run :
    (main [] refusing []).1
    ≡ Step.log_error (plain "no kind") "unable to create controller" (some "RestorePvc")
      ∷ Step.complete Kind.restore_pvc
      ∷ Step.complete Kind.pvc
      ∷ Step.complete Kind.pv_snapshot
      ∷ Step.new_manager (manager_options default_flags)
      ∷ Step.get_config
      ∷ Step.add_to_scheme "snapshot.mfke.io/v1beta1"
      ∷ Step.add_to_scheme "client-go"
      ∷ []
unfolding main run_with must or_die or_exit create_controllers parse_flags
refused_run = refl

abbrev elected : List Argument
elected = Argument.setting (Setting.leader_elect true) ∷ []

helped_run :
    (main (Argument.setting (Setting.set_http2 true) ∷ Argument.help ∷ []) calm []).0 ≡ exited 0
unfolding main run_with must parse_flags
helped_run = refl

refused_flag_run : (main (Argument.refused ∷ elected) calm []).0 ≡ exited 2
unfolding main run_with must parse_flags
refused_flag_run = refl

calm_run : (main elected calm []).0 ≡ exited 0
unfolding main run_with must or_die or_exit create_controllers parse_flags
calm_run = refl

main-IsRun_example : IsRun calm (main elected calm [])
unfolding parse_flags
main-IsRun_example =
    main-IsRun calm elected (record default_flags { enable_leader_election = true }) refl
