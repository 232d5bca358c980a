-- ===== src/Command.antt =====
-- cmd/main.go and the SetupWithManager of each controller: how the program starts. What main asks of
-- controller-runtime is a step, which may fail; the world answers it from the steps taken before.
pub mod Options
pub mod Main
pub mod Steps
pub mod Laws
use backup_restore_openstack.Prelude.{ℕ, String, Option, List}
use backup_restore_openstack.Types.Meta.{Error}
use backup_restore_openstack.Effects.{Kind}
use backup_restore_openstack.Command.Options.{ManagerOptions}

pub data Step : Type 0 where
  -- AddToScheme of the group with that name
  add_to_scheme : String → Step
  get_config : Step
  new_manager : ManagerOptions → Step
  -- NewControllerManagedBy(mgr).For(…).Complete(r), by the kind that is watched
  complete : Kind → Step
  add_healthz_check : String → Step
  add_readyz_check : String → Step
  start : Step
  -- setupLog.Error with a message, and the name of a controller
  log_error : Error → String → Option String → Step

-- the error of a step, if it fails
abbrev pub World : Type 0
World = List Step → Step → Option Error

-- how the process ends: with a code, or by a panic
pub data Exit : Type 0 where
  exited : ℕ → Exit
  panicked : Exit

-- the steps so far, newest first
abbrev pub Program : Type 0
Program = World → List Step → Exit × List Step
