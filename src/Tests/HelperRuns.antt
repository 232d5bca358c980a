-- ===== src/Tests/HelperRuns.antt =====
-- The clients on a disk with an old kubeconfig, and the validation of cron specs.
use backup_restore_openstack.Prelude.{
  ◌+◌, ◌==◌, String, ◌≡◌, refl, Option, none, some, List, [], ◌∷◌, concat, if◌then◌else◌,
}
use backup_restore_openstack.Prelude.Dict.{insert}
use backup_restore_openstack.Types.Meta.{plain}
use backup_restore_openstack.Effects.{Answer, ok, err, check, Schedule}
use backup_restore_openstack.Utils.Clients.{Disk, Os, fatal, create_shoot_kube_client}
use backup_restore_openstack.Utils.Clients.Laws.{kube_clients-IsFor}
use backup_restore_openstack.Utils.Validation.{FieldError, has, validate_scheduler_cron_spec}
use backup_restore_openstack.Utils.Validation.Laws.{validate_all}

-- the folders are there
abbrev linux : Os
linux = record {
  home = "/root";
  dir = λ p. p;
  join_path = λ a b. concat (a ∷ b ∷ []);
  mkdir_error = λ d p. none;
  write_error = λ d p. none;
  torn = λ d p t. insert p t d;
}

abbrev config_of : Option String → Answer String
config_of none = err (plain "no file")
config_of (some text) = ok text

abbrev client_of : String → Answer String
client_of text = if text == "" then err (plain "empty") else ok text

abbrev old_disk : Disk
old_disk = ("/root/kubeconfig/shoot", "old") ∷ []

-- the old kubeconfig is not used
new_client :
    (create_shoot_kube_client linux config_of client_of "new" "shoot" old_disk).0 ≡ ok "new"
unfolding fatal
new_client =
    (kube_clients-IsFor linux config_of client_of "new" "shoot" old_disk "new").0.1
      (refl, (refl, ("new", refl, refl)))

-- every spec but one is parsed
abbrev parse : String → Answer Schedule
parse s = if s == "bad" then err (plain "bad spec") else ok (λ location t. t + 1)

abbrev specs : List String
specs = "0 1 * * *" ∷ "0 2 * * *" ∷ []

accepted_specs : validate_all parse [] "spec.schedules" specs ≡ []
unfolding validate_scheduler_cron_spec check has
accepted_specs = refl

refused_specs :
    validate_all parse [] "start" ("bad" ∷ "daily" ∷ "daily" ∷ [])
    ≡ FieldError.invalid "start" "bad" (concat ("not a valid cron spec: " ∷ "bad spec" ∷ []))
      ∷ FieldError.duplicate "start" "daily"
      ∷ []
unfolding validate_scheduler_cron_spec check has
refused_specs = refl
