-- ===== src/Utils/Clients.antt =====
-- utils.go, CreateShootKubeClient and CreateDynamicKubeClient: a kubeconfig is written to a file and a
-- client made from the file. The controllers ask for both by the requests `connect` and
-- `connect_dynamic`, which forget the disk. clientcmd and client-go are parameters.
pub mod Laws
use backup_restore_openstack.Prelude.{
  String, Bool, not, ◌&&◌, Option, none, some, List, [], ◌∷◌, concat, if◌then◌else◌,
}
use backup_restore_openstack.Prelude.Dict.{lookup, insert}
use backup_restore_openstack.Types.Meta.{Error, plain, is_already_exists}
use backup_restore_openstack.Effects.{Answer, ok, err, check, unless}

-- the contents of the files, by their path
abbrev pub Disk : Type 0
Disk = List (String × String)

-- What the functions use of os and filepath, where the system decides: the errors, and what is left
-- of a file whose writing failed.
pub record Os : Type 0 where
  pub home : String
  pub dir : String → String
  pub join_path : String → String → String
  pub mkdir_error : Disk → String → Option Error
  pub write_error : Disk → String → Option Error
  pub torn : Disk → String → String → Disk

unfoldable pub written : Os → Disk → String → String → Option Error → Disk
written os d path text none = insert path text d
written os d path text (some e) = os.torn d path text

-- os.WriteFile
unfoldable pub write_file : Os → Disk → String → String → Disk × Option Error
unfolding written
write_file os d path text = (written os d path text (os.write_error d path), os.write_error d path)

-- `err != nil && !os.IsExist(err)`
unfoldable pub fatal : Option Error → Option Error
fatal none = none
fatal (some e) = if is_already_exists e then none else some e

abbrev pub shoot_path : Os → String → String
shoot_path os cluster = concat (os.home ∷ "/kubeconfig/" ∷ cluster ∷ [])

abbrev pub dynamic_path : Os → String → String
dynamic_path os cluster = os.join_path "/tmp/kubeconfig/" cluster

module _ {Config Client : Type 0} (os : Os) (build_config : Option String → Answer Config)
    (new_for_config : Config → Answer Client) where
  abbrev refused : Disk → String → Error → Answer Client × Disk
  refused d text e = (err (plain (concat (text ∷ e.message ∷ []))), d)

  -- from the write on; the last text is what a failure of NewForConfig is called
  unfoldable pub open_client : String → String → String → Disk → Answer Client × Disk
  unfolding write_file check unless
  open_client path text message d =
      let (left, failed) = write_file os d path text in
      unless failed (refused left "unable to write kubeconfig data to temporary file: ") (
        check (build_config (lookup path left))
          (refused left "unable to build shoot config from kubeconfig file: ")
          (λ config.
            check (new_for_config config) (refused left message) (λ client. (ok client, left))))

  unfoldable pub create_shoot_kube_client : String → String → Disk → Answer Client × Disk
  unfolding open_client fatal
  create_shoot_kube_client text cluster d =
      unless (fatal (os.mkdir_error d (os.dir (shoot_path os cluster)))) (λ e. (err e, d))
        (open_client (shoot_path os cluster) text "unable to create shoot clientset: " d)

  unfoldable pub create_dynamic_kube_client : String → String → Disk → Answer Client × Disk
  unfolding open_client
  create_dynamic_kube_client text cluster d =
      unless (os.mkdir_error d (os.dir "/tmp/kubeconfig/"))
        (refused d "unable to create directory for kubeconfig: ")
        (open_client (dynamic_path os cluster) text
          "unable to build dynamic client from kubeconfig file: " d)
