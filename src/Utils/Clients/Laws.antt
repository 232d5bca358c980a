-- ===== src/Utils/Clients/Laws.antt =====
-- Which kubeconfig a client is made from.
use backup_restore_openstack.Prelude.{
  String, eq_refl, ◌≡◌, ◌∙◌, sym, ◌↔◌, ◌≢◌, refl, Option, none, some, [], ◌∷◌, concat, arith,
}
use backup_restore_openstack.Prelude.Dict.{lookup, insert, lookup-insert}
use backup_restore_openstack.Types.Meta.{Error, plain}
use backup_restore_openstack.Effects.{Answer, ok, err, check, unless}
use backup_restore_openstack.Utils.Clients.{
  Disk, Os, fatal, open_client, shoot_path, create_shoot_kube_client, dynamic_path,
  create_dynamic_kube_client,
}

lookup_inserted : (k v : String) (d : Disk) → lookup k (insert k v d) ≡ some v
lookup_inserted k v d = ground (arith, lookup-insert k k v d, eq_refl k)

module _ {Config Client : Type 0} (os : Os) (build_config : Option String → Answer Config)
    (new_for_config : Config → Answer Client) where
  -- the client is made from the text alone
  abbrev pub IsFor : String → Client → Type 0
  IsFor text c =
      (config : Config) × (build_config (some text) ≡ ok config) × (new_for_config config ≡ ok c)

  client_iff :
      (f : Error → Error) (left : Disk) (text : String) (config : Config) (c : Client)
      (a : Answer Client)
      → build_config (some text) ≡ ok config
      → new_for_config config ≡ a
      → ((check {B = Answer Client × Disk} a
            (λ e. (err (f e), left))
            (λ client. (ok client, left))).0
          ≡ ok c)
        ↔ IsFor text c
  unfolding check
  client_iff f left text config c (ok client) b n =
      (λ k. (config, b, n ∙ k), λ (other, b', n'). let same = sym b ∙ b' in cc)
  client_iff f left text config c (err e) b n =
      (λ k. cc, λ (other, b', n'). let same = sym b ∙ b' in cc)

  config_iff :
      (f g : Error → Error) (left : Disk) (text : String) (c : Client) (a : Answer Config)
      → build_config (some text) ≡ a
      → ((check {B = Answer Client × Disk} a
            (λ e. (err (f e), left))
            (λ config.
              check
                (new_for_config config)
                (λ e. (err (g e), left))
                (λ client. (ok client, left)))).0
          ≡ ok c)
        ↔ IsFor text c
  unfolding check
  config_iff f g left text c (ok config) b =
      client_iff g left text config c (new_for_config config) b refl
  config_iff f g left text c (err e) b = (λ k. cc, λ (config, b', n'). cc)

  open_client_iff :
      (path text message : String) (d : Disk) (c : Client) (e : Option Error)
      → os.write_error d path ≡ e
      → ((open_client os build_config new_for_config path text message d).0 ≡ ok c)
        ↔ ((e ≡ none) × IsFor text c)
  unfolding open_client
  open_client_iff path text message d c none w =
      rw (w, lookup_inserted path text d)
        (let both =
            config_iff
              (λ e.
                plain
                  (concat ("unable to build shoot config from kubeconfig file: " ∷ e.message ∷ [])))
              (λ e. plain (concat (message ∷ e.message ∷ []))) (insert path text d) text c
              (build_config (some text)) refl in
          (λ k. (refl, both.0 k), λ k. both.1 k.1))
  open_client_iff path text message d c (some x) w = rw w (λ k. cc, λ k. cc)

  guarded_iff :
      (e : Option Error) (f : Error → Answer Client) (path text message : String) (d : Disk)
      (c : Client)
      → ((x : Error) → f x ≢ ok c)
      → ((unless e
            (λ x. (f x, d))
            (open_client os build_config new_for_config path text message d)).0
          ≡ ok c)
        ↔ ((e ≡ none) × ((os.write_error d path ≡ none) × IsFor text c))
  unfolding unless
  guarded_iff none f path text message d c n =
      let opened = open_client_iff path text message d c _ refl in
      (λ k. (refl, opened.0 k), λ k. opened.1 k.1)
  guarded_iff (some x) f path text message d c n = (λ k. absurd (n x k), λ k. cc)

  pub kube_clients-IsFor :
      (text cluster : String) (d : Disk) (c : Client)
      → (((create_shoot_kube_client os build_config new_for_config text cluster d).0 ≡ ok c) ↔ (
          (fatal (os.mkdir_error d (os.dir (shoot_path os cluster))) ≡ none)
          × ((os.write_error d (shoot_path os cluster) ≡ none) × IsFor text c)))
        × (((create_dynamic_kube_client os build_config new_for_config text cluster d).0 ≡ ok c) ↔ (
            (os.mkdir_error d (os.dir "/tmp/kubeconfig/") ≡ none)
            × ((os.write_error d (dynamic_path os cluster) ≡ none) × IsFor text c)))
  unfolding create_shoot_kube_client create_dynamic_kube_client
  kube_clients-IsFor text cluster d c = (
    guarded_iff (fatal (os.mkdir_error d (os.dir (shoot_path os cluster)))) err _ text _ d c
        (λ x k. cc),
    guarded_iff (os.mkdir_error d (os.dir "/tmp/kubeconfig/")) _ _ text _ d c (λ x k. cc),
  )
