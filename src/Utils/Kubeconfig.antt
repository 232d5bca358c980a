-- ===== src/Utils/Kubeconfig.antt =====
-- The shoot's kubeconfig secret: utils.go, GetSecretShootIntegratedKubeconfigKey to
-- GetSecretShootIntegratedKubeconfig.
use backup_restore_openstack.Prelude.{
  String, Option, none, some, List, [], ◌∷◌, concat, if◌then◌else◌,
}
use backup_restore_openstack.Types.Meta.{NamespacedName, plain}
use backup_restore_openstack.Types.Lists.{Secret}
use backup_restore_openstack.Effects.{Kind, get, list, Answer, ok, err, M, pure, check, call, ◌>>=◌}
use backup_restore_openstack.Utils.Strings.{contains}

-- slices.IndexFunc, with the item at the index
unfoldable pub find_kubeconfig : List Secret → Option Secret
find_kubeconfig [] = none
find_kubeconfig (s ∷ ss) =
    if contains s.meta.name "user-integrated-kubeconfig" then some s else find_kubeconfig ss

key_of : String → Option Secret → Answer NamespacedName
key_of ns none =
    err (plain (concat ("secret user-integrated-kubeconfig does not exist in ns " ∷ ns ∷ [])))
key_of ns (some s) = ok (record { namespace = ns; name = s.meta.name })

unfoldable pub get_secret_shoot_integrated_kubeconfig_key : String → M (Answer NamespacedName)
unfolding find_kubeconfig key_of
get_secret_shoot_integrated_kubeconfig_key ns = do
  secrets ← call (list Kind.secret ns [])
  check secrets
      (λ e.
        pure (err (plain (concat ("unable to list secret in ns " ∷ ns ∷ ": " ∷ e.message ∷ [])))))
      (λ items. pure (key_of ns (find_kubeconfig items)))

unfoldable pub get_secret_shoot_integrated_kubeconfig_object : String → M (Answer Secret)
unfolding get_secret_shoot_integrated_kubeconfig_key
get_secret_shoot_integrated_kubeconfig_object ns = do
  key ← get_secret_shoot_integrated_kubeconfig_key ns
  check key (λ e. pure (err e))
      λ k. do
        secret ← call (get Kind.secret k)
        check secret
            (λ e. pure (
              err (
                plain (
                  concat (
                    "unable to get secret user-integrated-kubeconfig in ns " ∷ ns ∷ ": " ∷ e.message
                    ∷ [])))))
            (λ s. pure (ok s))

unfoldable pub get_secret_shoot_integrated_kubeconfig : String → M (Answer String)
unfolding get_secret_shoot_integrated_kubeconfig_object
get_secret_shoot_integrated_kubeconfig ns = do
  secret ← get_secret_shoot_integrated_kubeconfig_object ns
  check secret (λ e. pure (err e)) (λ s. pure (ok s.kubeconfig))
