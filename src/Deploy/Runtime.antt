-- ===== src/Deploy/Runtime.antt =====
-- deploy/deploy.go: where a service runs, and its status.
use chassis_go.Prelude.{
  ℕ, Bool, false, ◌==◌, ◌||◌, text_comparable, text, is_empty, Option, none, some, List, [], ◌∷◌,
  if◌then◌else◌,
}
use chassis_go.Deploy.{Texts, Deploy, System, EnvBlock, Endpoint, getenv, deploy_file}
use chassis_go.Deploy.Content.{endpoints, spec}

-- `Environment`.
pub record Environment : Type 0 where
  pub runtime : List ℕ
  pub hostname : List ℕ
  pub service : List ℕ
  pub block : EnvBlock
  pub namespace : List ℕ
  pub pod_name : List ℕ

-- `HealthStatus`, less the uptime; the endpoints are none for nil.
pub record HealthStatus : Type 0 where
  pub service : List ℕ
  pub version : List ℕ
  pub chassis_spec : List ℕ
  pub runtime : List ℕ
  pub environment : List ℕ
  pub endpoints : Option (List (List ℕ × Endpoint))
  pub components : List (List ℕ × List ℕ)

abbrev pub no_block : EnvBlock
no_block = record { env = []; provider = []; region = []; cluster = [] }

-- `if v := os.Getenv(key); v != "" { field = v }`.
pub override : List ℕ → Texts → List ℕ → List ℕ
override key env value = let v = getenv key env in if is_empty v then value else v

pub overrides : Texts → EnvBlock → EnvBlock
unfolding override
overrides env block = record {
  env = override (text "CHASSIS_ENV") env block.env;
  provider = override (text "CHASSIS_PROVIDER") env block.provider;
  region = override (text "CHASSIS_REGION") env block.region;
  cluster = override (text "CHASSIS_CLUSTER") env block.cluster;
}

or_empty : Option (List ℕ) → List ℕ
or_empty none = []
or_empty (some s) = s

or_no_block : Option EnvBlock → EnvBlock
or_no_block none = no_block
or_no_block (some block) = block

module _ (sys : System) where
  contains_one : List ℕ → List (List ℕ) → Bool
  contains_one s [] = false
  contains_one s (t ∷ ts) = sys.contains s t || contains_one s ts

  in_container : Option (List ℕ) → Bool
  unfolding contains_one
  in_container none = false
  in_container (some content) =
      contains_one (sys.to_lower content) (text "docker" ∷ text "containerd" ∷ text "podman" ∷ [])

  in_vm : Option (List ℕ) → Bool
  unfolding contains_one
  in_vm none = false
  in_vm (some product) = contains_one (sys.to_lower (sys.trim_space product)) (
      text "virtualbox"
      ∷ text "vmware"
      ∷ text "qemu"
      ∷ text "kvm"
      ∷ text "xen"
      ∷ text "hyper-v"
      ∷ [])

  -- `detectRuntime`.
  pub detect_runtime : Texts → List ℕ
  unfolding in_container in_vm
  detect_runtime env =
      if is_empty (getenv (text "KUBERNETES_SERVICE_HOST") env)
      then (if sys.exists (text "/.dockerenv")
            || in_container (sys.read_file (text "/proc/1/cgroup"))
          then text "container"
          else if in_vm (sys.read_file (text "/sys/class/dmi/id/product_name"))
              || sys.exists (text "/sys/hypervisor/type")
          then text "vm"
          else text "bare-metal")
      else text "kubernetes"

  block_of : Option (List ℕ) → EnvBlock
  unfolding or_no_block
  block_of none = no_block
  block_of (some content) = or_no_block (sys.json_env content)

  namespace_of : Option (List ℕ) → List ℕ
  namespace_of none = []
  namespace_of (some s) = sys.trim_space s

  -- The method `Environment`.
  pub environment : Deploy → Texts → Environment
  unfolding detect_runtime overrides block_of namespace_of or_empty
  environment d env =
      let runtime = detect_runtime env in
      let inside = runtime == text "kubernetes" in
      let file = text "/var/run/secrets/kubernetes.io/serviceaccount/namespace" in
      record {
        runtime = runtime;
        hostname = or_empty sys.hostname;
        service = d.name;
        block = overrides env (block_of (deploy_file sys d (text "deploy.json")));
        namespace = if inside then namespace_of (sys.read_file file) else [];
        pod_name = if inside then getenv (text "HOSTNAME") env else [];
      }

  -- The version of `Meta`.
  pub version_of : Deploy → List ℕ
  unfolding or_empty
  version_of d = elim (deploy_file sys d (text "deploy.json")) [
    | none ↦ []
    | some content ↦ or_empty (sys.json_version content)
  ]

  -- The method `Health`.
  pub health : Deploy → Texts → List (List ℕ × List ℕ) → HealthStatus
  unfolding environment version_of
  health d env components =
      let eps = endpoints sys d in
      record {
        service = d.name;
        version = version_of d;
        chassis_spec = spec sys d;
        runtime = (environment d env).runtime;
        environment = (environment d env).block.env;
        endpoints = if is_empty eps then none else some eps;
        components = components;
      }
