-- ===== src/Json/Config/Unused.antt =====
-- The parts of JSONFacade.cpp that read other fields, the resources of a pod, and the answers of the
-- cluster's API. An exception is nothing, and leaves what was set before it.
use ec_gcm.Common.{
  ℕ, Bool, true, false, String, Option, none, some, List, [], ◌∷◌, ◌++◌, if◌then◌else◌, widen,
}
use text.Mathlib.Text.{◌==◌ as str_eq}
use ec_gcm.Common.Map.{find, insert}
use ec_gcm.Json.{JsonLibrary}
use ec_gcm.Json.Config.{maybe, string_at, array_at}
use ec_gcm.Deployer.{docker_key}

module _ ⦃json : JsonLibrary⦄ where
  open json use {Value, parse, is_null, at, as_string, as_integer, as_object, as_array}

  -- The names after a part that appends them, and whether an exception was thrown.
  unfoldable pub push_strings : List Value → List String → List String × Bool
  push_strings [] names = (names, false)
  push_strings (v ∷ vs) names = elim (as_string v) [
    | none ↦ (names, true)
    | some name ↦ push_strings vs (names ++ name ∷ [])
  ]

  abbrev push_member : String → Value → List String → List String × Bool
  push_member key v names =
      if is_null v
      then (names, false)
      else elim (array_at key v) [ none ↦ (names, true) | some vs ↦ push_strings vs names ]

  unfoldable pub parse_app_images : Value → List String → List String × Bool
  parse_app_images v names = push_member "images" v names

  unfoldable pub parse_pod_names : Value → List String → List String × Bool
  parse_pod_names v names = push_member "pod-names" v names

  -- `_specs`; a name that is there keeps its value. A null value is not looked for here.
  abbrev Specs : Type 0
  Specs = List (String × ℕ)

  unfoldable pub insert_specs : List (String × Value) → Specs → Specs × Bool
  insert_specs [] specs = (specs, false)
  insert_specs ((name, v) ∷ members) specs = elim (as_integer v) [
    | none ↦ (specs, true)
    | some n ↦ insert_specs members (insert name (widen n) specs)
  ]

  unfoldable pub parse_specs : Value → Specs → Specs × Bool
  parse_specs v specs = elim (maybe (at "specs" v) as_object) [
    | none ↦ (specs, true)
    | some members ↦ insert_specs members specs
  ]

  abbrev spec_or_zero : String → Specs → ℕ
  spec_or_zero name specs = elim (find name specs) [ none ↦ 0 | some n ↦ n ]

  unfoldable pub get_mem : Specs → ℕ
  get_mem specs = spec_or_zero "mem" specs

  unfoldable pub get_cpu : Specs → ℕ
  get_cpu specs = spec_or_zero "cpu" specs

  unfoldable pub get_ports : Specs → ℕ
  get_ports specs = spec_or_zero "ports" specs

  unfoldable pub get_net : Specs → ℕ
  get_net specs = spec_or_zero "net" specs

  unfoldable pub get_nodes_from_response : String → List String → Option (List String)
  get_nodes_from_response text nodes = maybe (parse text) (λ v.
      maybe (at "spec" v)
        (λ spec. maybe (string_at "nodeName" spec) (λ name. some (nodes ++ name ∷ []))))

  -- The last address of the type.
  unfoldable pub internal_ip : List Value → String → Option String
  internal_ip [] ip = some ip
  internal_ip (v ∷ vs) ip = maybe (string_at "type" v) (λ type.
      if str_eq type "InternalIP"
      then maybe (string_at "address" v) (internal_ip vs)
      else internal_ip vs ip)

  unfoldable pub get_node_ip_from_response : String → String → Option String
  get_node_ip_from_response text ip = maybe (parse text) (λ v.
      maybe (at "status" v)
        (λ status. maybe (array_at "addresses" status) (λ addresses. internal_ip addresses ip)))

  unfoldable pub get_pod_status_from_response : String → Option String
  get_pod_status_from_response text =
      maybe (parse text) (λ v. maybe (at "status" v) (string_at "phase"))
