-- ===== src/Json/CAdvisor.antt =====
-- What cAdvisor reports: cAdvisorFacade.cpp, with the functions of JSONFacade.cpp that ask for its
-- answers and read them. An exception is nothing.
pub mod Failure
use ec_gcm.Common.{
  ℕ, ◌+◌, ◌-◌, ◌^◌, ◌≡◌, ◌<◌, refl, sym, ap, ◌∙◌, Bool, true, false, String, Option, none, some,
  List, [], ◌∷◌, if◌then◌else◌, ◌==◌, back?, front?, arith, ok,
}
use Prim.Native.String.{◌++◌}
use text.Mathlib.Text.{◌==◌ as str_eq}
use ec_gcm.Json.{JsonLibrary}
use ec_gcm.Json.Config.{maybe}

-- How a GET request ends. The body of an answer that is not JSON throws what is not caught.
pub data Answer (Value : Type 0) : Type 0 where
  http_exception : Answer Value
  status_not_ok : Answer Value
  not_json : Answer Value
  body : Value → Answer Value

module _ ⦃json : JsonLibrary⦄ where
  open json use {Value, parse, serialize, is_null, at, as_array, as_object, to_uint64}

  -- `getJSONRequest`: the text of the answer, empty where there is none.
  unfoldable pub get_json_request : Answer Value → Option String
  get_json_request Answer.http_exception = some ""
  get_json_request Answer.status_not_ok = some ""
  get_json_request Answer.not_json = none
  get_json_request (Answer.body v) = if is_null v then some "" else some (serialize v)

  -- The first member of the answer, which is the container. An empty object has no first member: the
  -- source reads past its end, and there is no value here.
  abbrev first_member : String → Option Value
  first_member text =
      maybe (parse text)
        (λ v. maybe (as_object v) (λ members. maybe (front? members) (λ m. some (m.1))))

  unfoldable pub parse_cadvisor_response_specs : String → String → String → Option ℕ
  parse_cadvisor_response_specs text resource type = maybe (first_member text) (λ pod.
      maybe (at "spec" pod) (λ spec. maybe (at resource spec) (λ r. maybe (at type r) to_uint64)))

  -- The last of the samples.
  abbrev last_sample : String → Option Value
  last_sample text =
      maybe (first_member text)
        (λ pod. maybe (at "stats" pod) (λ stats. maybe (as_array stats) back?))

  unfoldable pub parse_cadvisor_cpu_response_stats : String → String → String → Option ℕ
  parse_cadvisor_cpu_response_stats text resource type = maybe (last_sample text) (λ last.
      maybe (at resource last) (λ r. maybe (at "cfs" r) (λ cfs. maybe (at type cfs) to_uint64)))

  unfoldable pub parse_cadvisor_response_stats : String → String → String → Option ℕ
  parse_cadvisor_response_stats text resource type =
      maybe (last_sample text) (λ last. maybe (at resource last) (λ r. maybe (at type r) to_uint64))

  unfoldable pub parse_cadvisor_machine_stats : String → String → Option ℕ
  parse_cadvisor_machine_stats text type =
      maybe (parse text)
        (λ machine. maybe (as_object machine) (λ _. maybe (at type machine) to_uint64))

  abbrev pub container_url : String → String → String
  container_url agent_ip docker_id = "http://" ++ agent_ip ++ ":8080/api/v1.3/docker/" ++ docker_id

  -- The value in an answer, and 0 for an empty one.
  abbrev pub read_answer : Answer Value → (String → Option ℕ) → Option ℕ
  read_answer answer f =
      maybe (get_json_request answer) (λ res. if str_eq res "" then some 0 else f res)

  module _ (http : String → Answer Value) where
    unfoldable pub get_cont_cpu_throttled_periods : String → String → Option ℕ
    get_cont_cpu_throttled_periods agent_ip docker_id =
        read_answer (http (container_url agent_ip docker_id))
          (λ res. parse_cadvisor_cpu_response_stats res "cpu" "throttled_periods")

    unfoldable pub get_cont_cpu_quota : String → String → Option ℕ
    get_cont_cpu_quota agent_ip docker_id =
        read_answer (http (container_url agent_ip docker_id))
          (λ res. parse_cadvisor_response_specs res "cpu" "quota")

    unfoldable pub get_cont_cpu_shares : String → String → Option ℕ
    get_cont_cpu_shares agent_ip docker_id =
        read_answer (http (container_url agent_ip docker_id))
          (λ res. parse_cadvisor_response_specs res "cpu" "limit")

    unfoldable pub get_cont_mem_limit : String → String → Option ℕ
    get_cont_mem_limit agent_ip docker_id =
        read_answer (http (container_url agent_ip docker_id))
          (λ res. parse_cadvisor_response_specs res "memory" "limit")

    unfoldable pub get_cont_mem_usage : String → String → Option ℕ
    get_cont_mem_usage agent_ip docker_id =
        read_answer (http (container_url agent_ip docker_id))
          (λ res. parse_cadvisor_response_stats res "memory" "usage")

    unfoldable pub get_machine_free_mem : String → Option ℕ
    get_machine_free_mem agent_ip =
        read_answer (http ("http://" ++ agent_ip ++ ":8080/api/v1.3/machine"))
          (λ res. parse_cadvisor_machine_stats res "memory_free")
