-- ===== src/Examples/Files.antt =====
-- The theorems on the configuration file, on failed reports and on the leak, at concrete values.
use ec_gcm.Common.{
  ℕ, ◌+◌, ◌≡◌, refl, arith, true, false, some, none, Option, List, [], ◌∷◌, String, inl, ok,
  if◌then◌else◌,
}
use text.Mathlib.Text.{◌==◌ as str_eq}
use ec_gcm.Common.Map.{find}
use ec_gcm.SubContainer.{same_container, set_mem_limit_in_pages}
use ec_gcm.SubContainer.Identity.{container_key}
use ec_gcm.ElasticContainer.{store}
use ec_gcm.Manager.Memory.{reclaim}
use ec_gcm.Manager.Memory.Reclaim.{IsServed}
use ec_gcm.Manager.Report.{fix_leak}
use ec_gcm.Manager.Report.Leak.{fix_leak_overshoots}
use ec_gcm.Platform.{World}
use ec_gcm.Stats.GlobalCpu.{GlobalCpu}
use ec_gcm.Stats.GlobalCpu
use ec_gcm.Json.{JsonLibrary}
use ec_gcm.Json.CAdvisor.{Answer, get_json_request, get_cont_mem_usage}
use ec_gcm.Json.CAdvisor.Failure.{reclaim_unseen}
use ec_gcm.Json.Config.{Config, parse_file}
use ec_gcm.Json.Config.Reading.{IsRead, read_config, parse_file-IsRead}
use ec_gcm.Examples.{plain_net, thousandths, client, seven, application}

-- Values of two levels: a file holds one object, of texts, numbers and lists of texts.
data Doc : Type 0 where
  null : Doc
  words : String → Doc
  number : ℕ → Doc
  texts : List String → Doc
  file : Doc

member : String → Doc → Option Doc
member key Doc.null = none
member key (Doc.words s) = none
member key (Doc.number n) = none
member key (Doc.texts ss) = none
member key Doc.file =
    if str_eq key "name"
    then some (Doc.words "shop")
    else if str_eq key "agentIPs"
    then some (Doc.texts ("10.0.0.1" ∷ []))
    else if str_eq key "gcmIP"
    then some (Doc.words "10.0.0.9")
    else if str_eq key "tenants"
    then some (Doc.number 1)
    else if str_eq key "num_containers"
    then some (Doc.number 3)
    else none

abbrev as_docs : List String → List Doc
as_docs [] = []
as_docs (s ∷ ss) = Doc.words s ∷ as_docs ss

instance abbrev small_json : JsonLibrary
small_json = record {
  Value = Doc;
  parse = λ t. if str_eq t "{}" then some Doc.file else none;
  serialize = λ _. "{}";
  is_null = λ v. elim v [
    | null ↦ true
    | words s ↦ false
    | number n ↦ false
    | texts ss ↦ false
    | file ↦ false
  ];
  at = member;
  as_string = λ v. elim v [
    | null ↦ none
    | words s ↦ some s
    | number n ↦ none
    | texts ss ↦ none
    | file ↦ none
  ];
  as_integer = λ v. elim v [
    | null ↦ none
    | words s ↦ none
    | number n ↦ some n
    | texts ss ↦ none
    | file ↦ none
  ];
  as_array = λ v. elim v [
    | null ↦ none
    | words s ↦ none
    | number n ↦ none
    | texts ss ↦ some (as_docs ss)
    | file ↦ none
  ];
  as_object = λ v. none;
  to_uint64 = λ v. elim v [
    | null ↦ none
    | words s ↦ none
    | number n ↦ some n
    | texts ss ↦ none
    | file ↦ none
  ];
}

abbrev fresh : Config
fresh = record { app_name = ""; agent_ips = []; gcm_ip = ""; num_tenants = 0; num_containers = 0 }

parse_file-IsRead_example : IsRead (read_config "{}" fresh) (parse_file "{}" fresh)
parse_file-IsRead_example = parse_file-IsRead "{}" fresh

-- A world in which no report of cAdvisor comes.
abbrev unseen : World
unseen = record {
  quota_status = λ _ _ _. 0;
  resize_status = λ _ _ _. 0;
  usage_bytes = λ _ _. 0;
  limit_bytes = λ _ _. 0;
}

seven-IsServed : IsServed application 0 seven client
unfolding find same_container
seven-IsServed = record {
  queue = 0 ∷ [];
  entry = refl;
  last = refl;
  stored = refl;
  named = refl;
  known = refl;
}

no_usage : get_cont_mem_usage (λ _. Answer.http_exception) "10.0.0.1" "d7" ≡ some 0
unfolding get_cont_mem_usage get_json_request
no_usage = refl

reclaim_unseen_example :
    reclaim unseen seven.c_id 0 application
    ≡ ok (store 0 (set_mem_limit_in_pages 12_800 seven) application, 27_200)
reclaim_unseen_example =
    reclaim_unseen (λ _. Answer.http_exception) (λ _. "10.0.0.1") unseen 0 application seven client
      seven-IsServed (inl refl) no_usage (omega arith) (omega arith) refl

-- An application that has lost 600 ns.
abbrev short : GlobalCpu
short = record {
  slice_size = 5_000_000;
  unallocated_rt = 19_999_400;
  total_cpu = 100_000_000;
  overrun = 0;
  alloc_rt = 80_000_000;
}

short-IsValid : GlobalCpu.IsValid short
short-IsValid = record {
  slice_lt = omega arith;
  unallocated_lt = omega arith;
  total_lt = omega arith;
  overrun_lt = omega arith;
  alloc_lt = omega arith;
}

fix_leak_overshoots_example :
    let (fixed, left) = fix_leak 600 short in
    (fixed.alloc_rt + fixed.unallocated_rt ≡ 100_000_600) × (left ≡ 0)
fix_leak_overshoots_example =
    fix_leak_overshoots 600 600 short short-IsValid (omega arith) (omega arith)
