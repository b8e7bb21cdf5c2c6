-- ===== src/Examples/Admission.antt =====
-- The theorems on new containers, at concrete values.
use ec_gcm.Common.{◌≡◌, refl, arith, none, some, hung, Returns}
use ec_gcm.Common.Map.{find}
use ec_gcm.AgentClientDb.{get_agent_client_by_ip}
use ec_gcm.SubContainer.{same_container, container_id}
use ec_gcm.SubContainer.Identity.{container_key}
use ec_gcm.Msg.{Msg}
use ec_gcm.Manager.Admission.{handle_add_cgroup_to_ec}
use ec_gcm.Manager.Admission.Laws.{
  IsAdmitted, newcomer, admission-IsAdmitted, admission_without_agent_hangs,
}
use ec_gcm.Examples.{
  plain_net, thousandths, willing, client, application, application-IsValid, manager,
}

-- The container 9 starts and asks for 20 ms.
abbrev hello : Msg
hello = record {
  client_ip = 1;
  cgroup_id = 9;
  req_type = 2;
  rsrc_amnt = 20_000_000;
  request = 0;
  runtime_remaining = 0;
  cpustat_seq_num = 0;
  sock_addr = 0;
}

node_known : get_agent_client_by_ip 1 manager.agents ≡ some client
unfolding get_agent_client_by_ip find
node_known = refl

node_unknown : get_agent_client_by_ip 2 manager.agents ≡ none
unfolding get_agent_client_by_ip find
node_unknown = refl

nine_unknown : find (container_id 9 1) application.sc_ac_map ≡ none
unfolding find same_container
nine_unknown = refl

admission-IsAdmitted_example :
    Returns
      (IsAdmitted client hello manager (newcomer 1000 hello 1 30 manager))
      (handle_add_cgroup_to_ec willing 1000 hello hello 1 30 manager)
admission-IsAdmitted_example =
    admission-IsAdmitted willing 1000 hello hello 1 30 manager client application-IsValid node_known
      nine_unknown

admission_without_agent_hangs_example :
    handle_add_cgroup_to_ec willing 1000 hello hello 2 30 manager ≡ hung
admission_without_agent_hangs_example =
    admission_without_agent_hangs willing 1000 hello hello 2 30 manager node_unknown (omega arith)
