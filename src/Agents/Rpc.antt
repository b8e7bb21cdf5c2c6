-- ===== src/Agents/Rpc.antt =====
-- Agents/AgentClient.cpp and AgentClient.h: the calls of one agent. What gRPC does with a call is a
-- parameter: what its object holds when it is read. A call that is not answered yet has the status
-- OK and a reply of zeroes, as gRPC documents it; each `AsyncComplete` thread only logs a call and
-- frees it.
use ec_gcm.Common.{
  ℕ, ◌%◌, ◌^◌, Bool, false, not, String, List, [], ◌∷◌, if◌then◌else◌, ◌==◌, Outcome, widen, ok,
  hung, fault,
}

-- The status and the reply in the object of a call.
pub record Seen : Type 0 where
  pub status_code : ℕ
  pub reply : ℕ

-- `ContainerQuotaRequest`. The two `int32_t` are patterns.
pub record ContainerQuotaRequest : Type 0 where
  pub cgroup_id : ℕ
  pub new_quota : ℕ
  pub resize_flag : String
  pub sequence_num : ℕ

-- The request that is sent, and the status that the new call holds when it is read, at once.
unfoldable pub update_container_quota :
    (ContainerQuotaRequest → Seen) → ℕ → ℕ → String → ℕ → ContainerQuotaRequest × ℕ
update_container_quota started cgroup_id new_quota change seq_num =
    let request : ContainerQuotaRequest = record {
      cgroup_id = cgroup_id % 2 ^ 32;
      new_quota = new_quota % 2 ^ 64;
      resize_flag = change;
      sequence_num = seq_num % 2 ^ 32;
    } in
    (request, (started request).status_code)

-- `AsyncCompleteRpcQuota`, for one finished call: whether its answer is for another request.
unfoldable pub complete_quota : ContainerQuotaRequest → Seen → Bool
complete_quota request seen =
    if seen.status_code == 0 then not (seen.reply == request.sequence_num) else false

-- What `cq_resize_mem_.Next` returns: there is an event, or the queue is shut down; with what the
-- object of the call holds then.
pub data Next : Type 0 where
  event : Seen → Next
  shut_down : Seen → Next

-- The loop once the call has been freed: its status is read again after the next event, and its reply
-- when the queue is shut down.
unfoldable pub after_delete : List Next → Outcome ℕ
after_delete [] = hung
after_delete (_ ∷ _) = fault

-- The loop of `resizeMemoryLimitPages`, over what the queue returns; when it returns nothing more,
-- the caller waits without end.
unfoldable pub resize_memory_limit_pages : List Next → Outcome ℕ
resize_memory_limit_pages [] = hung
resize_memory_limit_pages (Next.event seen ∷ rest) =
    if seen.status_code == 0 then ok (widen seen.reply) else after_delete rest
resize_memory_limit_pages (Next.shut_down seen ∷ rest) = ok (widen seen.reply)

-- `getMemoryUsageBytes` and `getMemoryLimitBytes` read the reply of the new call at once.
unfoldable pub get_memory_usage_bytes : (ℕ → Seen) → ℕ → ℕ
get_memory_usage_bytes started cgroup_id = (started (cgroup_id % 2 ^ 32)).reply

unfoldable pub get_memory_limit_bytes : (ℕ → Seen) → ℕ → ℕ
get_memory_limit_bytes started cgroup_id = (started (cgroup_id % 2 ^ 32)).reply
