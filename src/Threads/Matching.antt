-- ===== src/Threads/Matching.antt =====
-- The calls of `ReportPodSpec` that wait for a container, in the threads of the gRPC server, next to the
-- registration of containers. All wait for one condition variable, `cv`, each with a predicate on its
-- own container, and a registration wakes one of them.
pub mod Wakeups
use ec_gcm.Common.{ℕ, ◌≡◌, ◌≢◌, String, some, ◌==◌, if◌then◌else◌, Outcome, ok, ◌>>=◌}
use ec_gcm.Common.Map.{contains}
use ec_gcm.Platform.{Net}
use ec_gcm.Agents.{AgentClient}
use ec_gcm.SubContainer.{ContainerId, SubContainer}
use ec_gcm.SubContainer.Identity.{container_key}
use ec_gcm.ElasticContainer.{ElasticContainer}
use ec_gcm.Manager.Admission.{link}
use ec_gcm.Deployer.{match_docker_id}

-- Where a call stands in `scIdToDockerIdMatcherThread`.
pub data Waiter : Type 0 where
  absent : Waiter
  asleep : ContainerId → (docker_id : String) → Waiter
  woken : ContainerId → (docker_id : String) → Waiter
  matched : Waiter

-- The application, and the calls.
pub record Service : Type 0 where
  pub ec : ElasticContainer
  pub waiter : ℕ → Waiter

abbrev pub turn_to : ℕ → Waiter → (ℕ → Waiter) → ℕ → Waiter
turn_to i w f j = if i == j then w else f j

abbrev pub nobody : ℕ → Waiter
nobody _ = absent

module _ ⦃net : Net⦄ where
  -- What a call does while it holds `cv_mtx`: the predicate, and the rest of the thread if it holds.
  unfoldable pub check :
      ContainerId → String → ElasticContainer → Outcome (ElasticContainer × Waiter)
  check id docker_id ec =
      if contains id ec.sc_ac_map
      then (do ec' ← match_docker_id id docker_id ec; ok (ec', matched))
      else ok (ec, asleep id docker_id)

  -- `notify_one`: any of the calls that are asleep, if there is one.
  pub data Notified (f : ℕ → Waiter) : (ℕ → Waiter) → Type 0 where
    one :
        (i : ℕ) (id : ContainerId) (docker_id : String)
        → f i ≡ asleep id docker_id
        → Notified f (turn_to i (woken id docker_id) f)
    none_asleep :
        ((i : ℕ) (id : ContainerId) (docker_id : String) → f i ≢ asleep id docker_id) → Notified f f

  -- One step under `cv_mtx`. A registration is that of `handle_add_cgroup_to_ec`. A call can also wake
  -- by itself, as a condition variable allows.
  pub data Step (s : Service) : Service → Type 0 where
    announce :
        (i : ℕ) (id : ContainerId) (docker_id : String) (ec : ElasticContainer) (w : Waiter)
        → s.waiter i ≡ absent
        → check id docker_id s.ec ≡ ok (ec, w)
        → Step s (record { ec = ec; waiter = turn_to i w s.waiter })
    resume :
        (i : ℕ) (id : ContainerId) (docker_id : String) (ec : ElasticContainer) (w : Waiter)
        → s.waiter i ≡ woken id docker_id
        → check id docker_id s.ec ≡ ok (ec, w)
        → Step s (record { ec = ec; waiter = turn_to i w s.waiter })
    register :
        (p : ℕ) (sc : SubContainer) (ac : AgentClient) (f : ℕ → Waiter)
        → Notified s.waiter f
        → Step s (record { ec = (link p sc (some ac) s.ec).0; waiter = f })
    spurious :
        (i : ℕ) (id : ContainerId) (docker_id : String)
        → s.waiter i ≡ asleep id docker_id
        → Step s (record s { waiter = turn_to i (woken id docker_id) s.waiter })

  pub data Steps (s : Service) : Service → Type 0 where
    here : Steps s s
    onward : {t u : Service} → Steps s t → Step t u → Steps s u

  -- The steps that neither register a container nor wake a call for nothing, and runs of these.
  abbrev pub IsCalm : {s t : Service} → Step s t → Type 0
  IsCalm (announce i id docker_id ec w e c) = Unit
  IsCalm (resume i id docker_id ec w e c) = Unit
  IsCalm (register p sc ac f n) = ⊥
  IsCalm (spurious i id docker_id e) = ⊥

  pub data Calm (s : Service) : Service → Type 0 where
    rest : Calm s s
    onward : {t u : Service} → Calm s t → (x : Step t u) → IsCalm x → Calm s u
