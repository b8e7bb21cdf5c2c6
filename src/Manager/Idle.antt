-- ===== src/Manager/Idle.antt =====
-- `Manager::check_for_idle_containers`: one round over the containers, at time `now`.
pub mod Laws
use ec_gcm.Common.{
  ℕ, ◌+◌, List, [], ◌∷◌, if◌then◌else◌, ◌==◌, sub64, add32, back?, Outcome, ok, or_fault, ◌>>=◌,
}
use ec_gcm.Platform.{Double, Net, World}
use ec_gcm.SubContainer.{ContainerId, SubContainer, check_if_idle}
use ec_gcm.ElasticContainer.{ElasticContainer, SubcontainerMap, store}
use ec_gcm.EcApi.{QuotaCall}
use ec_gcm.Manager.{Manager}
use ec_gcm.Manager.Cpu.{Session, take_back, resize}

abbrev pub min_quota : ℕ
min_quota = 30_000_000

module _ ⦃d : Double⦄ ⦃net : Net⦄ where
  -- The call for an idle container whose quota is another; the sequence number goes up with it.
  unfoldable pub lower_to_min : World → ℕ → ℕ → SubContainer → Manager → Outcome (Manager × ℕ)
  lower_to_min world p seq sc m = do
    let idle_quota = sc.cpu.quota
    s ←
        resize world seq min_quota (take_back (sub64 idle_quota min_quota) min_quota)
          (record { ec = m.ec; sc = sc; sent = m.sent })
    ok (record m { ec = store p s.sc s.ec; sent = s.sent }, add32 seq 1)

  unfoldable pub check_one : World → ℕ → ℕ → ℕ → Manager → Outcome (Manager × ℕ)
  check_one world now p seq m = do
    sc ← or_fault (m.ec.heap p)
    if check_if_idle now sc
        then (if sc.cpu.quota == min_quota then ok (m, seq) else lower_to_min world p seq sc m)
        else ok (m, seq)

  unfoldable pub check_all : World → ℕ → SubcontainerMap → ℕ → Manager → Outcome (Manager × ℕ)
  check_all world now [] seq m = ok (m, seq)
  check_all world now ((id, q) ∷ entries) seq m = do
    p ← or_fault (back? q)
    r ← check_one world now p seq m
    check_all world now entries r.1 r.0

  unfoldable pub check_for_idle_containers : World → ℕ → ℕ → Manager → Outcome (Manager × ℕ)
  check_for_idle_containers world now seq m = check_all world now m.ec.subcontainers seq m
