-- ===== src/SubContainer/Identity.antt =====
-- Container ids as keys: `operator==` is an equivalence that forgets the docker id.
use ec_gcm.Common.{ℕ, ◌≡◌, ◌≤◌, ◌+◌, ◌↔◌, true, arith, String}
use ec_gcm.Common.Map.{Key}
use ec_gcm.Platform.{Net}
use ec_gcm.SubContainer.{
  ContainerId, SubContainer, same_container, set_docker_id, check_if_idle, update_last_seen_ts,
}

module _ ⦃net : Net⦄ where
  pub same_container_refl : (a : ContainerId) → same_container a a ≡ true
  unfolding same_container
  same_container_refl a = ground (arith, net.same_refl a.server_ip)

  pub same_container_sym :
      (a b : ContainerId) → same_container a b ≡ true → same_container b a ≡ true
  unfolding same_container
  same_container_sym a b h = ground (arith, net.same_sym a.server_ip b.server_ip)

  pub same_container_trans :
      (a b c : ContainerId)
      → same_container a b ≡ true
      → same_container b c ≡ true
      → same_container a c ≡ true
  unfolding same_container
  same_container_trans a b c h k =
      ground (arith, net.same_trans a.server_ip b.server_ip c.server_ip)

  instance abbrev pub container_key : Key ContainerId
  container_key = record {
    beq = same_container;
    beq_refl = same_container_refl;
    beq_sym = same_container_sym;
    beq_trans = same_container_trans;
  }

  -- Giving a container its docker id leaves it under the key under which it was stored.
  pub same_container-set_docker_id :
      (docker_id : String) (sc : SubContainer)
      → same_container sc.c_id (set_docker_id docker_id sc).c_id ≡ true
  unfolding same_container set_docker_id
  same_container-set_docker_id docker_id sc = ground (arith, net.same_refl sc.c_id.server_ip)

-- A container is idle exactly when more than two seconds, and at least one microsecond more, have
-- gone by since it was last seen.
pub check_if_idle_iff :
    (now later : ℕ) (sc : SubContainer)
    → (check_if_idle later (update_last_seen_ts now sc) ≡ true) ↔ (now + 2_000_001_000 ≤ later)
unfolding check_if_idle update_last_seen_ts
check_if_idle_iff now later sc = ground arith
