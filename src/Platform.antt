-- ===== src/Platform.antt =====
-- What the program takes from elsewhere, as parameters: the `double` arithmetic of the machine, the
-- addresses of libom2 (om.h, a vendored library), and the answers of the agents and of cAdvisor.
use ec_gcm.Common.{ℕ, ◌≡◌, Bool, true, String}

-- A `double` is its 64-bit pattern. `of_u64` and `of_i64` convert from an integer, `to_u64` back,
-- and `decimal m e` is the literal m * 10 ^ -e.
pub record Double : Type 0 where
  pub of_u64 : ℕ → ℕ
  pub of_i64 : ℕ → ℕ
  pub to_u64 : ℕ → ℕ
  pub decimal : ℕ → ℕ → ℕ
  pub sum : ℕ → ℕ → ℕ
  pub diff : ℕ → ℕ → ℕ
  pub prod : ℕ → ℕ → ℕ
  pub quot : ℕ → ℕ → ℕ
  pub lt : ℕ → ℕ → Bool
  pub le : ℕ → ℕ → Bool

-- An `ip4_addr` is the 32-bit word that it holds. `same` is its `operator==`, an equivalence.
pub record Net : Type 0 where
  pub from_net : ℕ → ℕ
  pub from_host : ℕ → ℕ
  pub from_string : String → ℕ
  pub to_uint32 : ℕ → ℕ
  pub same : ℕ → ℕ → Bool
  pub same_refl : (a : ℕ) → same a a ≡ true
  pub same_sym : (a b : ℕ) → same a b ≡ true → same b a ≡ true
  pub same_trans : (a b c : ℕ) → same a b ≡ true → same b c ≡ true → same a c ≡ true

-- What the world outside answers while one request is handled: the status codes of the two agent
-- calls (agent, cgroup, amount), and the bytes that cAdvisor reports (agent, docker id).
pub record World : Type 0 where
  pub quota_status : ℕ → ℕ → ℕ → ℕ
  pub resize_status : ℕ → ℕ → ℕ → ℕ
  pub usage_bytes : ℕ → String → ℕ
  pub limit_bytes : ℕ → String → ℕ
