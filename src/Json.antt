-- ===== src/Json.antt =====
-- jsonSDK/src/JSONFacade.cpp and cAdvisorSDK/src/cAdvisorFacade.cpp: the configuration file, and what
-- cAdvisor reports. The JSON values are those of cpprestsdk, a parameter: an accessor gives nothing
-- where the library throws, as `at` does for a value that is not an object or lacks the member.
pub mod Config
pub mod CAdvisor
use ec_gcm.Common.{ℕ, Bool, String, Option, List}

pub record JsonLibrary : Type 1 where
  pub Value : Type 0
  pub parse : String → Option Value
  pub serialize : Value → String
  pub is_null : Value → Bool
  pub at : String → Value → Option Value
  pub as_string : Value → Option String
  pub as_integer : Value → Option ℕ
  pub as_array : Value → Option (List Value)
  pub as_object : Value → Option (List (String × Value))
  pub to_uint64 : Value → Option ℕ
