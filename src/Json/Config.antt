-- ===== src/Json/Config.antt =====
-- The configuration file: `parseFile` of JSONFacade.cpp. An exception ends the parsing and is caught
-- there; the fields that were set before it stay set. The other parts of the class, which nothing
-- calls, are in `Unused`.
pub mod Reading
pub mod Unused
use ec_gcm.Common.{
  ℕ, ◌≡◌, ◌∙◌, refl, sym, ap, Bool, true, false, String, Option, none, some, List, [], ◌∷◌, ◌++◌,
  if◌then◌else◌, arith, Bool-cases, Option-cases, inl, inr,
}
use mathlib.Core.Path.{subst}
use mathlib.Core.List.{append-nil, append_assoc}
use ec_gcm.Json.{JsonLibrary}

-- The fields that `parseFile` sets.
pub record Config : Type 0 where
  pub app_name : String
  pub agent_ips : List String
  pub gcm_ip : String
  pub num_tenants : ℕ
  pub num_containers : ℕ

-- One accessor after another.
abbrev pub maybe {ℓ κ} : {A : Type ℓ} {B : Type κ} → Option A → (A → Option B) → Option B
maybe none f = none
maybe (some a) f = f a

-- The fields, and whether an exception was thrown.
abbrev pub Parsing : Type 0
Parsing = Config × Bool

module _ ⦃json : JsonLibrary⦄ where
  open json use {Value, parse, is_null, at, as_string, as_integer, as_array}

  -- `_val.at(key).as_string()` and `_val.at(key).as_integer()`.
  abbrev pub string_at : String → Value → Option String
  string_at key v = maybe (at key v) as_string

  abbrev pub integer_at : String → Value → Option ℕ
  integer_at key v = maybe (at key v) as_integer

  abbrev pub array_at : String → Value → Option (List Value)
  array_at key v = maybe (at key v) as_array

  -- A field is set from a value, or an exception is thrown.
  abbrev pub assign {ℓ} : {A : Type ℓ} → Option A → (A → Config → Config) → Config → Parsing
  assign none set c = (c, true)
  assign (some a) set c = (set a c, false)

  -- The next part runs unless an exception was thrown.
  abbrev pub and_then : Parsing → (Config → Parsing) → Parsing
  and_then (c, threw) next = if threw then (c, true) else next c

  unfoldable pub parse_app_name : Value → Config → Parsing
  parse_app_name v c =
      if is_null v
      then (c, false)
      else assign (string_at "name" v) (λ name old. record old { app_name = name }) c

  -- The addresses are appended one by one.
  unfoldable pub push_all : List Value → Config → Parsing
  push_all [] c = (c, false)
  push_all (v ∷ vs) c = elim (as_string v) [
    | none ↦ (c, true)
    | some ip ↦ push_all vs (record c { agent_ips = c.agent_ips ++ ip ∷ [] })
  ]

  unfoldable pub parse_ip_addresses : Value → Config → Parsing
  parse_ip_addresses v c =
      if is_null v
      then (c, false)
      else elim (array_at "agentIPs" v) [ none ↦ (c, true) | some ips ↦ push_all ips c ]

  unfoldable pub parse_gcm_ip_address : Value → Config → Parsing
  parse_gcm_ip_address v c =
      if is_null v
      then (c, false)
      else assign (string_at "gcmIP" v) (λ ip old. record old { gcm_ip = ip }) c

  unfoldable pub parse_num_tenants : Value → Config → Parsing
  parse_num_tenants v c =
      if is_null v
      then (c, false)
      else assign (integer_at "tenants" v) (λ n old. record old { num_tenants = n }) c

  unfoldable pub parse_num_containers : Value → Config → Parsing
  parse_num_containers v c =
      if is_null v
      then (c, false)
      else assign (integer_at "num_containers" v) (λ n old. record old { num_containers = n }) c

  -- The five parts of `parseFile`, on the value of the file.
  unfoldable pub parse_fields : Value → Config → Parsing
  parse_fields v c =
      and_then
        (and_then
          (and_then (and_then (parse_app_name v c) (parse_ip_addresses v)) (parse_gcm_ip_address v))
          (parse_num_tenants v))
        (parse_num_containers v)

  -- The text is what the file holds, or empty if it cannot be read. The flag is true where the source
  -- returns -1.
  unfoldable pub parse_file : String → Config → Config × Bool
  parse_file text c = elim (parse text) [ none ↦ (c, true) | some v ↦ parse_fields v c ]
