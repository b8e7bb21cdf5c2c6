-- ===== src/Json/Config/Reading.antt =====
-- What `parseFile` reads: its parts next to a reader of the whole file.
mod Parts
use ec_gcm.Common.{
  ◌≡◌, refl, true, false, String, Option, none, some, if◌then◌else◌, Bool-cases, inl, inr,
}
use ec_gcm.Json.{JsonLibrary}
use mathlib.Core.Path.{subst}
use ec_gcm.Json.Config.{
  Config, maybe, string_at, integer_at, array_at, parse_app_name, parse_ip_addresses,
  parse_gcm_ip_address, parse_num_tenants, parse_num_containers, parse_fields, parse_file,
}
pub use ec_gcm.Json.Config.Reading.Parts.{strings, fields, read_config, IsRead}
use ec_gcm.Json.Config.Reading.Parts.{
  and_then-IsRead, staged, parse_ip_addresses-IsRead, parse_app_name-IsRead,
  parse_gcm_ip_address-IsRead, parse_num_tenants-IsRead, parse_num_containers-IsRead,
}

module _ ⦃json : JsonLibrary⦄ where
  open json use {Value, parse, is_null, at, as_string, as_integer, as_array}

  -- No part sets anything for `null`.
  null_skipped :
      (v : Value) (c : Config)
      → is_null v ≡ true
      → (parse_app_name v c ≡ (c, false))
        × (parse_ip_addresses v c ≡ (c, false))
        × (parse_gcm_ip_address v c ≡ (c, false))
        × (parse_num_tenants v c ≡ (c, false))
        × (parse_num_containers v c ≡ (c, false))
  unfolding parse_app_name parse_ip_addresses parse_gcm_ip_address parse_num_tenants
      parse_num_containers
  null_skipped v c n = (
    rw (n, parse_app_name) refl,
    rw (n, parse_ip_addresses) refl,
    rw (n, parse_gcm_ip_address) refl,
    rw (n, parse_num_tenants) refl,
    rw (n, parse_num_containers) refl,
  )

  parse_fields-IsRead :
      (v : Value) (c : Config)
      → IsRead (if is_null v then some c else fields v c) (parse_fields v c)
  unfolding parse_fields
  parse_fields-IsRead v c = elim (Bool-cases (is_null v)) [
    | inl n ↦
        let (name, ips, gcm, tenants, containers) = null_skipped v c n in
        rw n (rw name (rw ips (rw gcm (rw tenants containers))))
    | inr n ↦
        let first = parse_app_name-IsRead v c n in
        rw n (
          subst (λ o. IsRead o (parse_fields v c))
            (staged (string_at "name" v) (maybe (array_at "agentIPs" v) strings)
              (string_at "gcmIP" v) (integer_at "tenants" v) (integer_at "num_containers" v) c)
            (and_then-IsRead _ _ _ (parse_num_containers v)
              (and_then-IsRead _ _ _ (parse_num_tenants v)
                (and_then-IsRead _ _ _ (parse_gcm_ip_address v)
                  (and_then-IsRead _ _ _ (parse_ip_addresses v) first
                    (λ c1. parse_ip_addresses-IsRead v c1 n))
                  (λ c2. parse_gcm_ip_address-IsRead v c2 n))
                (λ c3. parse_num_tenants-IsRead v c3 n))
              (λ c4. parse_num_containers-IsRead v c4 n)))
  ]

  -- Reading the file sets all the fields and returns 0, or returns -1: it returns 0 exactly when the
  -- file is JSON that holds a name, a list of addresses that are strings, the address of the
  -- manager and the two numbers, and the fields are then what it holds, the addresses after those
  -- that were there. A file that holds `null` returns 0 as well, and sets no field.
  pub parse_file-IsRead :
      (text : String) (c : Config) → IsRead (read_config text c) (parse_file text c)
  unfolding parse_file
  parse_file-IsRead text c = read (parse text)
    where
      read :
          (o : Option Value)
          → IsRead
              (maybe o (λ v. if is_null v then some c else fields v c))
              (elim o [ none ↦ (c, true) | some v ↦ parse_fields v c ])
      read none = refl
      read (some v) = parse_fields-IsRead v c
