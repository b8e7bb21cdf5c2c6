-- ===== src/Json/Config/Reading/Parts.antt =====
-- What reading the file comes to, and the five parts of `parseFile` one by one.
use ec_gcm.Common.{
  ℕ, ◌≡◌, ◌∙◌, refl, sym, ap, Bool, true, false, String, Option, none, some, List, [], ◌∷◌, ◌++◌,
  if◌then◌else◌, Option-cases, inl, inr,
}
use mathlib.Core.List.{append-nil, append_assoc}
use ec_gcm.Json.{JsonLibrary}
use ec_gcm.Json.Config.{
  Config, Parsing, maybe, string_at, integer_at, array_at, assign, and_then, push_all,
  parse_app_name, parse_ip_addresses, parse_gcm_ip_address, parse_num_tenants, parse_num_containers,
}

module _ ⦃json : JsonLibrary⦄ where
  open json use {Value, parse, is_null, at, as_string, as_integer, as_array}

  -- The strings of a list of values, where all are strings.
  abbrev pub strings : List Value → Option (List String)
  strings [] = some []
  strings (v ∷ vs) = elim (as_string v) [
    | none ↦ none
    | some s ↦ maybe (strings vs) (λ ss. some (s ∷ ss))
  ]

  -- The five fields as one value.
  abbrev pub fields : Value → Config → Option Config
  fields v c = maybe (string_at "name" v) (λ name.
      maybe (maybe (array_at "agentIPs" v) strings) (λ ips. maybe (string_at "gcmIP" v) (λ gcm.
        maybe (integer_at "tenants" v) (λ tenants.
          maybe (integer_at "num_containers" v) (λ containers. some (record {
            app_name = name;
            agent_ips = c.agent_ips ++ ips;
            gcm_ip = gcm;
            num_tenants = tenants;
            num_containers = containers;
          }))))))

  -- What the file holds: nothing if it is not JSON, no field for `null`, and else all five fields or
  -- nothing.
  abbrev pub read_config : String → Config → Option Config
  read_config text c = maybe (parse text) (λ v. if is_null v then some c else fields v c)

  -- A parsing without an exception leaves the fields, and one with an exception is for a file that
  -- does not hold them.
  abbrev pub IsRead : Option Config → Config × Bool → Type 0
  IsRead none r = r.1 ≡ true
  IsRead (some c) r = r ≡ (c, false)

  -- The addresses that are appended one by one.
  abbrev pub Pushed : Option (List String) → Config → Parsing → Type 0
  Pushed none c r = r.1 ≡ true
  Pushed (some ips) c r = r ≡ (record c { agent_ips = c.agent_ips ++ ips }, false)

  pub push_one :
      (o : Option (List String)) (s : String) (c : Config) (r : Parsing)
      → Pushed o (record c { agent_ips = c.agent_ips ++ s ∷ [] }) r
      → Pushed (maybe o (λ ss. some (s ∷ ss))) c r
  push_one none s c r h = h
  push_one (some ss) s c r h =
      h ∙ ap (λ ips. (record c { agent_ips = ips }, false)) (append_assoc c.agent_ips (s ∷ []) ss)

  pub push_all-strings : (vs : List Value) (c : Config) → Pushed (strings vs) c (push_all vs c)
  unfolding push_all
  push_all-strings [] c =
      ap (λ ips. (record c { agent_ips = ips }, false)) (sym (append-nil c.agent_ips))
  push_all-strings (v ∷ vs) c = elim (Option-cases (as_string v)) [
    | inl e ↦ rw (e, strings, push_all, Pushed) refl
    | inr (s, e) ↦
        rw (e, strings, push_all)
          (push_one (strings vs) s c (push_all vs (record c { agent_ips = c.agent_ips ++ s ∷ [] }))
            (push_all-strings vs (record c { agent_ips = c.agent_ips ++ s ∷ [] })))
  ]

  -- One more field, after a parsing.
  pub assigned :
      {A : Type 0} (o : Option A) (set : A → Config → Config) (c : Config)
      → IsRead (maybe o (λ a. some (set a c))) (assign o set c)
  assigned none set c = refl
  assigned (some a) set c = refl

  -- Parts that read what they should, one after the other.
  pub and_then-IsRead :
      (o : Option Config) (r : Parsing) (f : Config → Option Config) (next : Config → Parsing)
      → IsRead o r
      → ((c : Config) → IsRead (f c) (next c))
      → IsRead (maybe o f) (and_then r next)
  and_then-IsRead none (c, true) f next h k = refl
  and_then-IsRead none (c, false) f next h k = absurd (cc)
  and_then-IsRead (some a) (c, true) f next h k = absurd (cc)
  and_then-IsRead (some a) (c, false) f next h k =
      let same : c ≡ a = ap (λ p. p.0) h in rw same (k a)

  -- The fields one after the other, and all at once.
  pub staged :
      (n : Option String) (i : Option (List String)) (g : Option String) (t k : Option ℕ)
      (c : Config)
      → maybe
          (maybe
            (maybe
              (maybe
                (maybe n (λ a. some (record c { app_name = a })))
                (λ c1. maybe i (λ a. some (record c1 { agent_ips = c1.agent_ips ++ a }))))
              (λ c2. maybe g (λ a. some (record c2 { gcm_ip = a }))))
            (λ c3. maybe t (λ a. some (record c3 { num_tenants = a }))))
          (λ c4. maybe k (λ a. some (record c4 { num_containers = a })))
        ≡ maybe n (λ name. maybe i (λ ips. maybe g (λ gcm. maybe t (λ tenants.
          maybe k (λ containers. some (record {
            app_name = name;
            agent_ips = c.agent_ips ++ ips;
            gcm_ip = gcm;
            num_tenants = tenants;
            num_containers = containers;
          }))))))
  staged none i g t k c = refl
  staged (some a) none g t k c = refl
  staged (some a) (some b) none t k c = refl
  staged (some a) (some b) (some e) none k c = refl
  staged (some a) (some b) (some e) (some f) none c = refl
  staged (some a) (some b) (some e) (some f) (some h) c = refl

  pub parse_ip_addresses-IsRead :
      (v : Value) (c : Config)
      → is_null v ≡ false
      → IsRead
          (maybe
            (maybe (array_at "agentIPs" v) strings)
            (λ a. some (record c { agent_ips = c.agent_ips ++ a })))
          (parse_ip_addresses v c)
  unfolding parse_ip_addresses
  parse_ip_addresses-IsRead v c n = elim (Option-cases (array_at "agentIPs" v)) [
    | inl e ↦ rw (n, e, parse_ip_addresses, IsRead) refl
    | inr (vs, e) ↦
        rw (n, e, parse_ip_addresses)
          (appended (strings vs) (push_all vs c) (push_all-strings vs c))
  ]
    where
      appended :
          (o : Option (List String)) (r : Parsing)
          → Pushed o c r
          → IsRead (maybe o (λ a. some (record c { agent_ips = c.agent_ips ++ a }))) r
      appended none r h = h
      appended (some ips) r h = h

  pub parse_app_name-IsRead :
      (v : Value) (c : Config)
      → is_null v ≡ false
      → IsRead
          (maybe (string_at "name" v) (λ a. some (record c { app_name = a })))
          (parse_app_name v c)
  unfolding parse_app_name
  parse_app_name-IsRead v c n =
      rw (n, parse_app_name)
        (assigned (string_at "name" v) (λ a old. record old { app_name = a }) c)

  pub parse_gcm_ip_address-IsRead :
      (v : Value) (c : Config)
      → is_null v ≡ false
      → IsRead
          (maybe (string_at "gcmIP" v) (λ a. some (record c { gcm_ip = a })))
          (parse_gcm_ip_address v c)
  unfolding parse_gcm_ip_address
  parse_gcm_ip_address-IsRead v c n =
      rw (n, parse_gcm_ip_address)
        (assigned (string_at "gcmIP" v) (λ a old. record old { gcm_ip = a }) c)

  pub parse_num_tenants-IsRead :
      (v : Value) (c : Config)
      → is_null v ≡ false
      → IsRead
          (maybe (integer_at "tenants" v) (λ a. some (record c { num_tenants = a })))
          (parse_num_tenants v c)
  unfolding parse_num_tenants
  parse_num_tenants-IsRead v c n =
      rw (n, parse_num_tenants)
        (assigned (integer_at "tenants" v) (λ a old. record old { num_tenants = a }) c)

  pub parse_num_containers-IsRead :
      (v : Value) (c : Config)
      → is_null v ≡ false
      → IsRead
          (maybe (integer_at "num_containers" v) (λ a. some (record c { num_containers = a })))
          (parse_num_containers v c)
  unfolding parse_num_containers
  parse_num_containers-IsRead v c n =
      rw (n, parse_num_containers)
        (assigned (integer_at "num_containers" v) (λ a old. record old { num_containers = a }) c)
