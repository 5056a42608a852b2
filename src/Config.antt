-- ===== src/Config.antt =====
-- internal/config/config.go: the configuration and its defaults.
pub mod Defaults
pub mod Loader
use file_server.Prelude.{
  Str, str, str_eq, Map, ℤ, pos, ltb_ℤ, leb_ℤ, if◌then◌else◌, List, [], ◌∷◌, Option, ℕ, ◌*◌, Bool,
}

-- `any`, as YAML decodes it: what a plugin finds in its configuration. `F` stands for `float64`.
mutual
  pub data Value (F : Type 0) : Type 0 where
    null : Value F
    bool : Bool → Value F
    int : ℤ → Value F
    int_64 : ℤ → Value F
    float_64 : F → Value F
    string : Str → Value F
    slice : Items F → Value F
    dict : Fields F → Value F

  -- `[]any`
  pub data Items (F : Type 0) : Type 0 where
    nil : Items F
    cons : Value F → Items F → Items F

  -- `map[string]any`
  pub data Fields (F : Type 0) : Type 0 where
    end : Fields F
    field : Str → Value F → Fields F → Fields F

pub record ServerConfig : Type 0 where
  pub addr : Str

pub record AdminConfig : Type 0 where
  pub addr : Str

pub record StorageConfig : Type 0 where
  pub type : Str
  pub root_dir : Str

pub record CacheConfig : Type 0 where
  pub max_items : ℤ
  pub flush_rule_max_age : ℤ

pub record KeyRulesConfig : Type 0 where
  pub include_query_params : List Str
  pub include_headers : List Str

pub record PluginConfig (F : Type 0) : Type 0 where
  pub type : Str
  pub config : Fields F

pub record DomainConfig (F : Type 0) : Type 0 where
  pub domain : Str
  pub origins : List Str
  pub origin_timeout : ℤ
  pub origin_retry : ℤ
  pub default_ttl : ℤ
  pub key_rules : Option KeyRulesConfig
  pub plugins : List (PluginConfig F)

pub record Config (F : Type 0) : Type 0 where
  pub server : ServerConfig
  pub admin : AdminConfig
  pub storage : StorageConfig
  pub cache : CacheConfig
  pub key_rules : KeyRulesConfig
  pub domains : List (DomainConfig F)

-- `time.Second` and `time.Hour`, in nanoseconds
abbrev pub second : ℕ
second = 1_000_000_000

abbrev pub hour : ℕ
hour = 3600 * second

module _ {F : Type 0} where
  -- The body of the loop over the domains.
  unfoldable pub domain_defaults : DomainConfig F → DomainConfig F
  domain_defaults d = record d {
    origin_timeout = if leb_ℤ d.origin_timeout (pos 0) then pos (10 * second) else d.origin_timeout;
    origin_retry = if ltb_ℤ d.origin_retry (pos 0) then pos 0 else d.origin_retry;
    default_ttl = if leb_ℤ d.default_ttl (pos 0) then pos hour else d.default_ttl;
  }

  unfoldable pub domains_defaults : List (DomainConfig F) → List (DomainConfig F)
  unfolding domain_defaults
  domains_defaults [] = []
  domains_defaults (d ∷ ds) = domain_defaults d ∷ domains_defaults ds

  -- `Config.Defaults`
  unfoldable pub defaults : Config F → Config F
  unfolding domains_defaults
  defaults c = record {
    server = record { addr = if str_eq c.server.addr (str "") then str ":8080" else c.server.addr };
    admin = record { addr = if str_eq c.admin.addr (str "") then str ":9090" else c.admin.addr };
    storage = record {
      type = if str_eq c.storage.type (str "") then str "localfs" else c.storage.type;
      root_dir =
          if str_eq c.storage.root_dir (str "") then str "./cache_data" else c.storage.root_dir;
    };
    cache = record {
      max_items = if leb_ℤ c.cache.max_items (pos 0) then pos 10_000 else c.cache.max_items;
      flush_rule_max_age =
          if leb_ℤ c.cache.flush_rule_max_age (pos 0)
          then pos (7 * 24 * hour)
          else c.cache.flush_rule_max_age;
    };
    key_rules = c.key_rules;
    domains = domains_defaults c.domains;
  }
