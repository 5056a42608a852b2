-- ===== src/Config/Defaults.antt =====
-- internal/config/config.go: what `Defaults` establishes.
use file_server.Prelude.{pos, ◌≤ℤ◌, ◌<ℤ◌, List, [], ◌∷◌, All, ◌≡◌, ◌≢◌, refl, arith}
use file_server.Config.{Config, DomainConfig, domain_defaults, domains_defaults, defaults}

-- A domain with a positive timeout and lifetime, and a retry count that is not negative.
pub record IsUsableDomain {F : Type 0} (d : DomainConfig F) : Type 0 where
  pub timeout : pos 0 <ℤ d.origin_timeout
  pub retry : pos 0 ≤ℤ d.origin_retry
  pub ttl : pos 0 <ℤ d.default_ttl

-- A configuration that the rest of the program can run with.
pub record IsUsable {F : Type 0} (c : Config F) : Type 0 where
  pub server_addr : c.server.addr ≢ []
  pub admin_addr : c.admin.addr ≢ []
  pub storage_type : c.storage.type ≢ []
  pub root_dir : c.storage.root_dir ≢ []
  pub max_items : pos 0 <ℤ c.cache.max_items
  pub max_age : pos 0 <ℤ c.cache.flush_rule_max_age
  pub domains : All IsUsableDomain c.domains

module _ {F : Type 0} where
  domain_defaults-IsUsableDomain : (d : DomainConfig F) → IsUsableDomain (domain_defaults d)
  unfolding domain_defaults
  domain_defaults-IsUsableDomain d = ground arith

  domains_defaults-usable : (ds : List (DomainConfig F)) → All IsUsableDomain (domains_defaults ds)
  unfolding domains_defaults
  domains_defaults-usable [] = tt
  domains_defaults-usable (d ∷ ds) = (domain_defaults-IsUsableDomain d, domains_defaults-usable ds)

  domain_defaults_fixed : (d : DomainConfig F) → IsUsableDomain d → domain_defaults d ≡ d
  unfolding domain_defaults
  domain_defaults_fixed d h = ground arith

  domains_defaults_fixed :
      (ds : List (DomainConfig F)) → All IsUsableDomain ds → domains_defaults ds ≡ ds
  unfolding domains_defaults
  domains_defaults_fixed [] h = refl
  domains_defaults_fixed (d ∷ ds) h =
      ground (arith, domain_defaults_fixed d h.0, domains_defaults_fixed ds h.1)

  -- Whatever the file says, the configuration is usable after `Defaults`: no empty address,
  -- storage type or root, positive limits, and every domain with a positive timeout and lifetime
  -- and a retry count that is not negative.
  pub defaults-IsUsable : (c : Config F) → IsUsable (defaults c)
  unfolding defaults
  defaults-IsUsable c = record {
    server_addr = ground arith;
    admin_addr = ground arith;
    storage_type = ground arith;
    root_dir = ground arith;
    max_items = ground arith;
    max_age = ground arith;
    domains = domains_defaults-usable c.domains;
  }

  -- `Defaults` changes nothing of a usable configuration.
  pub defaults_fixed : (c : Config F) → IsUsable c → defaults c ≡ c
  unfolding defaults
  defaults_fixed c h = ground (arith, domains_defaults_fixed c.domains h.domains)
