-- ===== src/Store/Pool.antt =====
-- store/account.go: the pool's configuration, in a file of its own. The text of `uuid.New()` is an
-- argument.
use copilot_pool_gateway.Base.{ℕ, String, Bool, false, Option, none, some, ◌==◌, if◌then◌else◌}

pub record PoolConfig : Type 0 where
  pub enabled : Bool
  pub strategy : String
  pub api_key : String
  pub rate_limit_rpm : ℕ

-- The file as its readers see it.
pub data PoolFile : Type 0 where
  unreadable malformed : PoolFile
  holds : PoolConfig → PoolFile

abbrev pub default_config : PoolConfig
default_config = record {
  enabled = false;
  strategy = "round-robin";
  api_key = "";
  rate_limit_rpm = 0;
}

-- GetPoolConfig: defaults where there is no readable file, and never an empty strategy.
unfoldable pub get_pool_config : PoolFile → PoolConfig
get_pool_config (holds cfg) =
    if cfg.strategy == "" then record cfg { strategy = "round-robin" } else cfg
get_pool_config _ = default_config

-- UpdatePoolConfig, where the write lands.
unfoldable pub update_pool_config : PoolConfig → PoolFile → PoolFile
update_pool_config cfg file = holds cfg

-- RegeneratePoolApiKey, where the write lands: it is an error without a readable file.
unfoldable pub regenerate_pool_api_key : String → PoolFile → Option String × PoolFile
regenerate_pool_api_key uuid (holds cfg) =
    let key = Prim.Native.String.◌++◌ "sk-pool-" uuid in
    (some key, holds (record cfg { api_key = key }))
regenerate_pool_api_key uuid file = (none, file)
