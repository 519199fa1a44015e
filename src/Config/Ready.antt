-- ===== src/Config/Ready.antt =====
-- parse_config_file: what comes out of a configuration file.
use curl_loader.Base.{ℕ, ◌<◌, ◌≡◌, false, List, All}
use curl_loader.Config.{BatchConfig}
use curl_loader.Config.Validate.Bounds.{IsValidated}
use curl_loader.Config.Cycling.Loadable.{IsLoadable}
use curl_loader.Config.Files.{Ready}
use curl_loader.Config.Sound.{IsConfig}

-- A batch that comes out: its configuration is in range and validated, and where it has a cycling url
-- it can be loaded.
pub record IsReady (ready : Ready) : Type 0 where
  pub config : BatchConfig
  pub in_range : IsConfig config
  pub is_validated : IsValidated config
  pub loadable :
      (k : ℕ)
      → k < config.urls_num
      → (config.url_ctx_array k).url_dont_cycle ≡ false
      → IsLoadable config.url_ctx_array ready

abbrev pub AreReady : List Ready → Type 0
AreReady = All IsReady
