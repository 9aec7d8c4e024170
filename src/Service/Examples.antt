-- ===== src/Service/Examples.antt =====
-- The properties of the service at concrete inputs.
use chromium_adblock.Base.{ℕ, true, false, List, []}
use chromium_adblock.Filters.{clear_suppressed}
use chromium_adblock.Filters.Examples.{manager}
use chromium_adblock.Service.{Service}

abbrev service : Service (List ℕ) ℕ
service = record {
  filters_provider_manager = clear_suppressed manager true;
  default_dat_loaded = false;
  additional_dat_loaded = false;
  default_filter_list_loaded = false;
  additional_filter_list_loaded = false;
  jobs = [];
  loads = [];
  resource_loads = [];
  told = [];
  written = [];
}
