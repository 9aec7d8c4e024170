-- ===== src/DomainBlock/Examples.antt =====
-- The properties of domain blocking at concrete inputs.
use chromium_adblock.Base.{String, true, false, none, some, [], ◌∷◌, ◌≡◌}
use chromium_adblock.Web.{Gurl}
use chromium_adblock.Engine.Examples.{toy, toy_same_domain}
use chromium_adblock.Wrapper.Examples.{toy_wrapper, https_url}
use chromium_adblock.DomainBlock.{Tab, ControllerClient, CustomFilters, get_custom_filters, proceed}
use chromium_adblock.DomainBlock.Navigation.{proceed_outcome}

-- No text parses as a valid URL.
abbrev parse : String → Gurl
parse s = record { spec = s; scheme = "https"; host = s; is_valid = false }

abbrev tab : Tab
tab = record { is_proceeding = none }

abbrev client : ControllerClient
client = record { request_url = https_url "track.test"; dont_warn_again = true }

abbrev filters : CustomFilters
filters = record { local_state = some "||a.test^"; changes = 0 }

proceed_outcome_example :
    get_custom_filters (proceed client tab filters).1 ≡ "||a.test^\n@@||track.test^$first-party\n"
unfolding get_custom_filters
proceed_outcome_example =
    (proceed_outcome toy toy_same_domain parse toy_wrapper true client tab filters
      (https_url "ads.test" ∷ [])).2
