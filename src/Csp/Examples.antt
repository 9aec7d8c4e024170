-- ===== src/Csp/Examples.antt =====
-- The properties of the CSP helper at concrete inputs.
use chromium_adblock.Base.{String, true, false, ◌≡◌, refl, Option, none, some}
use chromium_adblock.Web.{Gurl, sub_frame}
use chromium_adblock.Engine.{get_csp_directives}
use chromium_adblock.Engine.Examples.{toy, toy_same_domain}
use chromium_adblock.Wrapper.Examples.{toy_wrapper, https_url}
use chromium_adblock.Delegate.Types.{RequestInfo, not_blocked}
use chromium_adblock.Csp.{HeaderApi, csp_work}
use chromium_adblock.Csp.Policy.{policy_of, csp_work-join, csp_work-no_source}

-- Headers that are nothing but the policy.
abbrev toy_headers : HeaderApi (Option String)
toy_headers = record {
  get_normalized = λ h. h;
  remove = λ h. none;
  add = λ h v. some v;
  get-remove = λ h. refl;
  get-add = λ h v e. refl;
}

-- A frame from ads.test on page.test.
abbrev frame : RequestInfo
frame = record {
  request_url = https_url "ads.test";
  initiator_url = https_url "page.test";
  resource_type = sub_frame;
  method = "GET";
  devtools_request_id = none;
  allow_brave_shields = true;
  has_browser_context = true;
  blocked_by = not_blocked;
  mock_data_url = "";
  new_url_spec = "";
}

csp_work-join_example :
    policy_of toy_headers (
      csp_work toy toy_same_domain https_url toy_headers toy_wrapper
        (some (some "img-src 'self'"))
        none
        frame)
    ≡ some "img-src 'self', script-src 'none'"
unfolding get_csp_directives
csp_work-join_example =
    csp_work-join toy toy_same_domain https_url toy_headers toy_wrapper (some "img-src 'self'") none
      frame refl refl "page.test" refl

abbrev no_url : Gurl
no_url = record { spec = ""; scheme = ""; host = ""; is_valid = false }

csp_work-no_source_example :
    policy_of toy_headers (
      csp_work toy toy_same_domain https_url toy_headers toy_wrapper
        (some (some "img-src 'self'"))
        none
        (record frame { request_url = no_url; initiator_url = no_url }))
    ≡ none
csp_work-no_source_example =
    csp_work-no_source toy toy_same_domain https_url toy_headers toy_wrapper (some "img-src 'self'")
      none (record frame { request_url = no_url; initiator_url = no_url }) refl refl refl
