-- ===== src/Downloads.antt =====
-- Downloads of subscribed lists (components/brave_shields/content/browser/):
-- ad_block_subscription_download_manager.{h,cc}, and the completions that reach it through
-- ad_block_subscription_download_client.cc. A download is known by its guid. The work on files is a
-- job whose result is a later operation; the parameters of a download but for its priority are left
-- out, and so are the clean-up of a removed file and the upload of data, which there is none of.
pub mod Outcomes
pub mod Examples
use chromium_adblock.Base.{
  String, Bool, true, false, not, ◌=s=◌, Option, none, some, List, [], ◌∷◌, ◌++◌, if◌then◌else◌,
}
use chromium_adblock.Base.Dict.{Dict, find, set, erase, contains}
use chromium_adblock.Web.{Gurl}

-- EnsureDirExists for the list's directory, then ReplaceFile, each with the downloaded file.
pub data FileJob : Type 0 where
  ensure_dir replace_file : String → Gurl → FileJob

pub record DownloadManager : Type 0 where
  pub is_available_for_downloads : Bool
  pub pending_download_guids : Dict Gurl
  -- effects, the oldest first; a download is started with the priority of the user or not
  pub started : List (Gurl × Bool)
  pub cancelled : List String
  pub jobs : List FileJob
  pub failed : List Gurl
  pub succeeded : List Gurl

unfoldable pub start_download : DownloadManager → Gurl → Bool → DownloadManager
start_download m url from_ui = record m { started = m.started ++ (url, from_ui) ∷ [] }

abbrev guids_of : Dict Gurl → List String
guids_of [] = []
guids_of ((guid, url) ∷ entries) = guid ∷ guids_of entries

unfoldable pub cancel_all_pending_downloads : DownloadManager → DownloadManager
cancel_all_pending_downloads m = record m {
  cancelled = m.cancelled ++ guids_of m.pending_download_guids;
}

unfoldable pub shutdown : DownloadManager → DownloadManager
unfolding cancel_all_pending_downloads
shutdown m = cancel_all_pending_downloads (record m { is_available_for_downloads = false })

unfoldable pub on_download_service_unavailable : DownloadManager → DownloadManager
on_download_service_unavailable m = record m { is_available_for_downloads = false }

-- `accepted` is the start result; std::map::insert keeps an entry that is there.
unfoldable pub on_download_started : DownloadManager → Gurl → String → Bool → DownloadManager
on_download_started m url guid accepted =
    if accepted
    then (if contains m.pending_download_guids guid
        then m
        else record m { pending_download_guids = set m.pending_download_guids guid url })
    else m

abbrev forget : DownloadManager → String → DownloadManager
forget m guid = record m { pending_download_guids = erase m.pending_download_guids guid }

abbrev report_failed : DownloadManager → Gurl → DownloadManager
report_failed m url = record m { failed = m.failed ++ url ∷ [] }

abbrev fail_found : DownloadManager → String → Option Gurl → DownloadManager
fail_found m guid none = m
fail_found m guid (some url) = report_failed (forget m guid) url

unfoldable pub on_download_failed : DownloadManager → String → DownloadManager
on_download_failed m guid = fail_found m guid (find m.pending_download_guids guid)

abbrev succeed_found : DownloadManager → String → String → Option Gurl → DownloadManager
succeed_found m guid file none = m
succeed_found m guid file (some url) = record (forget m guid) {
  jobs = m.jobs ++ ensure_dir file url ∷ [];
}

unfoldable pub on_download_succeeded : DownloadManager → String → String → DownloadManager
on_download_succeeded m guid file = succeed_found m guid file (find m.pending_download_guids guid)

unfoldable pub on_dir_created : DownloadManager → String → Gurl → Bool → DownloadManager
on_dir_created m file url created =
    if not created
    then report_failed m url
    else record m { jobs = m.jobs ++ replace_file file url ∷ [] }

unfoldable pub replace_file_callback : DownloadManager → Gurl → Bool → DownloadManager
replace_file_callback m url success =
    if not success then report_failed m url else record m { succeeded = m.succeeded ++ url ∷ [] }

-- AdBlockSubscriptionDownloadClient::OnDownloadSucceeded. The response has headers or not, and
-- these a MIME type or not.
unfoldable pub client_on_download_succeeded :
    DownloadManager → String → Option (Option String) → String → DownloadManager
unfolding on_download_failed on_download_succeeded
client_on_download_succeeded m guid none file = on_download_failed m guid
client_on_download_succeeded m guid (some none) file = on_download_failed m guid
client_on_download_succeeded m guid (some (some mimetype)) file =
    if not (mimetype =s= "text/plain")
    then on_download_failed m guid
    else on_download_succeeded m guid file
