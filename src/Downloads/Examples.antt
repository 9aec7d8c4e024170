-- ===== src/Downloads/Examples.antt =====
-- The properties of downloads at concrete inputs.
use chromium_adblock.Base.{true, some, [], ◌∷◌, ◌≡◌, refl}
use chromium_adblock.Base.Dict.{find}
use chromium_adblock.Wrapper.Examples.{https_url}
use chromium_adblock.Downloads.{DownloadManager}
use chromium_adblock.Downloads.Outcomes.{settle, settle_reports_once}

abbrev manager : DownloadManager
manager = record {
  is_available_for_downloads = true;
  pending_download_guids = ("g", https_url "list.test") ∷ [];
  started = [];
  cancelled = [];
  jobs = [];
  failed = [];
  succeeded = [];
}

settle_reports_once_example :
    (settle manager "g" (some (some "text/plain")) "file" true true).succeeded
    ≡ https_url "list.test" ∷ []
unfolding find
settle_reports_once_example =
    (settle_reports_once manager "g" (https_url "list.test") refl (some (some "text/plain")) "file"
      true true).0
