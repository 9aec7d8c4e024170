-- ===== src/Downloads/Outcomes.antt =====
-- What is reported of a download (components/brave_shields/content/browser/
-- ad_block_subscription_download_manager.cc).
use mathlib.Core.List.{append-nil}
use chromium_adblock.Base.{
  ℕ, zero, suc, String, Bool, true, false, not, ◌&&◌, ◌=s=◌, Option, none, some, List, [], ◌∷◌,
  ◌++◌, ◌≡◌, refl, sym, if◌then◌else◌,
}
use chromium_adblock.Base.Dict.{find, find-erase}
use chromium_adblock.Web.{Gurl}
use chromium_adblock.Downloads.{
  FileJob, ensure_dir, replace_file, DownloadManager, on_download_failed, on_download_succeeded,
  on_dir_created, replace_file_callback, client_on_download_succeeded,
}

-- The answer of the file system to a job, `dir_created` or `replaced`.
abbrev pub answer_job : DownloadManager → FileJob → Bool → Bool → DownloadManager
answer_job m (ensure_dir file url) dir_created replaced = on_dir_created m file url dir_created
answer_job m (replace_file file url) dir_created replaced = replace_file_callback m url replaced

abbrev pub answer_each : DownloadManager → List FileJob → Bool → Bool → DownloadManager
answer_each m [] dir_created replaced = m
answer_each m (job ∷ jobs) dir_created replaced =
    answer_each (answer_job m job dir_created replaced) jobs dir_created replaced

-- Rounds of answers: all jobs that are posted are answered, which may post others.
abbrev pub answer_jobs : ℕ → DownloadManager → Bool → Bool → DownloadManager
answer_jobs zero m dir_created replaced = m
answer_jobs (suc rounds) m dir_created replaced =
    answer_jobs rounds (answer_each (record m { jobs = [] }) m.jobs dir_created replaced)
      dir_created replaced

-- A completion from the client and two rounds of answers, where the manager had no jobs under way.
unfoldable pub settle :
    DownloadManager → String → Option (Option String) → String → Bool → Bool → DownloadManager
settle m guid mime file dir_created replaced =
    answer_jobs 2 (client_on_download_succeeded (record m { jobs = [] }) guid mime file) dir_created
      replaced

abbrev pub is_text : Option (Option String) → Bool
is_text none = false
is_text (some none) = false
is_text (some (some mimetype)) = mimetype =s= "text/plain"

module _ (m : DownloadManager) (guid : String) (url : Gurl)
    (pending : find m.pending_download_guids guid ≡ some url) where
  -- The download of `guid` has been reported, as succeeded or failed, and is no longer pending.
  abbrev Reported : Bool → DownloadManager → Type 0
  Reported good after =
      (after.succeeded ≡ m.succeeded ++ (if good then url ∷ [] else []))
      × (after.failed ≡ m.failed ++ (if good then [] else url ∷ []))
      × ((other : String)
          → find after.pending_download_guids other
            ≡ (if guid =s= other then none else find m.pending_download_guids other))
      × (after.jobs ≡ [])

  abbrev answered : DownloadManager → Bool → Bool → DownloadManager
  answered m' dir_created replaced = answer_jobs 2 m' dir_created replaced

  failed-Reported :
      (dir_created replaced : Bool)
      → Reported false
          (answered (on_download_failed (record m { jobs = [] }) guid) dir_created replaced)
  unfolding on_download_failed
  failed-Reported dir_created replaced = rw pending (
    sym (append-nil m.succeeded),
    refl,
    λ other. find-erase m.pending_download_guids guid other,
    refl,
  )

  succeeded-Reported :
      (file : String) (dir_created replaced : Bool)
      → Reported
          (dir_created && replaced)
          (answered (on_download_succeeded (record m { jobs = [] }) guid file) dir_created replaced)
  unfolding on_download_succeeded on_dir_created replace_file_callback
  succeeded-Reported file true true = rw pending (
    refl,
    sym (append-nil m.failed),
    λ other. find-erase m.pending_download_guids guid other,
    refl,
  )
  succeeded-Reported file true false = rw pending (
    sym (append-nil m.succeeded),
    refl,
    λ other. find-erase m.pending_download_guids guid other,
    refl,
  )
  succeeded-Reported file false replaced = rw pending (
    sym (append-nil m.succeeded),
    refl,
    λ other. find-erase m.pending_download_guids guid other,
    refl,
  )

  text-Reported :
      (is_plain : Bool) (file : String) (dir_created replaced : Bool)
      → Reported (is_plain && (dir_created && replaced)) (
          answered
            (if not is_plain
              then on_download_failed (record m { jobs = [] }) guid
              else on_download_succeeded (record m { jobs = [] }) guid file)
            dir_created
            replaced)
  text-Reported true file dir_created replaced = succeeded-Reported file dir_created replaced
  text-Reported false file dir_created replaced = failed-Reported dir_created replaced

  -- A completed download that was pending is reported exactly once: as succeeded if it is plain text
  -- and both the directory and the file could be made, or else as failed. It is no longer pending
  -- then, all others are as they were, and no file job is left.
  pub settle_reports_once :
      (mime : Option (Option String)) (file : String) (dir_created replaced : Bool)
      → let after = settle m guid mime file dir_created replaced in
        let good = is_text mime && (dir_created && replaced) in
        (after.succeeded ≡ m.succeeded ++ (if good then url ∷ [] else []))
        × (after.failed ≡ m.failed ++ (if good then [] else url ∷ []))
        × ((other : String)
            → find after.pending_download_guids other
              ≡ (if guid =s= other then none else find m.pending_download_guids other))
        × (after.jobs ≡ [])
  unfolding settle client_on_download_succeeded
  settle_reports_once none file dir_created replaced = failed-Reported dir_created replaced
  settle_reports_once (some none) file dir_created replaced = failed-Reported dir_created replaced
  settle_reports_once (some (some mimetype)) file dir_created replaced =
      text-Reported (mimetype =s= "text/plain") file dir_created replaced
