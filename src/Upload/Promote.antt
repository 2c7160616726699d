-- ===== src/Upload/Promote.antt =====
-- app/core/archive_google.py: `file_metadata` and `promote_verified_file`, which check the answers
-- of the bridge.
use mcp_yandex_cloud_infra.Prelude.{
  ℕ, String, Bool, true, false, ◌&&◌, ◌||◌, not, Option, none, some, string_eq, nat_eq, ◌==◌,
  if◌then◌else◌,
}
use mcp_yandex_cloud_infra.Finance.Csv.{Library}
use mcp_yandex_cloud_infra.Upload.Remote.{
  Remote, Meta, Promotion, Promoted, described, promotion_sent,
}
use mcp_yandex_cloud_infra.Upload.Act.{Act, ◌>>=◌, ◌>>◌, give, refuse, note, on_cloud}

abbrev pub has_size : Option ℕ → ℕ → Bool
has_size none n = false
has_size (some k) n = k == n

module _ {lib : Library} (r : Remote lib) where
  unfoldable pub file_metadata : String → Act lib r.Cloud Meta
  file_metadata file_id = do
    meta ← on_cloud (r.metadata file_id)
    if meta.id == ""
        then refuse "Google Drive Bridge v3 metadata returned no file id" false 0
        else (do note (described file_id meta); give meta)

  abbrev pub cleanup_missing : Promotion → Promoted → Bool
  cleanup_missing p a =
      not (p.previous_file_id == "")
      && not (p.previous_file_id == p.file_id)
      && not a.previous_file_trashed

  -- What the answer must say of the promoted file.
  unfoldable pub checked_promotion : Promotion → Promoted → Act lib r.Cloud Meta
  checked_promotion p a =
      if a.file.id == ""
      then refuse "Google Drive Bridge v3 promotion returned no file id" false 0
      else if not (a.file.id == p.file_id)
      then refuse "Google Drive Bridge v3 promoted an unexpected file id" false 0
      else if not (a.file.name == p.canonical_name)
      then refuse "Google Drive Bridge v3 promotion returned the wrong canonical name" false 0
      else if not (has_size a.file.size p.expected_bytes)
          || not (a.file.sha256_checksum == r.lower p.expected_sha256)
      then refuse "Google Drive Bridge v3 promotion failed final size/SHA256 verification" false 0
      else if cleanup_missing p a
      then refuse "Google Drive Bridge v3 did not confirm previous canonical cleanup" true 0
      else give a.file

  unfoldable pub promote_verified_file : Promotion → Act lib r.Cloud Meta
  unfolding checked_promotion
  promote_verified_file p = do
    note (promotion_sent p)
    answer ← on_cloud (r.promote_verified p)
    checked_promotion p answer
