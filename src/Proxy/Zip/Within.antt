-- ===== src/Proxy/Zip/Within.antt =====
-- What an extraction leaves lies below its directory, and within its limits.
use tuixiu.Prelude.{[], ◌∷◌, true, false, ◌≡◌, List, ◌+◌, ◌≤◌, length, ℕ, All}
use tuixiu.Proxy.Zip.{
  Segment, ZipLimits, Written, Extraction, ZipEntry, ends_with_slash, is_inside, normalize_zip_path,
  target_path,
}

abbrev pub total_size : List Written → ℕ
total_size [] = 0
total_size ((path, size) ∷ rest) = size + total_size rest

-- The sizes of the files add up to the total, which is within its limit, and so is each of them; the
-- files and the directories lie below `out`.
pub record IsWithin (limits : ZipLimits) (out : List Segment) (x : Extraction) : Type 0 where
  pub counted_files : length x.files ≤ x.entry_count
  pub few : length x.files ≤ limits.max_entries
  pub total : total_size x.files ≡ x.total_uncompressed
  pub bounded : x.total_uncompressed ≤ limits.max_total_bytes
  pub small : All (λ (f : Written). f.1 ≤ limits.max_file_bytes) x.files
  pub inside : All (λ (f : Written). is_inside out f.0 ≡ true) x.files
  pub below : All (λ d. is_inside out d ≡ true) x.directories

-- What is known of an entry that is not refused.
record IsAccepted (limits : ZipLimits) (out : List Segment) (count total : ℕ) (entry : ZipEntry)
    : Type 0 where
  in_count : count ≤ limits.max_entries
  in_file :
      ends_with_slash (normalize_zip_path entry.file_name) ≡ false
      → entry.uncompressed_size ≤ limits.max_file_bytes
  in_total :
      ends_with_slash (normalize_zip_path entry.file_name) ≡ false
      → total + entry.uncompressed_size ≤ limits.max_total_bytes
  inside : is_inside out (target_path out (normalize_zip_path entry.file_name)) ≡ true
