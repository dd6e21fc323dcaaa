-- ===== src/Proxy/Zip.antt =====
-- acp-proxy/src/skills/zipSafeExtract.ts: unpacking an archive below a directory. A text is the list of
-- its code units, and an absolute path the list of its segments, the last one first, as POSIX has it.
pub mod Paths
pub mod Inside
pub mod Within
use Prim.Native.Nat.{◌/◌, ◌%◌, max}
use tuixiu.Prelude.{
  ℕ, suc, ◌+◌, String, Option, none, some, Bool, true, false, List, [], ◌∷◌, ◌++◌, if◌then◌else◌,
  same, eqb, not, begins_with, leb, ◌&&◌, ◌||◌, ltb,
}

abbrev pub Segment : Type 0
Segment = List ℕ

-- `fileName.replace(/\\/g, "/")`
unfoldable pub normalize_zip_path : List ℕ → List ℕ
normalize_zip_path [] = []
normalize_zip_path (c ∷ s) = (if eqb c 92 then 47 else c) ∷ normalize_zip_path s

abbrev pub to_first : ℕ → List Segment → List Segment
to_first c [] = (c ∷ []) ∷ []
to_first c (seg ∷ rest) = (c ∷ seg) ∷ rest

-- the segments between the slashes
unfoldable pub split_segments : List ℕ → List Segment
split_segments [] = [] ∷ []
split_segments (c ∷ s) =
    let rest = split_segments s in if eqb c 47 then [] ∷ rest else to_first c rest

abbrev pub parent : Segment
parent = 46 ∷ 46 ∷ []

abbrev pub is_parent : Segment → Bool
is_parent seg = same seg parent

abbrev pub is_skipped : Segment → Bool
is_skipped seg = same seg [] || same seg (46 ∷ [])

-- `..` on a path, where `..` may stay at the front of a relative one
abbrev pub go_up : (relative : Bool) → List Segment → List Segment
go_up relative [] = if relative then parent ∷ [] else []
go_up relative (top ∷ below) =
    if is_parent top then (if relative then parent ∷ top ∷ below else top ∷ below) else below

unfoldable pub enter : (relative : Bool) → List Segment → Segment → List Segment
enter relative path seg =
    if is_skipped seg then path else if is_parent seg then go_up relative path else seg ∷ path

unfoldable pub enter_all : (relative : Bool) → List Segment → List Segment → List Segment
enter_all relative path [] = path
enter_all relative path (seg ∷ rest) = enter_all relative (enter relative path seg) rest

abbrev pub onto : List Segment → List Segment → List Segment
onto [] front = front
onto (seg ∷ rest) front = onto rest (seg ∷ front)

-- the segments with slashes between them
unfoldable pub joined : List Segment → List ℕ
joined [] = []
joined (seg ∷ []) = seg
joined (seg ∷ next ∷ rest) = seg ++ 47 ∷ joined (next ∷ rest)

abbrev pub begins_with_slash : List ℕ → Bool
begins_with_slash [] = false
begins_with_slash (c ∷ s) = eqb c 47

unfoldable pub ends_with_slash : List ℕ → Bool
ends_with_slash [] = false
ends_with_slash (c ∷ []) = eqb c 47
ends_with_slash (c ∷ d ∷ s) = ends_with_slash (d ∷ s)

-- the end of `path.posix.normalize`, on the segments that are left of a text
abbrev pub rendered : (absolute trailing : Bool) → List Segment → List ℕ
rendered true trailing [] = 47 ∷ []
rendered false true [] = 46 ∷ 47 ∷ []
rendered false false [] = 46 ∷ []
rendered absolute trailing (seg ∷ rest) =
    let text = joined (seg ∷ rest) ++ (if trailing then 47 ∷ [] else []) in
    if absolute then 47 ∷ text else text

-- `path.posix.normalize(p)` of a text that is not empty
unfoldable pub posix_normalize : List ℕ → List ℕ
posix_normalize p =
    let absolute = begins_with_slash p in
    rendered absolute (ends_with_slash p) (onto (enter_all (not absolute) [] (split_segments p)) [])

unfoldable pub contains : List ℕ → List ℕ → Bool
contains needle [] = false
contains needle (c ∷ s) = begins_with (c ∷ s) needle || contains needle s

abbrev is_letter : ℕ → Bool
is_letter c = (leb 65 c && leb c 90) || (leb 97 c && leb c 122)

abbrev pub is_drive : List ℕ → Bool
is_drive (c ∷ d ∷ e ∷ s) = is_letter c && eqb d 58 && eqb e 47
is_drive _ = false

unfoldable pub is_zip_slip_path : List ℕ → Bool
is_zip_slip_path p =
    let n = posix_normalize p in
    same n []
    || same n (46 ∷ [])
    || same n parent
    || begins_with n (46 ∷ 46 ∷ 47 ∷ [])
    || contains (47 ∷ 46 ∷ 46 ∷ 47 ∷ []) n
    || begins_with_slash n
    || is_drive n

pub record ZipEntry : Type 0 where
  pub file_name : List ℕ
  pub external_file_attributes : ℕ
  pub uncompressed_size : ℕ

-- `((attr >>> 16) & 0o170000) === 0o120000`
unfoldable pub is_symlink_entry : ZipEntry → Bool
is_symlink_entry entry =
    eqb ((((entry.external_file_attributes % 4294967296) / 65536) / 4096) % 16) 10

pub record ZipLimits : Type 0 where
  pub max_entries : ℕ
  pub max_total_bytes : ℕ
  pub max_file_bytes : ℕ

abbrev limit_or : ℕ → Option ℕ → ℕ
limit_or default none = default
limit_or default (some n) = max 1 n

-- the limits of the options, where a number that is not finite is left out
unfoldable pub zip_limits : Option ℕ → Option ℕ → Option ℕ → ZipLimits
zip_limits entries total file = record {
  max_entries = limit_or 5000 entries;
  max_total_bytes = limit_or 104857600 total;
  max_file_bytes = limit_or 20971520 file;
}

pub data ZipError : Type 0 where
  too_many_entries empty_name not_allowed symlink file_too_large archive_too_large : ZipError
  outside : ZipError
  disk : ZipError

-- A file that was written: its path and the size that its entry declares.
abbrev pub Written : Type 0
Written = List Segment × ℕ

pub record Extraction : Type 0 where
  pub entry_count : ℕ
  pub total_uncompressed : ℕ
  pub files : List Written
  pub directories : List (List Segment)

unfoldable pub same_path : List Segment → List Segment → Bool
same_path [] [] = true
same_path (a ∷ s) (b ∷ t) = same a b && same_path s t
same_path _ _ = false

-- `targetPath === outDir || targetPath.startsWith(outDir + path.sep)`
unfoldable pub is_inside : List Segment → List Segment → Bool
is_inside out [] = same_path [] out
is_inside out (seg ∷ rest) = same_path (seg ∷ rest) out || is_inside out rest

-- `path.resolve(path.join(outDir, rawName))`
unfoldable pub target_path : List Segment → List ℕ → List Segment
target_path out raw_name = enter_all false out (split_segments raw_name)

-- tests one after the other, with a return at the first that holds
unfoldable pub first_error : List (Bool × ZipError) → Option ZipError
first_error [] = none
first_error ((holds, e) ∷ rest) = if holds then some e else first_error rest

-- The tests of an entry. The sizes of directories do not count.
unfoldable pub refused_entry : ZipLimits → List Segment → ℕ → ℕ → ZipEntry → Option ZipError
refused_entry limits out count total entry =
    let raw_name = normalize_zip_path entry.file_name in
    let is_file = not (ends_with_slash raw_name) in
    let size = entry.uncompressed_size in
    first_error (
      (ltb limits.max_entries count, too_many_entries)
      ∷ (same raw_name [], empty_name)
      ∷ (is_zip_slip_path raw_name, not_allowed)
      ∷ (is_symlink_entry entry, symlink)
      ∷ (is_file && ltb limits.max_file_bytes size, file_too_large)
      ∷ (is_file && ltb limits.max_total_bytes (total + size), archive_too_large)
      ∷ (not (is_inside out (target_path out raw_name)), outside)
      ∷ [])

-- `writes` says which paths the disk can make or write. What a file that fails has written is left out.
module _ (limits : ZipLimits) (out : List Segment) (writes : List Segment → Bool) where
  abbrev pub counted : Extraction → Extraction
  counted x = record x { entry_count = suc x.entry_count }

  abbrev pub with_entry : ZipEntry → Extraction → Extraction
  with_entry entry x =
      let raw_name = normalize_zip_path entry.file_name in
      let target = target_path out raw_name in
      if ends_with_slash raw_name
      then record x { directories = x.directories ++ target ∷ [] }
      else record x {
        total_uncompressed = x.total_uncompressed + entry.uncompressed_size;
        files = x.files ++ (target, entry.uncompressed_size) ∷ [];
      }

  -- The entries one after the other, up to the first that fails.
  unfoldable pub extract_entries : List ZipEntry → Extraction → Option ZipError × Extraction
  extract_entries [] x = (none, x)
  extract_entries (entry ∷ rest) x =
      let begun = counted x in
      let next = extract_entries rest (with_entry entry begun) in
      elim (refused_entry limits out begun.entry_count begun.total_uncompressed entry) [
        | some e ↦ (some e, begun)
        | none ↦
            if writes (target_path out (normalize_zip_path entry.file_name))
            then next
            else (some disk, begun)
      ]

  unfoldable pub extract_zip_safe : List ZipEntry → Option ZipError × Extraction
  extract_zip_safe entries =
      extract_entries entries
        (record { entry_count = 0; total_uncompressed = 0; files = []; directories = [] })
