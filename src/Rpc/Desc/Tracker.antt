-- ===== src/Rpc/Desc/Tracker.antt =====
-- rpc/generator/ent/gen.go: the file tracker, which takes back the files of a run that failed. The
-- disk that its methods read and change is a state that they are given and hand on. An extra path
-- is taken to be that of a file.
pub mod Restores
pub mod Deepest
use zctl.Base.{
  ℕ, ◌+◌, Bool, true, false, not, ◌&&◌, ◌||◌, List, [], ◌∷◌, ◌++◌, Text, ltb, text_eq, text_mem,
  if◌then◌else◌,
}

-- The paths of the files and of the directories.
pub record Disk : Type 0 where
  pub files : List Text
  pub dirs : List Text

-- `fileTracker`; the map `before` as the list of its keys.
pub record FileTracker : Type 0 where
  pub roots : List Text
  pub before : List Text
  pub extra_files : List Text

unfoldable pub new_file_tracker : List Text → FileTracker
new_file_tracker roots = record { roots = roots; before = []; extra_files = [] }

-- `os.Stat` without an error
unfoldable pub stat : Text → Disk → Bool
stat p disk = text_mem p disk.files || text_mem p disk.dirs

unfoldable pub track_extra : Text → Disk → FileTracker → FileTracker
unfolding stat
track_extra path disk t =
    if stat path disk then t else record t { extra_files = t.extra_files ++ path ∷ [] }

unfoldable pub without : Text → List Text → List Text
without p [] = []
without p (q ∷ qs) = let rest = without p qs in if text_eq p q then rest else q ∷ rest

-- What a rollback has done so far.
pub record Rollback : Type 0 where
  pub disk : Disk
  pub deleted : List Text

-- The bytes of a rune in UTF-8.
unfoldable pub rune_len : ℕ → ℕ
rune_len c = if ltb c 128 then 1 else if ltb c 2048 then 2 else if ltb c 65536 then 3 else 4

-- `len` of a string, which counts bytes.
unfoldable pub byte_len : Text → ℕ
unfolding rune_len
byte_len [] = 0
byte_len (c ∷ s) = rune_len c + byte_len s

-- The inner loop of the sort: the longest path comes to the front, by exchanges.
unfoldable pub exchange : Text → List Text → Text × List Text
unfolding byte_len
exchange d [] = (d, [])
exchange d (e ∷ ds) =
    let longer = ltb (byte_len d) (byte_len e) in
    let rest = exchange (if longer then e else d) ds in (rest.0, (if longer then d else e) ∷ rest.1)

-- The outer loop, in a round for each path.
unfoldable pub sort_rounds : List Text → List Text → List Text
unfolding exchange
sort_rounds [] ds = ds
sort_rounds (r ∷ rs) [] = []
sort_rounds (r ∷ rs) (d ∷ ds) = let front = exchange d ds in front.0 ∷ sort_rounds rs front.1

unfoldable pub longest_first : List Text → List Text
unfolding sort_rounds
longest_first dirs = sort_rounds dirs dirs

-- Keys of a map: each once.
unfoldable pub distinct : List Text → List Text
distinct [] = []
distinct (d ∷ ds) = let rest = distinct ds in if text_mem d ds then rest else d ∷ rest

-- What the tracker asks of the file system: whether a path lies under a root, the directory of a
-- path, and whether a path may be removed; and the order in which Go walks over the keys of a map.
module _ (is_under : Text → Text → Bool) (dir_of : Text → Text) (removable : Text → Bool)
    (order : List Text → List Text) where
  unfoldable pub files_under : Text → List Text → List Text
  files_under root [] = []
  files_under root (p ∷ ps) =
      let rest = files_under root ps in if is_under root p then p ∷ rest else rest

  unfoldable pub snapshot_roots : List Text → Disk → List Text → List Text
  unfolding files_under
  snapshot_roots [] disk before = before
  snapshot_roots (root ∷ roots) disk before =
      snapshot_roots roots disk (before ++ files_under root disk.files)

  unfoldable pub snapshot : Disk → FileTracker → FileTracker
  unfolding snapshot_roots
  snapshot disk t = record t { before = snapshot_roots t.roots disk t.before }

  -- `len(entries) == 0` of `os.ReadDir`
  unfoldable pub has_entry : Text → List Text → Bool
  has_entry d [] = false
  has_entry d (p ∷ ps) = let rest = has_entry d ps in if text_eq (dir_of p) d then true else rest

  unfoldable pub is_dir_empty : Text → Disk → Bool
  unfolding has_entry
  is_dir_empty d disk = not (has_entry d disk.files) && not (has_entry d (without d disk.dirs))

  -- `os.ReadDir` and `os.Remove` of a directory, where it is one and empty.
  unfoldable pub remove_dir : Text → Disk → Disk
  unfolding is_dir_empty without
  remove_dir d disk =
      if text_mem d disk.dirs && is_dir_empty d disk && removable d
      then record disk { dirs = without d disk.dirs }
      else disk

  -- `os.Remove` of a file, which is put into `deleted` where it goes.
  unfoldable pub remove_file : Text → Rollback → Rollback
  unfolding without
  remove_file p r =
      if text_mem p r.disk.files && removable p
      then record {
        disk = record r.disk { files = without p r.disk.files };
        deleted = r.deleted ++ p ∷ [];
      }
      else r

  -- The walk over the files of a root, as they were when it began.
  unfoldable pub remove_new : List Text → List Text → Rollback → Rollback
  unfolding remove_file
  remove_new before [] r = r
  remove_new before (p ∷ ps) r =
      remove_new before ps (if text_mem p before then r else remove_file p r)

  unfoldable pub remove_in_roots : List Text → List Text → Rollback → Rollback
  unfolding remove_new files_under
  remove_in_roots before [] r = r
  remove_in_roots before (root ∷ roots) r =
      remove_in_roots before roots (remove_new before (files_under root r.disk.files) r)

  unfoldable pub remove_extra : List Text → Rollback → Rollback
  unfolding remove_file
  remove_extra [] r = r
  remove_extra (p ∷ ps) r = remove_extra ps (remove_file p r)

  -- The directory of each deleted file, and the directory above it.
  unfoldable pub dirs_of : List Text → List Text
  dirs_of [] = []
  dirs_of (p ∷ ps) = dir_of p ∷ (dir_of (dir_of p) ∷ dirs_of ps)

  unfoldable pub clean_dirs : List Text → Disk → Disk
  unfolding remove_dir
  clean_dirs [] disk = disk
  clean_dirs (d ∷ ds) disk = clean_dirs ds (remove_dir d disk)

  unfoldable pub rollback : FileTracker → Disk → Disk
  unfolding remove_in_roots remove_extra clean_dirs dirs_of distinct longest_first
  rollback t disk =
      let r =
        remove_extra t.extra_files
          (remove_in_roots t.before t.roots (record { disk = disk; deleted = [] })) in
      clean_dirs (longest_first (order (distinct (dirs_of r.deleted)))) r.disk
