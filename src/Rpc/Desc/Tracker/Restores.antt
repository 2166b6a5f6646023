-- ===== src/Rpc/Desc/Tracker/Restores.antt =====
-- Which files are left when a rollback is done.
use zctl.Base.{
  Bool, true, false, not, ◌&&◌, ◌||◌, List, [], ◌∷◌, ◌++◌, Text, text_eq, text_mem, text_eq_iff,
  text_mem-append, if◌then◌else◌, ◌≡◌, refl, ap, ◌∙◌, arith, Bool-cases, inl, inr,
}
use zctl.Rpc.Desc.Tracker.{
  Disk, FileTracker, Rollback, new_file_tracker, without, longest_first, distinct, files_under,
  snapshot_roots, snapshot, remove_dir, remove_file, remove_new, remove_in_roots, remove_extra,
  dirs_of, clean_dirs, rollback, stat, track_extra,
}

text_mem-without :
    (p q : Text) (ps : List Text) → text_mem p (without q ps) ≡ (text_mem p ps && not (text_eq p q))
unfolding text_mem without
text_mem-without p q [] = refl
text_mem-without p q (x ∷ ps) =
    ground (arith, text_mem-without p q ps, text_eq_iff q x, text_eq_iff p x, text_eq_iff p q)

text_mem_append :
    (p : Text) (a b : List Text) → text_mem p (a ++ b) ≡ (text_mem p a || text_mem p b)
unfolding text_mem
text_mem_append p [] b = refl
text_mem_append p (x ∷ a) b = ground (arith, text_mem_append p a b)

module _ (is_under : Text → Text → Bool) (dir_of : Text → Text) (removable : Text → Bool)
    (order : List Text → List Text) where
  -- The path lies under one of the roots.
  unfoldable pub under_roots : Text → List Text → Bool
  under_roots p [] = false
  under_roots p (root ∷ roots) = is_under root p || under_roots p roots

  text_mem-files_under :
      (p root : Text) (ps : List Text)
      → text_mem p (files_under is_under dir_of removable order root ps)
        ≡ (text_mem p ps && is_under root p)
  unfolding text_mem files_under
  text_mem-files_under p root [] = refl
  text_mem-files_under p root (q ∷ ps) = elim (Bool-cases (text_eq p q)) [
    | inl e ↦
        let k = ap (is_under root) ((text_eq_iff p q).0 e) in
        ground (arith, e, k, text_mem-files_under p root ps)
    | inr e ↦ ground (arith, e, text_mem-files_under p root ps)
  ]

  -- The files behind `os.Remove` of one.
  remove_file-files :
      (p q : Text) (r : Rollback)
      → text_mem p (remove_file is_under dir_of removable order q r).disk.files
        ≡ (text_mem p r.disk.files && not (text_eq p q && removable p))
  unfolding remove_file
  remove_file-files p q r = elim (Bool-cases (text_eq p q)) [
    | inl e ↦
        let k = (text_eq_iff p q).0 e in
        ground (
          arith,
          e,
          ap removable k,
          ap (λ x. text_mem x r.disk.files) k,
          text_mem-without p q r.disk.files,
        )
    | inr e ↦ ground (arith, e, text_mem-without p q r.disk.files)
  ]

  remove_new-files :
      (before ps : List Text) (r : Rollback) (p : Text)
      → text_mem p (remove_new is_under dir_of removable order before ps r).disk.files
        ≡ (text_mem p r.disk.files && not (text_mem p ps && not (text_mem p before) && removable p))
  unfolding remove_new text_mem
  remove_new-files before [] r p = ground arith
  remove_new-files before (q ∷ ps) r p =
      remove_new-files before ps
        (if text_mem q before then r else remove_file is_under dir_of removable order q r) p
      ∙ elim (Bool-cases (text_eq p q)) [
        | inl e ↦
            let k = ap (λ x. text_mem x before) ((text_eq_iff p q).0 e) in
            ground (arith, e, k, remove_file-files p q r)
        | inr e ↦ ground (arith, e, remove_file-files p q r)
      ]

  remove_in_roots-files :
      (before roots : List Text) (r : Rollback) (p : Text)
      → text_mem p (remove_in_roots is_under dir_of removable order before roots r).disk.files ≡ (
          text_mem p r.disk.files
          && not (under_roots p roots && not (text_mem p before) && removable p))
  unfolding remove_in_roots under_roots
  remove_in_roots-files before [] r p = ground arith
  remove_in_roots-files before (root ∷ roots) r p =
      let ps = files_under is_under dir_of removable order root r.disk.files in
      remove_in_roots-files before roots (remove_new is_under dir_of removable order before ps r) p
      ∙ ground (arith, remove_new-files before ps r p, text_mem-files_under p root r.disk.files)

  remove_extra-files :
      (ps : List Text) (r : Rollback) (p : Text)
      → text_mem p (remove_extra is_under dir_of removable order ps r).disk.files
        ≡ (text_mem p r.disk.files && not (text_mem p ps && removable p))
  unfolding remove_extra text_mem
  remove_extra-files [] r p = ground arith
  remove_extra-files (q ∷ ps) r p =
      remove_extra-files ps (remove_file is_under dir_of removable order q r) p
      ∙ ground (arith, remove_file-files p q r)

  clean_dirs-files :
      (ds : List Text) (disk : Disk)
      → (clean_dirs is_under dir_of removable order ds disk).files ≡ disk.files
  unfolding clean_dirs remove_dir
  clean_dirs-files [] disk = refl
  clean_dirs-files (d ∷ ds) disk =
      clean_dirs-files ds (remove_dir is_under dir_of removable order d disk) ∙ ground arith

  -- What a rollback removes: each file that may be removed, and is one of the extra files, or lies
  -- under a root and was not there before.
  rollback-files :
      (t : FileTracker) (disk : Disk) (p : Text)
      → text_mem p (rollback is_under dir_of removable order t disk).files ≡ (
          text_mem p disk.files
          && not (
              (under_roots p t.roots && not (text_mem p t.before) || text_mem p t.extra_files)
              && removable p))
  unfolding rollback
  rollback-files t disk p =
      let r : Rollback = record { disk = disk; deleted = [] } in
      let r' = remove_in_roots is_under dir_of removable order t.before t.roots r in
      let r'' = remove_extra is_under dir_of removable order t.extra_files r' in
      let ds =
        longest_first (order (distinct (dirs_of is_under dir_of removable order r''.deleted))) in
      ap (text_mem p) (clean_dirs-files ds r''.disk)
      ∙ remove_extra-files t.extra_files r' p
      ∙ ground (arith, remove_in_roots-files t.before t.roots r p)

  snapshot_roots-before :
      (roots : List Text) (disk : Disk) (before : List Text) (p : Text)
      → text_mem p (snapshot_roots is_under dir_of removable order roots disk before)
        ≡ (text_mem p before || text_mem p disk.files && under_roots p roots)
  unfolding snapshot_roots under_roots
  snapshot_roots-before [] disk before p = ground arith
  snapshot_roots-before (root ∷ roots) disk before p =
      let ps = files_under is_under dir_of removable order root disk.files in
      snapshot_roots-before roots disk (before ++ ps) p
      ∙ ground (arith, text_mem_append p before ps, text_mem-files_under p root disk.files)

  -- `trackExtra` on each of the paths.
  unfoldable pub track_all : List Text → Disk → FileTracker → FileTracker
  track_all [] disk t = t
  track_all (p ∷ ps) disk t = track_all ps disk (track_extra p disk t)

  track_all-extra :
      (ps : List Text) (disk : Disk) (t : FileTracker) (p : Text)
      → text_mem p (track_all ps disk t).extra_files
        ≡ (text_mem p t.extra_files || text_mem p ps && not (stat p disk))
  unfolding track_all track_extra text_mem
  track_all-extra [] disk t p = ground arith
  track_all-extra (q ∷ ps) disk t p =
      track_all-extra ps disk (track_extra q disk t) p ∙ elim (Bool-cases (text_eq p q)) [
        | inl e ↦
            let k = ap (λ x. stat x disk) ((text_eq_iff p q).0 e) in
            ground (arith, e, k, text_mem-append p q t.extra_files)
        | inr e ↦ ground (arith, e, text_mem-append p q t.extra_files)
      ]

  track_all-same :
      (ps : List Text) (disk : Disk) (t : FileTracker)
      → ((track_all ps disk t).roots ≡ t.roots) × ((track_all ps disk t).before ≡ t.before)
  unfolding track_all track_extra
  track_all-same [] disk t = (refl, refl)
  track_all-same (q ∷ ps) disk t = ground (arith, track_all-same ps disk (track_extra q disk t))

  -- A tracker with a snapshot of the roots on a disk, and extra paths tracked on it.
  abbrev pub tracked : List Text → List Text → Disk → FileTracker
  tracked roots paths disk =
      track_all paths disk (snapshot is_under dir_of removable order disk (new_file_tracker roots))

  -- A run only adds files: each may be removed, and lies under a root or is one of the extra paths,
  -- at which nothing was before.
  pub record OnlyAdds (roots paths : List Text) (disk after : Disk) : Type 0 where
    pub kept : (p : Text) → text_mem p disk.files ≡ true → text_mem p after.files ≡ true
    pub deletable :
        (p : Text)
        → text_mem p after.files ≡ true
        → text_mem p disk.files ≡ false
        → removable p ≡ true
    pub covered :
        (p : Text)
        → text_mem p after.files ≡ true
        → text_mem p disk.files ≡ false
        → (under_roots p roots || text_mem p paths && not (stat p disk)) ≡ true

  tracked-before :
      (roots paths : List Text) (disk : Disk) (p : Text)
      → text_mem p (tracked roots paths disk).before
        ≡ (text_mem p disk.files && under_roots p roots)
  tracked-before roots paths disk p =
      let t = snapshot is_under dir_of removable order disk (new_file_tracker roots) in
      ap (text_mem p) (track_all-same paths disk t).1
      ∙ unfold snapshot in
        unfold new_file_tracker in unfold text_mem in snapshot_roots-before roots disk [] p

  tracked-roots : (roots paths : List Text) (disk : Disk) → (tracked roots paths disk).roots ≡ roots
  unfolding snapshot new_file_tracker
  tracked-roots roots paths disk =
      (track_all-same paths disk
        (snapshot is_under dir_of removable order disk (new_file_tracker roots))).0

  tracked-extra :
      (roots paths : List Text) (disk : Disk) (p : Text)
      → text_mem p (tracked roots paths disk).extra_files ≡ (text_mem p paths && not (stat p disk))
  unfolding snapshot new_file_tracker text_mem
  tracked-extra roots paths disk p =
      track_all-extra paths disk
        (snapshot is_under dir_of removable order disk (new_file_tracker roots)) p

  -- After a snapshot of the roots, extra paths that are tracked, and a run that only adds files
  -- under the roots and at extra paths, which may be removed, rollback leaves exactly the files
  -- that were there at the snapshot.
  pub rollback-files_restored :
      (roots paths : List Text) (disk after : Disk)
      → OnlyAdds roots paths disk after
      → (p : Text)
      → text_mem p (rollback is_under dir_of removable order (tracked roots paths disk) after).files
        ≡ text_mem p disk.files
  rollback-files_restored roots paths disk after h p =
      rollback-files (tracked roots paths disk) after p
      ∙ unfold stat in
        ground (
          arith,
          tracked-before roots paths disk p,
          ap (under_roots p) (tracked-roots roots paths disk),
          tracked-extra roots paths disk p,
          h.kept p,
          h.deletable p,
          h.covered p,
        )
