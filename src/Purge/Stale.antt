-- ===== src/Purge/Stale.antt =====
-- Which of the files that were served once are removed.
use flexo.Base.{
  ℕ, ◌+◌, ◌*◌, ◌^◌, ◌<◌, ◌≡◌, ◌≢◌, refl, subst, ◌∙◌, Bool, true, false, ◌&&◌, List, [], ◌∷◌, Option,
  none, some, arith, contains, Bool-cases, inl, inr,
}
use flexo.Base.Map.{get, remove, get-remove}
use flexo.Job.{Result, ok, err}
use flexo.Growing.{IoError}
use flexo.Cache.{FilePath, FilePath-discrete, Node, Files}
use flexo.Purge.{
  GlobResult, found, invalid_unicode, unreadable, is_stale, remove_stale, visit_file, visit,
  purge_uncacheable_files,
}
use flexo.Purge.CfsFiles.{listed}

module _ (modified : FilePath → Result ℕ IoError) (now : FilePath → ℕ)
    (unlink : FilePath → Result (Unit {0}) IoError) where
  stale_at : Result ℕ IoError → ℕ → Bool
  stale_at (err e) time = false
  stale_at (ok modification_time) time = is_stale modified now unlink modification_time time

  -- the test of the code, for a file and the time of its visit
  unfoldable pub is_stale_file : FilePath → Bool
  unfolding stale_at
  is_stale_file path = stale_at (modified path) (now path)

  -- What a visit that does not fail leaves.
  record IsVisited (q : FilePath) (files next : Files) : Type 0 where
    others : (p : FilePath) → p ≢ q → get FilePath-discrete p next ≡ get FilePath-discrete p files
    fresh : is_stale_file q ≡ false → get FilePath-discrete q next ≡ get FilePath-discrete q files
    stale : is_stale_file q ≡ true → get FilePath-discrete q next ≡ none

  removed-IsVisited :
      (q : FilePath) (files : Files)
      → is_stale_file q ≡ true
      → IsVisited q files (remove FilePath-discrete q files)
  removed-IsVisited q files old = record {
    others = λ p ne. ground (arith, get-remove FilePath-discrete p q files);
    fresh = λ e. cc;
    stale = λ e. ground (arith, get-remove FilePath-discrete q q files);
  }

  same-IsVisited :
      (q : FilePath) (files : Files) → is_stale_file q ≡ false → IsVisited q files files
  same-IsVisited q files young = record {
    others = λ p ne. refl;
    fresh = λ e. refl;
    stale = λ e. cc;
  }

  visit_file_removes :
      (q : FilePath) (files next : Files)
      → is_stale_file q ≡ true
      → visit_file modified now unlink q files ≡ ok next
      → remove FilePath-discrete q files ≡ next
  unfolding visit_file remove_stale is_stale_file
  visit_file_removes q files next old h = ground arith

  visit_file_keeps :
      (q : FilePath) (files next : Files)
      → is_stale_file q ≡ false
      → visit_file modified now unlink q files ≡ ok next
      → files ≡ next
  unfolding visit_file remove_stale is_stale_file
  visit_file_keeps q files next young h = ground arith

  visit-IsVisited :
      (node : Option Node) (q : FilePath) (files next : Files)
      → get FilePath-discrete q files ≡ node
      → visit modified now unlink node q files ≡ ok next
      → IsVisited q files next
  unfolding visit
  visit-IsVisited none q files next missing h =
      let same : files ≡ next = cc h in
      subst (IsVisited q files) same
        (record { others = λ p ne. refl; fresh = λ e. refl; stale = λ e. missing })
  visit-IsVisited (some node) q files next there h = elim (Bool-cases (is_stale_file q)) [
    | inl old ↦
        subst (IsVisited q files) (visit_file_removes q files next old h)
          (removed-IsVisited q files old)
    | inr young ↦
        subst (IsVisited q files) (visit_file_keeps q files next young h)
          (same-IsVisited q files young)
  ]

  -- A file before and after, with the result, by the test of the code.
  record IsPurgedBy (rs : List GlobResult) (p : FilePath) (files files' : Files)
      (r : Result (Unit {0}) IoError) : Type 0 where
    kept :
        (contains FilePath-discrete p (listed rs) && is_stale_file p) ≡ false
        → get FilePath-discrete p files' ≡ get FilePath-discrete p files
    gone :
        r ≡ ok tt
        → (contains FilePath-discrete p (listed rs) && is_stale_file p) ≡ true
        → get FilePath-discrete p files' ≡ none
    absent : get FilePath-discrete p files ≡ none → get FilePath-discrete p files' ≡ none

  abbrev purge : List GlobResult → Files → Result (Unit {0}) IoError × Files
  purge = purge_uncacheable_files modified now unlink

  step-IsPurgedBy :
      (q p : FilePath) (rs : List GlobResult) (files next : Files)
      → IsVisited q files next
      → IsPurgedBy rs p next (purge rs next).1 (purge rs next).0
      → IsPurgedBy (found q ∷ rs) p files (purge rs next).1 (purge rs next).0
  unfolding contains
  step-IsPurgedBy q p rs files next v h = elim (FilePath-discrete p q) [
    | no other ↦
        let same = v.others p other in
        record {
          kept = λ e. h.kept (ground arith) ∙ same;
          gone = λ o e. h.gone o (ground arith);
          absent = λ a. h.absent (same ∙ a);
        }
    | yes own ↦ elim (Bool-cases (is_stale_file q)) [
      | inl old ↦
          let none_left : get FilePath-discrete p next ≡ none = rw own (v.stale old) in
          record {
            kept = λ e. ground arith;
            gone = λ o e. h.absent none_left;
            absent = λ a. h.absent none_left;
          }
      | inr young ↦
          let same : get FilePath-discrete p next ≡ get FilePath-discrete p files =
            rw own (v.fresh young) in
          record {
            kept = λ e. h.kept (ground arith) ∙ same;
            gone = λ o e. ground arith;
            absent = λ a. h.absent (same ∙ a);
          }
    ]
  ]

  visited-IsPurgedBy :
      (v : Result Files IoError) (q p : FilePath) (rs : List GlobResult) (files : Files)
      → ((next : Files) → IsPurgedBy rs p next (purge rs next).1 (purge rs next).0)
      → visit modified now unlink (get FilePath-discrete q files) q files ≡ v
      → IsPurgedBy
          (found q ∷ rs)
          p
          files
          (purge (found q ∷ rs) files).1
          (purge (found q ∷ rs) files).0
  unfolding purge_uncacheable_files
  visited-IsPurgedBy (err e) q p rs files ih h =
      rw (h, purge_uncacheable_files) (record { kept = λ e. refl; gone = λ e. cc; absent = λ a. a })
  visited-IsPurgedBy (ok next) q p rs files ih h =
      rw (h, purge_uncacheable_files)
        (step-IsPurgedBy q p rs files next (visit-IsVisited _ q files next refl h) (ih next))

  purge_uncacheable_files-IsPurged :
      (rs : List GlobResult) (p : FilePath) (files : Files)
      → IsPurgedBy rs p files
          (purge_uncacheable_files modified now unlink rs files).1
          (purge_uncacheable_files modified now unlink rs files).0
  unfolding purge_uncacheable_files contains
  purge_uncacheable_files-IsPurged [] p files = record {
    kept = λ e. refl;
    gone = λ o e. ground arith;
    absent = λ a. a;
  }
  purge_uncacheable_files-IsPurged (invalid_unicode ∷ rs) p files =
      let h = purge_uncacheable_files-IsPurged rs p files in
      record { kept = h.kept; gone = h.gone; absent = h.absent }
  purge_uncacheable_files-IsPurged (unreadable ∷ rs) p files =
      let h = purge_uncacheable_files-IsPurged rs p files in
      record { kept = h.kept; gone = h.gone; absent = h.absent }
  purge_uncacheable_files-IsPurged (found q ∷ rs) p files =
      visited-IsPurgedBy _ q p rs files (purge_uncacheable_files-IsPurged rs p) refl

  -- The file was modified more than 300 seconds, in nanoseconds, before it is visited.
  abbrev pub IsOld : FilePath → Type 0
  IsOld path =
      (modification_time : ℕ) × (modified path ≡ ok modification_time)
      × (modification_time + 300 * 10 ^ 9 < now path)

  stale_at-IsOld :
      (path : FilePath) (r : Result ℕ IoError)
      → modified path ≡ r
      → stale_at r (now path) ≡ true
      → IsOld path
  unfolding stale_at is_stale
  stale_at-IsOld path (err e) m h = cc
  stale_at-IsOld path (ok t) m h = (t, m, ground arith)

  is_stale_file-IsOld : (path : FilePath) → is_stale_file path ≡ true → IsOld path
  unfolding is_stale_file
  is_stale_file-IsOld path h = stale_at-IsOld path (modified path) refl h

  IsOld-is_stale_file : (path : FilePath) → IsOld path → is_stale_file path ≡ true
  unfolding is_stale_file stale_at is_stale
  IsOld-is_stale_file path (t, m, old) = rw m (ground arith)

  -- A file before and after, with the result.
  pub record IsPruned (rs : List GlobResult) (p : FilePath) (files files' : Files)
      (r : Result (Unit {0}) IoError) : Type 0 where
    pub not_found :
        contains FilePath-discrete p (listed rs) ≡ false
        → get FilePath-discrete p files' ≡ get FilePath-discrete p files
    pub not_old : ¬ IsOld p → get FilePath-discrete p files' ≡ get FilePath-discrete p files
    pub gone :
        r ≡ ok tt
        → contains FilePath-discrete p (listed rs) ≡ true
        → IsOld p
        → get FilePath-discrete p files' ≡ none
    pub absent : get FilePath-discrete p files ≡ none → get FilePath-discrete p files' ≡ none

  -- Whatever files are found, whenever they were modified and whichever calls fail: a file that is not
  -- found, or was not modified more than five minutes before its visit (also one whose time of
  -- modification lies in the future or cannot be read), is kept as it was. A purge without an error leaves
  -- no file that was found and was modified earlier. Nothing comes to be that was not there.
  pub purge_uncacheable_files-IsPruned :
      (rs : List GlobResult) (p : FilePath) (files : Files)
      → IsPruned rs p files
          (purge_uncacheable_files modified now unlink rs files).1
          (purge_uncacheable_files modified now unlink rs files).0
  purge_uncacheable_files-IsPruned rs p files =
      let h = purge_uncacheable_files-IsPurged rs p files in
      record {
        not_found = λ e. h.kept (ground arith);
        not_old = λ young. elim (Bool-cases (is_stale_file p)) [
          | inl old ↦ absurd (young (is_stale_file-IsOld p old))
          | inr fresh ↦ h.kept (ground arith)
        ];
        gone = λ o e old. h.gone o (rw (e, IsOld-is_stale_file p old) refl);
        absent = h.absent;
      }
