-- ===== src/Driver/Archives/Store/Kept.antt =====
-- What get returns for an archive whose directory an earlier extraction has made.
use wave_judge.Prelude.{List, [], ◌∷◌, Text, true, Result, ok, err, panic, ◌≡◌, refl}
use wave_judge.Prelude.Work.{Work, go_on}
use wave_judge.Driver.ObjectIds.{ObjectId}
use wave_judge.Driver.Archives.{ZipFile, Table, TestCaseEntry}
use wave_judge.Driver.Archives.Store.{
  Disk, called, extract_entry, extract_into, get_archive_dir, get_metadata_file_path,
  extract_archive, new_handle, get,
}

-- Files and directories stay where a call of the store has put them.
pub record Keeps {W E : Type 0} (disk : Disk W E) : Type 0 where
  pub made :
      (d : Text) (w : W)
      → (disk.create_dir_all d w).0 ≡ ok tt
      → disk.exists d (disk.create_dir_all d w).1 ≡ true
  pub save_stays :
      (d p c : Text) (w : W) → disk.exists d w ≡ true → disk.exists d (disk.save p c w).1 ≡ true
  pub json_stays :
      (d p : Text) (m : List TestCaseEntry) (w : W)
      → disk.exists d w ≡ true
      → disk.exists d (disk.write_json p m w).1 ≡ true

module _ {W E : Type 0} (disk : Disk W E) where
  abbrev Present : Text → W → Type 0
  Present d w = disk.exists d w ≡ true

  -- Whatever a call comes to, the directory is still there if each part keeps it.
  stays-called :
      {A : Type 0} (d : Text) (r : Result E A × W) → Present d r.1 → Present d (called r).1
  unfolding called
  stays-called d (ok a, w) h = h
  stays-called d (err e, w) h = h
  stays-called d (panic, w) h = h

  stays-go_on :
      {F A B : Type 0} (d : Text) (f : A → Work W F B) (r : Result F A × W)
      → Present d r.1
      → ((a : A) (w : W) → Present d w → Present d (f a w).1)
      → Present d (go_on f r).1
  unfolding go_on
  stays-go_on d f (ok a, w) h g = g a w h
  stays-go_on d f (err e, w) h g = h
  stays-go_on d f (panic, w) h g = h

  module _ (keeps : Keeps disk) where
    extract_into-stays :
        (d dir : Text) (files : List (Result E ZipFile)) (w : W)
        → Present d w
        → Present d (extract_into disk dir files w).1
    unfolding extract_into extract_entry go_on
    extract_into-stays d dir [] w h = h
    extract_into-stays d dir (ok z ∷ files) w h =
        stays-go_on d _ (called (disk.save _ z.content w))
          (stays-called d _ (keeps.save_stays d _ z.content w h))
          (λ u v g. extract_into-stays d dir files v g)
    extract_into-stays d dir (err e ∷ files) w h = h
    extract_into-stays d dir (panic ∷ files) w h = h

    extract_archive-stays :
        (d dir : Text) (files : List (Result E ZipFile)) (m : List TestCaseEntry) (w : W)
        → Present d (disk.create_dir_all dir w).1
        → Present d (extract_archive disk files m dir w).1
    unfolding extract_archive
    extract_archive-stays d dir files m w h =
        stays-go_on d _ (called (disk.create_dir_all dir w)) (stays-called d _ h) (λ _ v g.
          stays-go_on d _ (called (disk.write_json _ m v))
            (stays-called d _ (keeps.json_stays d _ m v g))
            (λ _ u k. extract_into-stays d dir files u k))

    -- Once the directory of an archive is made, whatever comes of the extraction, a later get for
    -- the archive downloads nothing and opens the handle on what there is.
    pub extraction_is_final :
        (visit : Table → Table) (root : Text) (id : ObjectId) (files : List (Result E ZipFile))
        (m : List TestCaseEntry) (w : W)
        → (disk.create_dir_all (get_archive_dir root id) w).0 ≡ ok tt
        → get disk visit root id (extract_archive disk files m (get_archive_dir root id) w).1
          ≡ new_handle disk
              (get_archive_dir root id)
              (get_metadata_file_path (get_archive_dir root id))
              (extract_archive disk files m (get_archive_dir root id) w).1
    unfolding get go_on
    extraction_is_final visit root id files m w h =
        rw (extract_archive-stays dir dir files m w (keeps.made dir w h)) refl
      where
        dir : Text
        dir = get_archive_dir root id
