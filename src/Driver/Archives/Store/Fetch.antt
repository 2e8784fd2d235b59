-- ===== src/Driver/Archives/Store/Fetch.antt =====
-- What get returns for an archive that is not on the disk.
use wave_judge.Prelude.{
  List, [], ◌∷◌, ◌++◌, map, Text, codes, text_eq, false, Bool-cases, if◌then◌else◌, Result, ok, err,
  panic, ◌≡◌, ◌≢◌, ◌↔◌, refl, sym, ◌∙◌, inl, inr, ap, subst, arith,
}
use wave_judge.Prelude.Work.{Work, go_on, go_on-ok}
use mathlib.Core.List.{Memᴰ}
use wave_judge.Sandbox.Launch.{push_path, ends_with_slash}
use wave_judge.Driver.Archives.Paths.{
  split_last, cut_before, file_name, name_behind, extension, extension_of,
}
use wave_judge.Driver.ObjectIds.{ObjectId}
use wave_judge.Driver.Archives.{
  Files, unknown, get_kind, ZipFile, ArchiveError, Table, TestCaseEntry, try_from,
}
use wave_judge.Driver.Archives.Names.{names}
use wave_judge.Driver.Archives.Integrity.{Outcome, complete, try_from-Outcome}
use wave_judge.Driver.Archives.Store.{
  Disk, TestArchiveHandle, called, extract_entry, extract_into, get_archive_dir,
  get_metadata_file_path, extract_archive, download_archive, new_handle, get,
}

append-cancel : (xs a b : Text) → xs ++ a ≡ xs ++ b → a ≡ b
append-cancel [] a b h = h
append-cancel (x ∷ xs) a b h = append-cancel xs a b (ground arith)

push_path-cancel : (dir a b : Text) → push_path dir a ≡ push_path dir b → a ≡ b
unfolding push_path
push_path-cancel [] a b h = h
push_path-cancel (x ∷ dir) a b h = elim (Bool-cases (ends_with_slash (x ∷ dir))) [
  | inl e ↦ append-cancel (x ∷ dir) a b (ground arith)
  | inr e ↦ ground (arith, append-cancel (x ∷ dir) (47 ∷ a) (47 ∷ b))
]

-- The JSON of a file reads as it was written, until the file is written again.
pub record Reads {W E : Type 0} (disk : Disk W E) : Type 0 where
  pub written :
      (p : Text) (m : List TestCaseEntry) (w : W)
      → (disk.write_json p m w).0 ≡ ok tt
      → (disk.read_json p (disk.write_json p m w).1).0 ≡ ok m
  pub unrelated :
      (p q c : Text) (w : W)
      → p ≢ q
      → (disk.read_json p (disk.save q c w).1).0 ≡ (disk.read_json p w).0

called-ok :
    {W E A : Type 0} (x : Result E A × W) {a : A} {w : W} → called x ≡ (ok a, w) → x ≡ (ok a, w)
unfolding called
called-ok (ok a, w) h = ground arith
called-ok (err e, w) h = cc
called-ok (panic, w) h = cc

complete-known :
    {E : Type 0} {ps : List Text} {r : Result (ArchiveError E) (List TestCaseEntry)}
    → Outcome ps r
    → (m : List TestCaseEntry) → r ≡ ok m
    → (p : Text) → Memᴰ p ps
    → get_kind p ≢ unknown
complete-known (complete cases _ _ known) m e = known
complete-known (Outcome.lacks_answer k p _ _) m e = cc
complete-known (Outcome.lacks_input k p _ _) m e = cc
complete-known (Outcome.not_a_test p _ _) m e = cc

metadata-apart :
    (dir p : Text) → get_kind p ≢ unknown → get_metadata_file_path dir ≢ push_path dir p
unfolding get_metadata_file_path get_kind extension file_name extension_of split_last cut_before
    name_behind text_eq
metadata-apart dir p known e =
    known (sym (ap get_kind (push_path-cancel dir (codes "metadata.json") p e)))

module _ {W E : Type 0} (disk : Disk W E) (reads : Reads disk) where
  extract_into-reads :
      (dir : Text) (zs : List ZipFile) (w : W)
      → ((p : Text) → Memᴰ p (names zs) → get_kind p ≢ unknown)
      → {w' : W} → extract_into disk dir (map ok zs) w ≡ (ok tt, w')
      → (disk.read_json (get_metadata_file_path dir) w').0
        ≡ (disk.read_json (get_metadata_file_path dir) w).0
  unfolding extract_into extract_entry
  extract_into-reads dir [] w known h = ground arith
  extract_into-reads dir (z ∷ zs) w known {w'} h =
      let (u, v, one, rest) = go_on-ok _ _ h in
      let saved = called-ok (disk.save (push_path dir z.sanitized_name) z.content w) one in
      extract_into-reads dir zs v (λ p g. known p (Memᴰ.tail g)) rest
      ∙ subst
          (λ x.
            (disk.read_json (get_metadata_file_path dir) x.1).0
            ≡ (disk.read_json (get_metadata_file_path dir) w).0)
          saved
          (reads.unrelated _ _ z.content w
            (metadata-apart dir z.sanitized_name (known z.sanitized_name (Memᴰ.head refl))))

  extract_archive-reads :
      (dir : Text) (zs : List ZipFile) (m : List TestCaseEntry) (w w' : W)
      → ((p : Text) → Memᴰ p (names zs) → get_kind p ≢ unknown)
      → extract_archive disk (map ok zs) m dir w ≡ (ok tt, w')
      → (disk.read_json (get_metadata_file_path dir) w').0 ≡ ok m
  unfolding extract_archive
  extract_archive-reads dir zs m w w' known q =
      let (u, v, made, q₁) = go_on-ok _ _ q in
      let (u, v₁, wrote, q₂) = go_on-ok _ _ q₁ in
      extract_into-reads dir zs v₁ known q₂
      ∙ json-reads (get_metadata_file_path dir) m v v₁ (called-ok _ wrote)
    where
      json-reads :
          (p : Text) (m : List TestCaseEntry) (v v₁ : W)
          → disk.write_json p m v ≡ (ok tt, v₁)
          → (disk.read_json p v₁).0 ≡ ok m
      json-reads p m v v₁ e =
          subst (λ x. (disk.read_json p x.1).0 ≡ ok m) e (reads.written p m v (ap (λ x. x.0) e))

  listed-reads :
      (dir : Text) (zs : List ZipFile) (r : Result (ArchiveError E) (List TestCaseEntry)) (w w' : W)
      → Outcome (names zs) r
      → go_on (λ m. extract_archive disk (map ok zs) m dir) (r, w) ≡ (ok tt, w')
      → (m : List TestCaseEntry) × (r ≡ ok m)
        × ((disk.read_json (get_metadata_file_path dir) w').0 ≡ ok m)
  unfolding go_on
  listed-reads dir zs (ok m) w w' o q =
      (m, refl, extract_archive-reads dir zs m w w' (complete-known o m refl) q)
  listed-reads dir zs (err e) w w' o q = absurd (ground arith)
  listed-reads dir zs panic w w' o q = absurd (ground arith)

  handle-reads :
      (dir path : Text) (m : List TestCaseEntry) (w w' : W) (h : TestArchiveHandle)
      → (disk.read_json path w).0 ≡ ok m
      → new_handle disk dir path w ≡ (ok h, w')
      → (h.dir ≡ dir) × (h.metadata ≡ m)
  unfolding new_handle
  handle-reads dir path m w w' h stored q =
      let (n, v, read, q₁) = go_on-ok {A = List TestCaseEntry} _ _ q in
      agree n (ap (λ x. x.0) (called-ok _ read)) (ap (λ x. x.0) q₁)
    where
      agree :
          (n : List TestCaseEntry)
          → (disk.read_json path w).0 ≡ ok n
          → ◌≡◌ {A = Result (ArchiveError E) TestArchiveHandle}
              (ok (record { dir = dir; metadata = n }))
              (ok h)
          → (h.dir ≡ dir) × (h.metadata ≡ m)
      agree n e f = ground (arith, e, f, stored)

  module _ (visit : Table → Table)
      (visits : (t : Table) (e : Text × Files) → Memᴰ e (visit t) ↔ Memᴰ e t) (root : Text) where
    download-reads :
        (id : ObjectId) (dir : Text) (w w' v : W) (zs : List ZipFile)
        → disk.download id w ≡ (ok (map ok zs), v)
        → download_archive disk visit root id dir w ≡ (ok tt, w')
        → (m : List TestCaseEntry) × (try_from visit {E = E} (map ok zs) ≡ ok m)
          × ((disk.read_json (get_metadata_file_path dir) w').0 ≡ ok m)
    unfolding download_archive called go_on
    download-reads id dir w w' v zs came q =
        listed-reads dir zs (try_from visit (map ok zs)) v w' (try_from-Outcome visit visits zs)
          (subst (λ x. go_on next (called x) ≡ (ok tt, w')) came q)
      where
        next : List (Result E ZipFile) → Work W (ArchiveError E) Unit
        next files w = go_on (λ m. extract_archive disk files m dir) (try_from visit files, w)

    -- When get returns a handle of an archive that was not on the disk, and zip could read the
    -- archive that came from the board, the handle has the metadata of that archive: by try_from,
    -- its test cases and no others.
    pub get-fetches :
        (id : ObjectId) (w w' v : W) (zs : List ZipFile) (h : TestArchiveHandle)
        → disk.exists (get_archive_dir root id) w ≡ false
        → disk.download id w ≡ (ok (map ok zs), v)
        → get disk visit root id w ≡ (ok h, w')
        → (h.dir ≡ get_archive_dir root id) × (try_from visit {E = E} (map ok zs) ≡ ok h.metadata)
    unfolding get
    get-fetches id w w' v zs h absent came q =
        let (u, w₁, got, q₁) = go_on-ok _ _ (
          subst (λ b. go_on (λ _. opened) (if b then (ok tt, w) else fetched) ≡ (ok h, w')) absent
            q) in
        let (m, listed, stored) = download-reads id dir w w₁ v zs came got in
        let (placed, same) = handle-reads dir (get_metadata_file_path dir) m w₁ w' h stored q₁ in
        (placed, listed ∙ ap ok (sym same))
      where
        dir : Text
        dir = get_archive_dir root id

        fetched : Result (ArchiveError E) Unit × W
        fetched = download_archive disk visit root id dir w

        opened : Work W (ArchiveError E) TestArchiveHandle
        opened = new_handle disk dir (get_metadata_file_path dir)
