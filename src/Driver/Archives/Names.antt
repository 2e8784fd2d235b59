-- ===== src/Driver/Archives/Names.antt =====
-- The table of the builder, name by name: what lookup finds after each addition, and after all the
-- files of an archive.
use wave_judge.Prelude.{
  and_then, Option, none, some, List, [], ◌∷◌, Text, Bool-cases, text_eq, text_eq_refl,
  text_eq_sound, if◌then◌else◌, ◌≡◌, ◌≢◌, refl, sym, ◌∙◌, ap, arith, inl, inr, ◌⊎◌, ok, err, Result,
  map,
}
use mathlib.Core.List.{Memᴰ}
use wave_judge.Driver.Archives.Paths.{extension, file_name, parent, file_stem}
use wave_judge.Driver.Archives.{
  EntryKind, unknown, input_file, answer_file, get_kind, strip_extension, stripped, Files, Table,
  lookup, upsert, add_input_file, add_answer_file, inserted, ZipFile, ArchiveError,
  bad_test_archive, unknown_entry, scan, scan_entry, scan_name,
}

-- A description of the table: the files that the archive has for the test case `k`, the last one of
-- each kind.
unfoldable pub seen : EntryKind → Option Text → Text → Text → Files → Files
seen input_file (some n) k p r = if text_eq k n then record r { input = some p } else r
seen answer_file (some n) k p r = if text_eq k n then record r { answer = some p } else r
seen _ _ k p r = r

unfoldable pub files_of : Text → List Text → Files → Files
files_of k [] r = r
files_of k (p ∷ ps) r = files_of k ps (seen (get_kind p) (strip_extension p) k p r)

abbrev pub nothing : Files
nothing = record { input = none; answer = none }

unfoldable pub entry_of : Option Text → Option Text → Option Files
entry_of none none = none
entry_of i a = some (record { input = i; answer = a })

abbrev pub as_entry : Files → Option Files
as_entry r = entry_of r.input r.answer

unfoldable pub changed : (Files → Files) → Files → Option Files → Option Files
changed f fresh none = some fresh
changed f fresh (some r) = some (f r)

pub lookup-upsert :
    (f : Files → Files) (fresh : Files) (n k : Text) (t : Table)
    → lookup k (upsert f fresh n t)
      ≡ (if text_eq k n then changed f fresh (lookup n t) else lookup k t)
unfolding lookup upsert changed
lookup-upsert f fresh n k [] = refl
lookup-upsert f fresh n k ((m, r) ∷ t) = elim (Bool-cases (text_eq n m)) [
  | inl e ↦ ground (arith, text_eq_sound n m e, text_eq_refl m)
  | inr e ↦ ground (arith, lookup-upsert f fresh n k t, text_eq_sound k m, text_eq_sound k n)
]

unfoldable pub Distinct : Table → Type 0
Distinct [] = Unit
Distinct ((k, r) ∷ rest) = (lookup k rest ≡ none) × Distinct rest

pub upsert-Distinct :
    (f : Files → Files) (fresh : Files) (n : Text) (t : Table)
    → Distinct t
    → Distinct (upsert f fresh n t)
unfolding Distinct upsert lookup
upsert-Distinct f fresh n [] d = (refl, tt)
upsert-Distinct f fresh n ((m, r) ∷ t) d = elim (Bool-cases (text_eq n m)) [
  | inl e ↦ rw e ((d.0, d.1))
  | inr e ↦ rw e (
      (
        ground (arith, lookup-upsert f fresh n m t, text_eq_sound m n, text_eq_refl m, d.0),
        upsert-Distinct f fresh n t d.1,
      ))
]

pub lookup_of_mem :
    (k : Text) (r : Files) (t : Table) → Distinct t → Memᴰ (k, r) t → lookup k t ≡ some r
unfolding Distinct lookup
lookup_of_mem k r [] d h = elim h [ ]
lookup_of_mem k r ((m, q) ∷ t) d (Memᴰ.head e) = ground (arith, text_eq_refl k)
lookup_of_mem k r ((m, q) ∷ t) d (Memᴰ.tail h) =
    ground (arith, lookup_of_mem k r t d.1 h, text_eq_sound k m)

pub mem_of_lookup : (k : Text) (r : Files) (t : Table) → lookup k t ≡ some r → Memᴰ (k, r) t
unfolding lookup
mem_of_lookup k r [] h = absurd (ground arith)
mem_of_lookup k r ((m, q) ∷ t) h = elim (Bool-cases (text_eq k m)) [
  | inl e ↦ Memᴰ.head (ground (arith, text_eq_sound k m e))
  | inr e ↦ Memᴰ.tail (mem_of_lookup k r t (ground arith))
]

-- A name is kept of every file that has one of the two extensions.
pub strip-some : (p : Text) → get_kind p ≢ unknown → (k : Text) × (strip_extension p ≡ some k)
unfolding get_kind extension file_name strip_extension stripped parent file_stem
strip-some [] h = absurd (h refl)
strip-some (c ∷ p) h = (_, refl)

module _ (g : Text → Files) (t : Table) (same : (k : Text) → lookup k t ≡ as_entry (g k)) where
  lookup-input :
      (n p k : Text)
      → lookup k
          (upsert (λ r. record r { input = some p }) (record { input = some p; answer = none }) n t)
        ≡ as_entry (seen input_file (some n) k p (g k))
  unfolding seen changed entry_of
  lookup-input n p k = ground (
    arith,
    lookup-upsert (λ r. record r { input = some p }) (record { input = some p; answer = none }) n k
        t,
    same n,
    same k,
    text_eq_sound k n,
  )

  lookup-answer :
      (n p k : Text)
      → lookup k (
          upsert (λ r. record r { answer = some p }) (record { input = none; answer = some p }) n t)
        ≡ as_entry (seen answer_file (some n) k p (g k))
  unfolding seen changed entry_of
  lookup-answer n p k = ground (
    arith,
    lookup-upsert (λ r. record r { answer = some p }) (record { input = none; answer = some p }) n k
        t,
    same n,
    same k,
    text_eq_sound k n,
  )

  -- One file more: an entry of another kind ends the scan, and the table is right again otherwise.
  scan_name-seen :
      {E : Type 0} (κ : EntryKind) (p : Text)
      → Distinct t
      → κ ≢ unknown
      → (n : Text) → strip_extension p ≡ some n
      → (t' : Table) × (scan_name {E = E} κ p t ≡ ok t')
        × ((k : Text) → lookup k t' ≡ as_entry (seen κ (strip_extension p) k p (g k)))
        × Distinct t'
  unfolding scan_name add_input_file add_answer_file inserted
  scan_name-seen unknown p d known n e = absurd (known refl)
  scan_name-seen input_file p d known n e =
      rw e ((_, refl, lookup-input n p, upsert-Distinct _ _ n t d))
  scan_name-seen answer_file p d known n e =
      rw e ((_, refl, lookup-answer n p, upsert-Distinct _ _ n t d))

abbrev pub names : List ZipFile → List Text
names zs = map (λ z. z.sanitized_name) zs

pub data Scanned {E : Type 0} (ps : List Text) (g : Text → Files)
    : Result (ArchiveError E) Table → Type 0 where
  whole :
      (t : Table)
      → ((k : Text) → lookup k t ≡ as_entry (files_of k ps (g k)))
      → Distinct t
      → ((p : Text) → Memᴰ p ps → get_kind p ≢ unknown)
      → Scanned ps g (ok t)
  stopped :
      (p : Text)
      → Memᴰ p ps
      → get_kind p ≡ unknown
      → Scanned ps g (err (bad_test_archive (unknown_entry p)))

Kind-cases : (κ : EntryKind) → (κ ≡ unknown) ⊎ (κ ≢ unknown)
Kind-cases unknown = inl refl
Kind-cases input_file = inr (λ e. ground arith)
Kind-cases answer_file = inr (λ e. ground arith)

-- A file more at the front.
extended :
    {E : Type 0} {ps : List Text} {g : Text → Files} {r : Result (ArchiveError E) Table} (p : Text)
    → get_kind p ≢ unknown
    → Scanned ps (λ k. seen (get_kind p) (strip_extension p) k p (g k)) r
    → Scanned (p ∷ ps) g r
unfolding files_of
extended {ps} p known (whole t right d all_known) = whole t right d among
  where
    among : (q : Text) → Memᴰ q (p ∷ ps) → get_kind q ≢ unknown
    among q (Memᴰ.head e) u = known (ap get_kind (sym e) ∙ u)
    among q (Memᴰ.tail h) u = all_known q h u
extended p known (stopped q h u) = stopped q (Memᴰ.tail h) u

pub scan-Scanned :
    {E : Type 0} (zs : List ZipFile) (g : Text → Files) (t : Table)
    → ((k : Text) → lookup k t ≡ as_entry (g k))
    → Distinct t
    → Scanned {E = E} (names zs) g (scan (map ok zs) t)
unfolding scan scan_entry and_then files_of
scan-Scanned [] g t same d = whole t same d (λ p h. elim h [ ])
scan-Scanned {E} (z ∷ zs) g t same d = elim (Kind-cases (get_kind z.sanitized_name)) [
  | inl e ↦ rw e (stopped z.sanitized_name (Memᴰ.head refl) e)
  | inr known ↦
      let (n, e) = strip-some z.sanitized_name known in
      let (t', read, right, apart) =
        scan_name-seen g t same {E = E} (get_kind z.sanitized_name) z.sanitized_name d known n e in
      rw read (extended z.sanitized_name known (scan-Scanned zs _ t' right apart))
]
