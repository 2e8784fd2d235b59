-- ===== src/Driver/Archives/Integrity.antt =====
-- What try_from makes of an archive: the complete test cases, or what is wrong with it.
use wave_judge.Prelude.{
  and_then, Option, none, some, List, [], ◌∷◌, Text, ◌≡◌, ◌≢◌, ◌↔◌, ◌⊎◌, inl, inr, refl, arith, ok,
  err, panic, Result, map,
}
use mathlib.Core.List.{Memᴰ}
use wave_judge.Driver.Archives.Described.{IsFile, HasFile, is_described, found, is_found}
use wave_judge.Driver.Archives.Names.{
  files_of, nothing, entry_of, as_entry, Distinct, lookup_of_mem, mem_of_lookup, names, Scanned,
  whole, stopped, scan-Scanned,
}
use wave_judge.Driver.Archives.{
  missing_input_file, missing_answer_file, unknown, input_file, answer_file, get_kind, Files, Table,
  lookup, ZipFile, ArchiveError, bad_test_archive, unknown_entry, TestCaseEntry, check_files,
  ensure_integrity, get_metadata, try_from,
}

-- What an archive comes to. `entry` is a test case by its name.
abbrev pub entry : Text → TestCaseEntry
entry k = record { name = k }

pub data Outcome {E : Type 0} (ps : List Text)
    : Result (ArchiveError E) (List TestCaseEntry) → Type 0 where
  complete :
      (cases : List TestCaseEntry)
      → ((k : Text) → Memᴰ (entry k) cases ↔ HasFile input_file k ps)
      → ((k : Text) → HasFile input_file k ps ↔ HasFile answer_file k ps)
      → ((p : Text) → Memᴰ p ps → get_kind p ≢ unknown)
      → Outcome ps (ok cases)
  lacks_answer :
      (k p : Text)
      → IsFile input_file k ps p
      → ¬ HasFile answer_file k ps
      → Outcome ps (err (bad_test_archive (missing_answer_file p)))
  lacks_input :
      (k p : Text)
      → IsFile answer_file k ps p
      → ¬ HasFile input_file k ps
      → Outcome ps (err (bad_test_archive (missing_input_file p)))
  not_a_test :
      (p : Text)
      → Memᴰ p ps
      → get_kind p ≡ unknown
      → Outcome ps (err (bad_test_archive (unknown_entry p)))

-- The check of the records, in whatever order they come.
data Checked {E : Type 0} (v : Table) : Result (ArchiveError E) Unit → Type 0 where
  fine :
      ((k : Text) (i a : Option Text)
        → Memᴰ (k, record { input = i; answer = a }) v
        → (i ≢ none) × (a ≢ none))
      → Checked v (ok tt)
  no_answer :
      (k p : Text)
      → Memᴰ (k, record { input = some p; answer = none }) v
      → Checked v (err (bad_test_archive (missing_answer_file p)))
  no_input :
      (k p : Text)
      → Memᴰ (k, record { input = none; answer = some p }) v
      → Checked v (err (bad_test_archive (missing_input_file p)))
  hollow : (k : Text) → Memᴰ (k, nothing) v → Checked v panic

after_full :
    {E : Type 0} (k i a : Text) {v : Table} {r : Result (ArchiveError E) Unit}
    → Checked v r
    → Checked ((k, record { input = some i; answer = some a }) ∷ v) r
after_full k i a {v} (fine f) = fine among
  where
    among :
        (l : Text) (x y : Option Text)
        → Memᴰ
            (l, record { input = x; answer = y })
            ((k, record { input = some i; answer = some a }) ∷ v)
        → (x ≢ none) × (y ≢ none)
    among l x y (Memᴰ.head e) = (λ u. ground arith, λ u. ground arith)
    among l x y (Memᴰ.tail h) = f l x y h
after_full k i a (no_answer l p h) = no_answer l p (Memᴰ.tail h)
after_full k i a (no_input l p h) = no_input l p (Memᴰ.tail h)
after_full k i a (hollow l h) = hollow l (Memᴰ.tail h)

one_more :
    {E : Type 0} (k : Text) (i a : Option Text) (v : Table) {r : Result (ArchiveError E) Unit}
    → Checked {E = E} v r
    → Checked {E = E}
        ((k, record { input = i; answer = a }) ∷ v)
        (and_then (check_files i a) (λ _. r))
unfolding check_files and_then
one_more k (some i) (some a) v c = after_full k i a c
one_more k (some i) none v c = no_answer k i (Memᴰ.head refl)
one_more k none (some a) v c = no_input k a (Memᴰ.head refl)
one_more k none none v c = hollow k (Memᴰ.head refl)

ensure-Checked : {E : Type 0} (v : Table) → Checked {E = E} v (ensure_integrity v)
unfolding ensure_integrity
ensure-Checked [] = fine (λ k i a h. elim h [ ])
ensure-Checked ((k, r) ∷ v) = one_more k r.input r.answer v (ensure-Checked v)

abbrev cases_of : Table → List TestCaseEntry
cases_of v = map (λ e. record { name = e.0 }) v

mem_of_entry : (k : Text) (v : Table) → Memᴰ (entry k) (cases_of v) → (r : Files) × Memᴰ (k, r) v
mem_of_entry k [] h = elim h [ ]
mem_of_entry k ((l, r) ∷ v) (Memᴰ.head e) = (r, Memᴰ.head (ground arith))
mem_of_entry k ((l, r) ∷ v) (Memᴰ.tail h) =
    let (q, there) = mem_of_entry k v h in (q, Memᴰ.tail there)

entry_of_mem : (k : Text) (r : Files) (v : Table) → Memᴰ (k, r) v → Memᴰ (entry k) (cases_of v)
entry_of_mem k r [] h = elim h [ ]
entry_of_mem k r ((l, q) ∷ v) (Memᴰ.head e) = Memᴰ.head (ground arith)
entry_of_mem k r ((l, q) ∷ v) (Memᴰ.tail h) = Memᴰ.tail (entry_of_mem k r v h)

module _ (visit : Table → Table)
    (visits : (t : Table) (e : Text × Files) → Memᴰ e (visit t) ↔ Memᴰ e t) where
  module _ (ps : List Text) (t : Table)
      (right : (k : Text) → lookup k t ≡ as_entry (files_of k ps nothing)) (d : Distinct t)
      (known : (p : Text) → Memᴰ p ps → get_kind p ≢ unknown) where
    -- A record of the table is the description of its name, and of a file at least.
    read_off :
        (k : Text) (i a : Option Text)
        → Memᴰ (k, record { input = i; answer = a }) (visit t)
        → ((files_of k ps nothing).input ≡ i)
          × ((files_of k ps nothing).answer ≡ a)
          × ((i ≢ none) ⊎ (a ≢ none))
    unfolding entry_of
    read_off k i a h = ground (
      arith,
      lookup_of_mem k (record { input = i; answer = a }) t d
          ((visits t (k, record { input = i; answer = a })).0 h),
      right k,
    )

    -- A described name has its record among those visited.
    record_of :
        (k p : Text)
        → (((files_of k ps nothing).input ≡ some p) ⊎ ((files_of k ps nothing).answer ≡ some p))
        → Memᴰ (k, files_of k ps nothing) (visit t)
    unfolding entry_of
    record_of k p e =
        (visits t _).1 (mem_of_lookup k (files_of k ps nothing) t (ground (arith, right k)))

    integrity-Outcome :
        {E : Type 0} {r : Result (ArchiveError E) Unit}
        → Checked (visit t) r
        → Outcome ps (and_then r (λ _. ok (cases_of (visit t))))
    unfolding and_then
    integrity-Outcome (fine f) = complete (cases_of (visit t)) listed paired known
      where
        full :
            (k : Text)
            → Memᴰ (k, files_of k ps nothing) (visit t)
            → ((files_of k ps nothing).input ≢ none) × ((files_of k ps nothing).answer ≢ none)
        full k h = f k _ _ h

        listed : (k : Text) → Memᴰ (entry k) (cases_of (visit t)) ↔ HasFile input_file k ps
        listed k = (
          λ h.
              let (r, there) = mem_of_entry k (visit t) h in
              is_found input_file k ps (λ gone.
                ground (arith, read_off k r.input r.answer there, f k r.input r.answer there)),
          λ has.
              let (p, e) = found input_file k ps (λ u. ground arith) has in
              entry_of_mem k _ (visit t) (record_of k p (inl e)),
        )

        paired : (k : Text) → HasFile input_file k ps ↔ HasFile answer_file k ps
        paired k = (
          λ has.
              let (p, e) = found input_file k ps (λ u. ground arith) has in
              is_found answer_file k ps (full k (record_of k p (inl e))).1,
          λ has.
              let (p, e) = found answer_file k ps (λ u. ground arith) has in
              is_found input_file k ps (full k (record_of k p (inr e))).0,
        )
    integrity-Outcome (no_answer k p h) =
        lacks_answer k p (is_described input_file k p ps (read_off k (some p) none h).0) (λ has.
          let (q, e) = found answer_file k ps (λ u. ground arith) has in
          ground (arith, read_off k (some p) none h))
    integrity-Outcome (no_input k p h) =
        lacks_input k p (is_described answer_file k p ps (read_off k none (some p) h).1) (λ has.
          let (q, e) = found input_file k ps (λ u. ground arith) has in
          ground (arith, read_off k none (some p) h))
    integrity-Outcome (hollow k h) = absurd (ground (arith, read_off k none none h))

    table-Outcome : {E : Type 0} → Outcome {E = E} ps (get_metadata visit t)
    unfolding get_metadata
    table-Outcome = integrity-Outcome (ensure-Checked (visit t))

  Scanned-Outcome :
      {E : Type 0} {ps : List Text} {r : Result (ArchiveError E) Table}
      → Scanned ps (λ _. nothing) r
      → Outcome ps (and_then r (get_metadata visit))
  unfolding and_then
  Scanned-Outcome {ps} (whole t right d known) = table-Outcome ps t right d known
  Scanned-Outcome (stopped p h u) = not_a_test p h u

  -- The metadata of an archive that zip can read: it is made exactly when every entry is a test
  -- file and the names with an input file are those with an answer file, and then lists these
  -- names; an error names an entry that is no test file, or a file whose counterpart is missing;
  -- the builder never panics.
  pub try_from-Outcome :
      {E : Type 0} (zs : List ZipFile) → Outcome {E = E} (names zs) (try_from visit (map ok zs))
  unfolding try_from lookup Distinct entry_of
  try_from-Outcome zs = Scanned-Outcome (scan-Scanned zs (λ _. nothing) [] (λ k. refl) tt)
