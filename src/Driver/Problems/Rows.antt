-- ===== src/Driver/Problems/Rows.antt =====
-- The literals that `save` writes and the row that `from_db_row` makes of their columns.
use wave_judge.Prelude.{
  ℕ, ◌^◌, ◌<◌, false, Option, none, some, map, Text, codes, contains, decimal, ok, and_then, ◌≡◌,
  refl, arith,
}
use wave_judge.Driver.ObjectIds.{ObjectId, fmt}
use wave_judge.Driver.ObjectIds.RoundTrip.{IsValid, from_str-fmt}
use wave_judge.Driver.Entities.{LanguageTriple, BoardMode, standard, special_judge, interactive}
use wave_judge.Driver.Workers.{ProblemMetadata}
use wave_judge.Driver.Problems.{
  Value, null, string, integer, as_string, as_integer, column, required, read_id, read_mode,
  read_number, read_language, read_path, from_db_row, quoted, optional, mode_number,
  language_literals, save_literals,
}

-- A text that may stand between single quotes in a statement: no quote, no NUL.
pub record IsPlain (t : Text) : Type 0 where
  pub quote_free : contains 39 t ≡ false
  pub nul_free : contains 0 t ≡ false

abbrev pub IsPlainOption : Option Text → Type 0
IsPlainOption none = Unit
IsPlainOption (some t) = IsPlain t

abbrev pub IsPlainLanguage : Option LanguageTriple → Type 0
IsPlainLanguage none = Unit
IsPlainLanguage (some l) = IsPlain l.identifier × IsPlain l.dialect × IsPlain l.version

-- How SQLite reads the literals of a statement back from a column of the fitting type: a text
-- between quotes, a number that an i64 holds, and NULL.
pub record SqlLiterals (parse : Text → Value) : Type 0 where
  pub parse_text : (t : Text) → IsPlain t → parse (quoted t) ≡ string t
  pub parse_number : (n : ℕ) → n < 2 ^ 63 → parse (decimal n) ≡ integer n
  pub parse_null : parse (codes "NULL") ≡ null

pub record IsStorable (p : ProblemMetadata) : Type 0 where
  pub id_valid : IsValid p.id
  pub archive_valid : IsValid p.archive_id
  pub plain_ids : IsPlain (fmt p.id) × IsPlain (fmt p.archive_id)
  pub time_small : p.time_limit < 2 ^ 63
  pub memory_small : p.memory_limit < 2 ^ 63
  pub timestamp_small : p.timestamp < 2 ^ 63
  pub plain_src : IsPlainOption p.jury_src
  pub plain_path : IsPlainOption p.jury_exec_path
  pub plain_lang : IsPlainLanguage p.jury_lang

module _ (parse : Text → Value) (sql : SqlLiterals parse) where
  parse-optional :
      (o : Option Text)
      → IsPlainOption o
      → (as_string (parse (optional o)) ≡ o) × (read_path (parse (optional o)) ≡ ok o)
  unfolding optional as_string read_path
  parse-optional none h = (rw sql.parse_null refl, rw sql.parse_null refl)
  parse-optional (some t) h = (rw (sql.parse_text t h) refl, rw (sql.parse_text t h) refl)

  parse-id :
      (id : ObjectId) → IsValid id → IsPlain (fmt id) → read_id (parse (quoted (fmt id))) ≡ ok id
  unfolding read_id as_string required and_then
  parse-id id v h = rw (sql.parse_text (fmt id) h) (from_str-fmt id v)

  parse-mode : (m : BoardMode) → read_mode (parse (decimal (mode_number m))) ≡ ok m
  unfolding read_mode mode_number as_integer required and_then
  parse-mode standard = rw (sql.parse_number 0 (omega arith)) refl
  parse-mode special_judge = rw (sql.parse_number 1 (omega arith)) refl
  parse-mode interactive = rw (sql.parse_number 2 (omega arith)) refl

  parse-number : (n : ℕ) → n < 2 ^ 63 → read_number (parse (decimal n)) ≡ ok n
  unfolding read_number as_integer required
  parse-number n h = rw (sql.parse_number n h) refl

  parse-language :
      (l : LanguageTriple)
      → IsPlainLanguage (some l)
      → read_language
          (as_string (parse (quoted l.identifier)))
          (as_string (parse (quoted l.dialect)))
          (as_string (parse (quoted l.version)))
        ≡ some l
  unfolding read_language as_string
  parse-language l h = rw (sql.parse_text _ h.0, sql.parse_text _ h.1, sql.parse_text _ h.2) refl

  parse-no_language :
      read_language
        (as_string (parse (codes "NULL")))
        (as_string (parse (codes "NULL")))
        (as_string (parse (codes "NULL")))
      ≡ none
  unfolding read_language as_string
  parse-no_language = rw sql.parse_null refl

  -- The row that the statement of save leaves in the table reads back as the metadata, when its
  -- texts have no quote and no NUL and its numbers are below 2 ^ 63.
  pub from_db_row-save :
      (p : ProblemMetadata) → IsStorable p → from_db_row (map parse (save_literals p)) ≡ ok p
  unfolding from_db_row save_literals language_literals column and_then
  from_db_row-save p s = by_language p.jury_lang s.plain_lang
    where
      by_language :
          (l : Option LanguageTriple)
          → IsPlainLanguage l
          → from_db_row (map parse (save_literals (record p { jury_lang = l })))
            ≡ ok (record p { jury_lang = l })
      by_language none h =
          rw
            (
              parse-id p.id s.id_valid s.plain_ids.0,
              parse-mode p.judge_mode,
              parse-number p.time_limit s.time_small,
              parse-number p.memory_limit s.memory_small,
              (parse-optional p.jury_src s.plain_src).0,
              parse-no_language,
              (parse-optional p.jury_exec_path s.plain_path).1,
              parse-id p.archive_id s.archive_valid s.plain_ids.1,
              parse-number p.timestamp s.timestamp_small,
            )
            refl
      by_language (some l) h =
          rw
            (
              parse-id p.id s.id_valid s.plain_ids.0,
              parse-mode p.judge_mode,
              parse-number p.time_limit s.time_small,
              parse-number p.memory_limit s.memory_small,
              (parse-optional p.jury_src s.plain_src).0,
              parse-language l h,
              (parse-optional p.jury_exec_path s.plain_path).1,
              parse-id p.archive_id s.archive_valid s.plain_ids.1,
              parse-number p.timestamp s.timestamp_small,
            )
            refl
