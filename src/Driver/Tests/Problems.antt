-- ===== src/Driver/Tests/Problems.antt =====
-- A reader of SQL literals, and a board with one problem.
use wave_judge.Prelude.{
  ℕ, zero, suc, ◌+◌, ◌-◌, ◌*◌, ◌/◌, ◌%◌, ◌<◌, ◌≤◌, false, Bool-cases, none, some, [], ◌∷◌, ◌++◌,
  map, replicate, Text, codes, contains, decimal, digits_of, ltb, ltb→lt, lt→ltb, ok, if◌then◌else◌,
  ◌≡◌, ◌⊎◌, inl, inr, refl, ◌∙◌, ap, arith,
}
use wave_judge.Prelude.Work.{go_on}
use wave_judge.Judge.Task.{fail}
use wave_judge.Driver.ObjectIds.{ObjectId, fmt}
use wave_judge.Driver.ObjectIds.RoundTrip.{IsValid}
use wave_judge.Driver.Entities.{special_judge}
use wave_judge.Driver.Workers.{ProblemMetadata, has_jury}
use wave_judge.Driver.Problems.{
  Value, null, string, integer, quoted, ProblemInfo, from_info, from_db_row, save_literals,
}
use wave_judge.Driver.Problems.Rows.{IsPlain, SqlLiterals, IsStorable, from_db_row-save}
use wave_judge.Driver.Problems.Store.{
  Sources, get, get_timestamp, timestamp_of, refresh, with_jury, compile_jury, jury_output,
  place_jury, unless_newest,
}
use wave_judge.Driver.Problems.Store.Latest.{FromTable, FromBoard, CompilesAsEngine, get-latest}

fold_value : ℕ → Text → ℕ
fold_value a [] = a
fold_value a (c ∷ cs) = fold_value (a * 10 + (c - 48)) cs

without_last : Text → Text
without_last [] = []
without_last (x ∷ []) = []
without_last (x ∷ y ∷ rest) = x ∷ without_last (y ∷ rest)

unquoted : Text → Text
unfolding without_last
unquoted [] = []
unquoted (c ∷ t) = without_last t

read_literal : Text → Value
unfolding unquoted fold_value
read_literal t =
    if contains 39 t
    then string (unquoted t)
    else if contains 78 t
    then null
    else integer (fold_value 0 t)

without_last-append : (t : Text) → without_last (t ++ 39 ∷ []) ≡ t
unfolding without_last
without_last-append [] = refl
without_last-append (x ∷ []) = refl
without_last-append (x ∷ y ∷ t) = ap (λ (r : Text). x ∷ r) (without_last-append (y ∷ t))

-- One digit read.
one_digit :
    (q n : ℕ) (acc : Text)
    → q * 10 + n % 10 ≡ n
    → fold_value q ((48 + n % 10) ∷ acc) ≡ fold_value n acc
unfolding fold_value
one_digit q n acc h = ap (λ v. fold_value v acc) (omega arith)

fold_value-digits :
    (f n : ℕ) (acc : Text) → n < f → fold_value 0 (digits_of f n acc) ≡ fold_value n acc
unfolding digits_of
fold_value-digits zero n acc h = absurd (omega arith)
fold_value-digits (suc f) n acc h = elim (Bool-cases (ltb n 10)) [
  | inl small ↦ rw small (one_digit 0 n acc (omega (arith, ltb→lt n 10 small)))
  | inr large ↦ rw large (
      fold_value-digits f (n / 10) ((48 + n % 10) ∷ acc) (omega (arith, not_small n large))
      ∙ one_digit (n / 10) n acc (omega arith))
]
  where
    not_small : (n : ℕ) → ltb n 10 ≡ false → 10 ≤ n
    not_small n e = ground (arith, lt→ltb n 10)

digit-apart :
    (b n : ℕ) (acc : Text) → (b < 48) ⊎ (57 < b) → contains b ((48 + n % 10) ∷ acc) ≡ contains b acc
unfolding contains
digit-apart b n acc h = ground arith

contains-digits :
    (b f n : ℕ) (acc : Text) → (b < 48) ⊎ (57 < b) → contains b (digits_of f n acc) ≡ contains b acc
unfolding digits_of
contains-digits b zero n acc h = refl
contains-digits b (suc f) n acc h = elim (Bool-cases (ltb n 10)) [
  | inl small ↦ rw small (digit-apart b n acc h)
  | inr large ↦
      rw large (contains-digits b f (n / 10) ((48 + n % 10) ∷ acc) h ∙ digit-apart b n acc h)
]

read_literal-SqlLiterals : SqlLiterals read_literal
unfolding read_literal quoted unquoted contains decimal
read_literal-SqlLiterals = record {
  parse_text = λ t h. ap string (without_last-append t);
  parse_number = λ n h.
      rw
        (
          contains-digits 39 (n + 1) n [] (inl (omega arith)),
          contains-digits 78 (n + 1) n [] (inr (omega arith)),
        )
        (ap integer (fold_value-digits (n + 1) n [] (omega arith)));
  parse_null = refl;
}

abbrev an_id : ObjectId
an_id = record { raw = replicate 12 7 }

an_id-IsValid : IsValid an_id
an_id-IsValid = record { size = refl; bytes = ground arith }

abbrev checked_problem : ProblemMetadata
checked_problem = record {
  id = an_id;
  judge_mode = special_judge;
  time_limit = 1000;
  memory_limit = 256;
  jury_src = some (codes "main");
  jury_lang = some (record { identifier = codes "c"; dialect = codes "gnu"; version = codes "11" });
  jury_exec_path = none;
  archive_id = an_id;
  timestamp = 9;
}

checked_problem-IsStorable : IsStorable checked_problem
unfolding contains fmt
checked_problem-IsStorable = record {
  id_valid = an_id-IsValid;
  archive_valid = an_id-IsValid;
  plain_ids = (plain, plain);
  time_small = omega arith;
  memory_small = omega arith;
  timestamp_small = omega arith;
  plain_src = record { quote_free = refl; nul_free = refl };
  plain_path = tt;
  plain_lang = (
    record { quote_free = refl; nul_free = refl },
    record { quote_free = refl; nul_free = refl },
    record { quote_free = refl; nul_free = refl },
  );
}
  where
    plain : IsPlain (fmt an_id)
    plain = record { quote_free = refl; nul_free = refl }

from_db_row-save_example :
    from_db_row (map read_literal (save_literals checked_problem)) ≡ ok checked_problem
from_db_row-save_example =
    from_db_row-save read_literal read_literal-SqlLiterals checked_problem
      checked_problem-IsStorable

abbrev an_info : ProblemInfo
an_info = record {
  id = an_id;
  judge_mode = special_judge;
  time_limit = 1000;
  memory_limit = 256;
  jury_src = codes "main";
  jury_lang = record { identifier = codes "c"; dialect = codes "gnu"; version = codes "11" };
  archive_id = an_id;
  timestamp = 9;
}

-- an empty table, and a compiler that rejects every program
abbrev fresh_table : Sources Unit Text
fresh_table = record {
  query_timestamp = λ id w. (ok none, w);
  query_row = λ id w. (ok none, w);
  insert = λ row w. (ok tt, w);
  problem_timestamp = λ id w. (ok 9, w);
  problem_info = λ id w. (ok an_info, w);
  compile_source = λ source lang kind w. (ok (fail (codes "no main")), w);
  copy = λ a b w. (ok tt, w);
}

rejects : CompilesAsEngine fresh_table (codes "/jury") an_id
rejects source lang kind w w' r h = inr (codes "no main", cc)

get-latest_example :
    FromTable fresh_table (codes "/jury") an_id tt tt (from_info an_info)
    ⊎ FromBoard fresh_table (codes "/jury") an_id (from_info an_info)
unfolding get go_on get_timestamp timestamp_of unless_newest refresh from_info has_jury with_jury
    compile_jury jury_output place_jury fail
get-latest_example =
    get-latest fresh_table (codes "/jury") an_id rejects (from_info an_info) tt tt refl
