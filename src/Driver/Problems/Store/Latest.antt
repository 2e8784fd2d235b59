-- ===== src/Driver/Problems/Store/Latest.antt =====
-- Where the metadata that get returns comes from.
use wave_judge.Prelude.{
  ℕ, ◌≤◌, Bool, true, false, Bool-cases, Option, none, some, List, Text, leb, leb→le, Result, ok,
  err, panic, if◌then◌else◌, ◌≡◌, refl, sym, ◌∙◌, ap, subst, ◌⊎◌, inl, inr, arith,
}
use wave_judge.Prelude.Work.{go_on, go_on-ok}
use wave_judge.Judge.Languages.{LanguageIdentifier, ProgramKind}
use wave_judge.Judge.Task.{CompilationResult, succeed, fail}
use wave_judge.Judge.Engine.Compiler.Results.{Outcome}
use wave_judge.Driver.ObjectIds.{ObjectId}
use wave_judge.Driver.Entities.{LanguageTriple, BoardMode}
use wave_judge.Driver.Workers.{ProblemMetadata, has_jury}
use wave_judge.Driver.Problems.{Value, ProblemInfo, from_info, from_db_row}
use wave_judge.Driver.Problems.Store.{
  Sources, timestamp_of, decoded, cached_row, jury_output, get_timestamp, get_cached, compile_jury,
  place_jury, with_jury, refresh, unless_cached, unless_newest, get,
}

decoded-some :
    {E : Type 0} (r : Result Unit ProblemMetadata) (p : ProblemMetadata)
    → decoded {E = E} r ≡ ok (some p)
    → r ≡ ok p
unfolding decoded
decoded-some (ok q) p h = ground arith
decoded-some (err e) p h = absurd (ground arith)
decoded-some panic p h = absurd (ground arith)

cached_row-some :
    {E : Type 0} (o : Option (List Value)) (p : ProblemMetadata)
    → cached_row {E = E} o ≡ ok (some p)
    → (row : List Value) × (o ≡ some row) × (from_db_row row ≡ ok p)
unfolding cached_row
cached_row-some none p h = absurd (ground arith)
cached_row-some {E} (some row) p h = (row, refl, decoded-some {E = E} (from_db_row row) p h)

jury_output-Outcome :
    {E : Type 0} (r : CompilationResult) → Outcome r → jury_output {E = E} r ≡ ok none
unfolding jury_output succeed fail
jury_output-Outcome r (inl (file, e)) = rw e refl
jury_output-Outcome r (inr (message, e)) = rw e refl

module _ {W E : Type 0} (sources : Sources W E) (jury_dir : Text) (id : ObjectId) where
  -- Decoded from a row while the time of the table was not behind the board's.
  pub record FromTable (w w' : W) (p : ProblemMetadata) : Type 0 where
    pub stored : Option Value
    pub row : List Value
    pub timestamp : ℕ
    pub remote : ℕ
    pub after_stored : W
    pub after_remote : W
    pub was_stored : sources.query_timestamp id w ≡ (ok stored, after_stored)
    pub has_timestamp : timestamp_of stored ≡ some timestamp
    pub was_remote : sources.problem_timestamp id after_stored ≡ (ok remote, after_remote)
    pub newest : remote ≤ timestamp
    pub was_row : sources.query_row id after_remote ≡ (ok (some row), w')
    pub reads : from_db_row row ≡ ok p

  -- The board's answer, with no compiled jury.
  pub record FromBoard (p : ProblemMetadata) : Type 0 where
    pub info : ProblemInfo
    pub before : W
    pub after : W
    pub answered : sources.problem_info id before ≡ (ok info, after)
    pub same : p ≡ from_info info

  abbrev pub CompilesAsEngine : Type 0
  CompilesAsEngine =
      (source : Text) (lang : LanguageIdentifier) (kind : ProgramKind) (w w' : W)
      (r : CompilationResult)
      → sources.compile_source source lang kind w ≡ (ok r, w')
      → Outcome r

  module _ (engine : CompilesAsEngine) where
    compile_jury-none :
        (src : Text) (lang : LanguageTriple) (mode : BoardMode) (w w' : W) (o : Option Text)
        → compile_jury sources jury_dir src lang mode w ≡ (ok o, w')
        → o ≡ none
    unfolding compile_jury
    compile_jury-none src lang mode w w' o h =
        let (kind, v, _, h₁) = go_on-ok {A = ProgramKind} _ _ h in
        let (r, v₁, compiled, h₂) = go_on-ok {A = CompilationResult} _ _ h₁ in
        agree r (jury_output-Outcome r (engine src _ kind v v₁ r compiled)) (ap (λ x. x.0) h₂)
      where
        agree :
            (r : CompilationResult)
            → ◌≡◌ {A = Result E (Option Text)} (jury_output r) (ok none)
            → ◌≡◌ {A = Result E (Option Text)} (jury_output r) (ok o)
            → o ≡ none
        agree r e f = ground (arith, e, f)

    place_jury-none :
        (p q : ProblemMetadata) (o : Option Text) (v w' : W)
        → o ≡ none
        → place_jury sources jury_dir p id o v ≡ (ok q, w')
        → q ≡ p
    unfolding place_jury
    place_jury-none p q none v w' e g = ground arith
    place_jury-none p q (some t) v w' e g = absurd (ground arith)

    with_jury-same :
        (p q : ProblemMetadata) (w w' : W) → with_jury sources jury_dir id p w ≡ (ok q, w') → q ≡ p
    unfolding with_jury
    with_jury-same p q w w' h =
        let (src, v, _, h₁) = go_on-ok {A = Text} _ _ h in
        let (lang, v₁, _, h₂) = go_on-ok {A = LanguageTriple} _ _ h₁ in
        let (o, v₂, compiled, h₃) = go_on-ok {A = Option Text} _ _ h₂ in
        place_jury-none p q o v₂ w' (compile_jury-none src lang p.judge_mode v₁ v₂ o compiled) h₃

    -- The jury of the board's problem never gets an executable.
    refresh-FromBoard :
        (p : ProblemMetadata) (w w' : W) → refresh sources jury_dir id w ≡ (ok p, w') → FromBoard p
    unfolding refresh
    refresh-FromBoard p w w' h =
        let (info, v, answered, h₁) = go_on-ok {A = ProblemInfo} _ _ h in
        let (q, v₁, made, h₂) = go_on-ok {A = ProblemMetadata} _ _ h₁ in
        let (u, v₂, _, h₃) = go_on-ok _ _ h₂ in
        record {
          info = info;
          before = w;
          after = v;
          answered = answered;
          same =
              returned q (ap (λ x. x.0) h₃) ∙ by_jury (has_jury (from_info info)) info q v v₁ made;
        }
      where
        returned : (q : ProblemMetadata) → ◌≡◌ {A = Result E ProblemMetadata} (ok q) (ok p) → p ≡ q
        returned q e = ground (arith, e)

        by_jury :
            (b : Bool) (info : ProblemInfo) (q : ProblemMetadata) (v v₁ : W)
            → (if b
                then with_jury sources jury_dir id (from_info info) v
                else (ok (from_info info), v))
              ≡ (ok q, v₁)
            → q ≡ from_info info
        by_jury true info q v v₁ made = with_jury-same (from_info info) q v v₁ made
        by_jury false info q v v₁ made = ground (arith, made)

    unless_cached-source :
        (o : Option ProblemMetadata) (p : ProblemMetadata) (w w' : W)
        → unless_cached sources jury_dir id o w ≡ (ok p, w')
        → ((o ≡ some p) × (w ≡ w')) ⊎ FromBoard p
    unfolding unless_cached
    unless_cached-source none p w w' h = inr (refresh-FromBoard p w w' h)
    unless_cached-source (some q) p w w' h = inl (ground arith)

    get_cached-some :
        (p : ProblemMetadata) (w w' : W)
        → get_cached sources jury_dir id w ≡ (ok (some p), w')
        → (row : List Value) × (sources.query_row id w ≡ (ok (some row), w'))
          × (from_db_row row ≡ ok p)
    unfolding get_cached
    get_cached-some p w w' h =
        let (o, v, asked, h₁) = go_on-ok {A = Option (List Value)} _ _ h in
        let (row, e, reads) = cached_row-some {E = E} o p (ap (λ x. x.0) h₁) in
        (row, asked ∙ ap (λ x. (ok x.0, x.1)) (pair e (ap (λ x. x.1) h₁)), reads)
      where
        pair :
            {o : Option (List Value)} {row : List Value} {v : W}
            → o ≡ some row
            → v ≡ w'
            → ◌≡◌ {A = Option (List Value) × W} (o, v) (some row, w')
        pair e f = cc

    cached-source :
        (p : ProblemMetadata) (w w' : W)
        → go_on (unless_cached sources jury_dir id) (get_cached sources jury_dir id w) ≡ (ok p, w')
        → (get_cached sources jury_dir id w ≡ (ok (some p), w')) ⊎ FromBoard p
    cached-source p w w' h =
        let (o, v, cached, h₁) = go_on-ok {A = Option ProblemMetadata} _ _ h in
        elim (unless_cached-source o p v w' h₁) [
          | inl (e, f) ↦ inl (cc cached)
          | inr board ↦ inr board
        ]

    newest-source :
        (stored : Option Value) (o : Option ℕ) (p : ProblemMetadata) (w v w' : W)
        → sources.query_timestamp id w ≡ (ok stored, v)
        → timestamp_of stored ≡ o
        → unless_newest sources jury_dir id o v ≡ (ok p, w')
        → FromTable w w' p ⊎ FromBoard p
    unfolding unless_newest
    newest-source stored none p w v w' asked e h = inr (refresh-FromBoard p v w' h)
    newest-source stored (some t) p w v w' asked e h =
        let (remote, v₁, was, h₁) = go_on-ok {A = ℕ} _ _ h in
        elim (Bool-cases (leb remote t)) [
          | inl new ↦
              elim (cached-source p v₁ w' (
                subst
                  (λ b.
                    (if b
                        then (λ w.
                            go_on (unless_cached sources jury_dir id)
                              (get_cached sources jury_dir id w))
                        else refresh sources jury_dir id)
                      v₁
                    ≡ (ok p, w'))
                  new h₁)) [
                    | inl cached ↦
                        let (row, was_row, reads) = get_cached-some p v₁ w' cached in
                        inl (record {
                          stored = stored;
                          row = row;
                          timestamp = t;
                          remote = remote;
                          after_stored = v;
                          after_remote = v₁;
                          was_stored = asked;
                          has_timestamp = e;
                          was_remote = was;
                          newest = leb→le remote t new;
                          was_row = was_row;
                          reads = reads;
                        })
                    | inr board ↦ inr board
                  ]
          | inr old ↦ inr (
              refresh-FromBoard p v₁ w' (
                subst
                  (λ b.
                    (if b
                        then (λ w.
                            go_on (unless_cached sources jury_dir id)
                              (get_cached sources jury_dir id w))
                        else refresh sources jury_dir id)
                      v₁
                    ≡ (ok p, w'))
                  old h₁))
        ]

    -- What get returns is the row of the table, read while its timestamp was not behind the
    -- board's, or else the board's answer, which then never has the executable of a jury; this for
    -- a fork server that compiles as the engine does.
    pub get-latest :
        (p : ProblemMetadata) (w w' : W)
        → get sources jury_dir id w ≡ (ok p, w')
        → FromTable w w' p ⊎ FromBoard p
    unfolding get get_timestamp go_on
    get-latest p w w' h =
        let (o, v, stamped, h₁) = go_on-ok {A = Option ℕ} _ _ h in
        let (stored, v₁, asked, h₂) = go_on-ok {A = Option Value} _ _ stamped in
        newest-source stored (timestamp_of stored) p w v₁ w' asked refl
          (subst (λ x. go_on (unless_newest sources jury_dir id) x ≡ (ok p, w')) (sym h₂) h₁)
