-- ===== src/Judge/Engine/Executor/Runs.antt =====
-- What `execute_judgee` leaves in the result of a test case, and when it keeps the output.
use wave_judge.Prelude.{
  ℕ, ◌≡◌, refl, sym, inl, inr, Bool, true, false, Option, if◌then◌else◌, none, Option-cases, subst,
  some, Text, ok, arith,
}
use wave_judge.Sandbox.Usage.{
  ExitStatus, not_exited, normal, killed_by_signal, cpu_time_limit_exceeded,
  real_time_limit_exceeded, memory_limit_exceeded, banned_syscall,
}
use wave_judge.Sandbox.Builder.{restore}
use wave_judge.Sandbox.Daemon.{Process}
use wave_judge.Judge.Verdicts.{
  Verdict, is_accepted, TestCaseResult, set_judgee_exit_status, verdict_of,
}
use wave_judge.Judge.Task.{TestCaseDescriptor}
use wave_judge.Judge.Engine.{Host, TempFile, sandbox_call, run_process, read_file_view}
use wave_judge.Judge.Engine.Steps.{continue-ok, must-ok, io_call-ok}
use wave_judge.Judge.Engine.Executor.{JudgeContext, data_view_len, execute_judgee, keep_output}

abbrev pub IsSome : {A : Type 0} → Option A → Type 0
IsSome none = ⊥
IsSome (some a) = Unit

verdict_of-accepted :
    (s : ExitStatus) (v : Verdict)
    → verdict_of s ≡ some v
    → is_accepted v ≡ true
    → (code : ℕ) × (s ≡ normal code)
unfolding verdict_of is_accepted
verdict_of-accepted (normal code) v h a = (code, refl)
verdict_of-accepted (killed_by_signal s) v h a = ground arith
verdict_of-accepted cpu_time_limit_exceeded v h a = ground arith
verdict_of-accepted real_time_limit_exceeded v h a = ground arith
verdict_of-accepted memory_limit_exceeded v h a = ground arith
verdict_of-accepted banned_syscall v h a = ground arith
verdict_of-accepted not_exited v h a = cc

-- What `set_judgee_exit_status` leaves of a result.
pub record Ran (s : ExitStatus) (r r' : TestCaseResult) : Type 0 where
  pub status : r'.judgee_exit_status ≡ s
  pub input : r'.input_view ≡ r.input_view
  pub answer : r'.answer_view ≡ r.answer_view
  pub output : r'.output_view ≡ r.output_view
  pub verdict : verdict_of r'.judgee_exit_status ≡ some r'.verdict

set_judgee_exit_status-Ran :
    (s : ExitStatus) (r r' : TestCaseResult) → set_judgee_exit_status s r ≡ some r' → Ran s r r'
unfolding set_judgee_exit_status
set_judgee_exit_status-Ran s r r' h = elim (Option-cases (verdict_of s)) [
  | inl e ↦ absurd (impossible e)
  | inr (v, e) ↦
      subst (Ran s r) (set v e)
        (record { status = refl; input = refl; answer = refl; output = refl; verdict = e })
]
  where
    impossible : verdict_of s ≡ none → ⊥
    impossible e = ground arith

    set :
        (v : Verdict)
        → verdict_of s ≡ some v
        → record r { judgee_exit_status = s; verdict = v } ≡ r'
    set v e = ground arith

-- What `execute_judgee` gives: the output, exactly when the judgee ended by itself.
abbrev pub Executed : TestCaseResult → TestCaseResult → Option ℕ → Type 0
Executed r r' none =
    (r'.input_view ≡ r.input_view)
    × (r'.answer_view ≡ r.answer_view)
    × IsSome r'.output_view
    × (verdict_of r'.judgee_exit_status ≡ some r'.verdict)
    × (is_accepted r'.verdict ≡ false)
Executed r r' (some fd) =
    (r'.input_view ≡ r.input_view)
    × (r'.answer_view ≡ r.answer_view)
    × IsSome r'.output_view
    × ((code : ℕ) × (r'.judgee_exit_status ≡ normal code))

module _ {W : Type 0} (host : Host W) where
  pub keep_output-file :
      (out : TempFile) (kept : Bool) (r r' : TestCaseResult) (file : Option ℕ) (w w' : W)
      → keep_output host out kept r w ≡ some (ok (r', file), w')
      → (r ≡ r') × ((if kept then some out.fd else none) ≡ file)
  unfolding keep_output
  keep_output-file out true r r' file w w' h =
      let (u, w₁, _, done) = continue-ok _ _ h in (cc done, cc done)
  keep_output-file out false r r' file w w' h = (cc, cc)

  Ran-Executed :
      (s : ExitStatus) (r r' : TestCaseResult) (view : Text) (fd : ℕ) (kept : Bool)
      → Ran s (record r { output_view = some view }) r'
      → is_accepted r'.verdict ≡ kept
      → Executed r r' (if kept then some fd else none)
  Ran-Executed s r r' view fd true ran a =
      (ran.input, ran.answer, rw ran.output tt, verdict_of-accepted _ _ ran.verdict a)
  Ran-Executed s r r' view fd false ran a =
      (ran.input, ran.answer, rw ran.output tt, ran.verdict, a)

  keep_output-Executed :
      (s : ExitStatus) (out : TempFile) (r r' r'' : TestCaseResult) (view : Text) (file : Option ℕ)
      (w w' : W)
      → Ran s (record r { output_view = some view }) r'
      → keep_output host out (is_accepted r'.verdict) r' w ≡ some (ok (r'', file), w')
      → Executed r r'' file
  keep_output-Executed s out r r' r'' view file w w' ran h =
      let (same, kept) = keep_output-file out (is_accepted r'.verdict) r' r'' file w w' h in
      subst (λ x. Executed r x file) same
        (subst (Executed r r') kept
          (Ran-Executed s r r' view out.fd (is_accepted r'.verdict) ran refl))

  pub execute_judgee-Executed :
      (ctx : JudgeContext) (tc : TestCaseDescriptor) (r r' : TestCaseResult) (file : Option ℕ)
      (w w' : W)
      → execute_judgee host ctx tc r w ≡ some (ok (r', file), w')
      → Executed r r' file
  unfolding execute_judgee
  execute_judgee-Executed ctx tc r r' file w w' h =
      let (input, w₁, _, h₁) = continue-ok _ _ h in
      let (out, w₂, _, h₂) = continue-ok _ _ h₁ in
      let (stdout, w₃, _, h₃) = continue-ok _ _ h₂ in
      let (stderr, w₄, _, h₄) = continue-ok _ _ h₃ in
      let (p, w₅, _, h₅) = continue-ok {A = Process} _ _ h₄ in
      let (_, w₆, _, h₆) = continue-ok _ _ h₅ in
      let (view, w₇, _, h₇) = continue-ok _ _ h₆ in
      let (q, w₈, set, h₈) = continue-ok _ _ h₇ in
      keep_output-Executed p.status out r q r' view file w₈ w'
        (set_judgee_exit_status-Ran p.status (record r { output_view = some view }) q
          (must-ok _ w₇ set).0)
        h₈

  -- A run of the judgee, step by step: it reads the input file, it writes to a file that was made for
  -- it in the judge directory, its errors go to the null device, and its output is viewed.
  pub record JudgeeRun (ctx : JudgeContext) (tc : TestCaseDescriptor) (status : ExitStatus)
      (view : Option Text) : Type 0 where
    pub started : W
    pub input : ℕ
    pub opened : W
    pub opens : host.open_file tc.input_file started ≡ (ok input, opened)
    pub out : TempFile
    pub made : W
    pub makes : host.temp_file ctx.judge_dir opened ≡ (ok out, made)
    pub stdout : ℕ
    pub copied : W
    pub copies : host.dup out.fd made ≡ (ok stdout, copied)
    pub stderr : ℕ
    pub muted : W
    pub mutes : sandbox_call host.open_null copied ≡ some (ok stderr, muted)
    pub child : Process
    pub ran : W
    pub runs :
        run_process host
          (record (restore ctx.judgee_bdr) {
            redirections = record {
              stdin = some input;
              stdout = some stdout;
              stderr = some stderr;
            };
          })
          muted
        ≡ some (ok child, ran)
    pub rewound : W
    pub rewinds : host.seek_start out.fd ran ≡ (ok tt, rewound)
    pub text : Text
    pub viewed : W
    pub views : read_file_view host out.path data_view_len rewound ≡ some (ok text, viewed)
    pub reported : status ≡ child.status
    pub shown : view ≡ some text

  -- The output that is handed on is that file, from its start.
  abbrev pub Kept : TempFile → W → Option ℕ → W → Type 0
  Kept out w none w' = w ≡ w'
  Kept out w (some fd) w' = (out.fd ≡ fd) × (host.seek_start out.fd w ≡ (ok tt, w'))

  keep_output-Kept :
      (out : TempFile) (kept : Bool) (r r' : TestCaseResult) (file : Option ℕ) (w w' : W)
      → keep_output host out kept r w ≡ some (ok (r', file), w')
      → Kept out w file w'
  unfolding keep_output
  keep_output-Kept out true r r' none w w' h =
      let (u, w₁, _, done) = continue-ok _ _ h in absurd (cc done)
  keep_output-Kept out true r r' (some fd) w w' h =
      let (u, w₁, sought, done) = continue-ok _ _ h in
      let last : w₁ ≡ w' = cc done in
      (
        cc done,
        subst (λ v. host.seek_start out.fd w ≡ (ok tt, v)) last
            (io_call-ok (host.seek_start out.fd) w sought),
      )
  keep_output-Kept out false r r' none w w' h = cc
  keep_output-Kept out false r r' (some fd) w w' h = absurd (cc h)

  -- What a run leaves in a result, and what it hands on.
  abbrev pub JudgeeRan : JudgeContext → TestCaseDescriptor → TestCaseResult → Option ℕ → W → Type 0
  JudgeeRan ctx tc r file w' =
      (run : JudgeeRun ctx tc r.judgee_exit_status r.output_view) × Kept run.out run.viewed file w'

  pub execute_judgee-JudgeeRan :
      (ctx : JudgeContext) (tc : TestCaseDescriptor) (r r' : TestCaseResult) (file : Option ℕ)
      (w w' : W)
      → execute_judgee host ctx tc r w ≡ some (ok (r', file), w')
      → JudgeeRan ctx tc r' file w'
  unfolding execute_judgee
  execute_judgee-JudgeeRan ctx tc r r' file w w' h =
      let (input, w₁, opens, h₁) = continue-ok _ _ h in
      let (out, w₂, makes, h₂) = continue-ok _ _ h₁ in
      let (stdout, w₃, copies, h₃) = continue-ok _ _ h₂ in
      let (stderr, w₄, mutes, h₄) = continue-ok _ _ h₃ in
      let (p, w₅, runs, h₅) = continue-ok {A = Process} _ _ h₄ in
      let (u, w₆, rewinds, h₆) = continue-ok _ _ h₅ in
      let (text, w₇, views, h₇) = continue-ok {A = Text} _ _ h₆ in
      let (q, w₈, set, h₈) = continue-ok _ _ h₇ in
      let (found, still) = must-ok _ w₇ set in
      let left =
        set_judgee_exit_status-Ran p.status (record r { output_view = some text }) q found in
      subst (λ x. JudgeeRan ctx tc x file w')
        (keep_output-file out (is_accepted q.verdict) q r' file w₈ w' h₈).0
        (
          record {
            started = w;
            input = input;
            opened = w₁;
            opens = io_call-ok (host.open_file tc.input_file) w opens;
            out = out;
            made = w₂;
            makes = io_call-ok (host.temp_file ctx.judge_dir) w₁ makes;
            stdout = stdout;
            copied = w₃;
            copies = io_call-ok (host.dup out.fd) w₂ copies;
            stderr = stderr;
            muted = w₄;
            mutes = mutes;
            child = p;
            ran = w₅;
            runs = runs;
            rewound = w₆;
            rewinds = io_call-ok (host.seek_start out.fd) w₅ rewinds;
            text = text;
            viewed = w₇;
            views = views;
            reported = left.status;
            shown = left.output;
          },
          subst (λ v. Kept out v file w') (sym still)
              (keep_output-Kept out (is_accepted q.verdict) q r' file w₈ w' h₈),
        )
