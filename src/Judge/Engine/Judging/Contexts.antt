-- ===== src/Judge/Engine/Judging/Contexts.antt =====
-- What the builders that `judge` prepares are confined to.
use wave_judge.Prelude.{
  Option-cases, ◌⊎◌, inl, inr, contains, codes, ◌++◌, [], ◌∷◌, ◌≡◌, refl, sym, ◌∙◌, ap, none, some,
  Text, ok, err, panic,
}
use wave_judge.Sandbox.Errors.{Fallible}
use wave_judge.Sandbox.Builder.{is_valid_c_string, add_env, Builder, Memento, memento}
use wave_judge.Judge.Languages.{LanguageManager}
use wave_judge.Judge.Checkers.{Float64}
use wave_judge.Judge.Task.{JudgeMode, standard, special_judge, interactive, JudgeTaskDescriptor}
use wave_judge.Judge.Engine.{
  JudgeEngineConfig, Host, apply_judgee_bdr_config, configured_judgee, online_judge,
}
use wave_judge.Judge.Engine.Steps.{continue-ok, from_sandbox-ok}
use wave_judge.Judge.Engine.Executor.{JudgeContext}
use wave_judge.Judge.Engine.Judging.{task_limits, set_limits, in_dir, context_of, prepare}

apply_judgee_bdr_config-uid :
    (config : JudgeEngineConfig) (b b' : Builder)
    → apply_judgee_bdr_config config b ≡ ok b'
    → (b₀ : Builder) × (configured_judgee config b₀ ≡ b')
unfolding apply_judgee_bdr_config
apply_judgee_bdr_config-uid config b b' h = configured (online_judge b) h
  where
    configured :
        (x : Fallible Builder)
        → elim x [ ok c ↦ ok (configured_judgee config c) | err e ↦ err e | panic ↦ panic ] ≡ ok b'
        → (b₀ : Builder) × (configured_judgee config b₀ ≡ b')
    configured (ok c) g = (c, cc)
    configured (err e) g = cc
    configured panic g = cc

configured_judgee-uid :
    (config : JudgeEngineConfig) (b : Builder)
    → (config.judge_uid ≡ none) ⊎ ((configured_judgee config b).uid ≡ config.judge_uid)
unfolding configured_judgee
configured_judgee-uid config b = elim (Option-cases config.judge_uid) [
  | inl e ↦ inl e
  | inr (u, e) ↦ inr (rw e refl)
]

-- The judgee runs in the judge directory under the limits of the task, as the configured user.
pub record Confined (config : JudgeEngineConfig) (task : JudgeTaskDescriptor) (ctx : JudgeContext)
    : Type 0 where
  pub same_task : ctx.task ≡ task
  pub root : ctx.judgee_bdr.dir.root_dir ≡ some ctx.judge_dir
  pub working : ctx.judgee_bdr.dir.working_dir ≡ some ctx.judge_dir
  pub limits : ctx.judgee_bdr.limits ≡ task_limits task.limits
  pub uid : (config.judge_uid ≡ none) ⊎ (ctx.judgee_bdr.uid ≡ config.judge_uid)

module _ {W : Type 0} (fl : Float64) (host : Host W) (m : LanguageManager)
    (config : JudgeEngineConfig) where
  context_of-fields :
      (task : JudgeTaskDescriptor) (dir : Text) (judgee : Memento) (mode : JudgeMode)
      (ctx : JudgeContext) (w w' : W)
      → context_of fl host m config task dir judgee mode w ≡ some (ok ctx, w')
      → (task ≡ ctx.task) × (dir ≡ ctx.judge_dir) × (judgee ≡ ctx.judgee_bdr)
  unfolding context_of
  context_of-fields task dir judgee (standard c) ctx w w' h = (cc, cc, cc)
  context_of-fields task dir judgee (special_judge p) ctx w w' h =
      let (jury, w₁, _, done) = continue-ok {A = Memento} _ _ h in (cc done, cc done, cc done)
  context_of-fields task dir judgee (interactive p) ctx w w' h =
      let (jury, w₁, _, done) = continue-ok {A = Memento} _ _ h in (cc done, cc done, cc done)

  confined :
      (task : JudgeTaskDescriptor) (ctx : JudgeContext) (dir : Text) (b : Builder)
      → task ≡ ctx.task
      → dir ≡ ctx.judge_dir
      → memento (in_dir dir (set_limits task.limits b)) ≡ ctx.judgee_bdr
      → (b₀ : Builder) × (configured_judgee config b₀ ≡ b)
      → Confined config task ctx
  unfolding memento
  confined task ctx dir b same at judgee (b₀, made) = record {
    same_task = sym same;
    root = ap (λ (j : Memento). j.dir.root_dir) (sym judgee) ∙ ap (λ (d : Text). some d) at;
    working = ap (λ (j : Memento). j.dir.working_dir) (sym judgee) ∙ ap (λ (d : Text). some d) at;
    limits = ap (λ (j : Memento). j.limits) (sym judgee);
    uid = elim (configured_judgee-uid config b₀) [
      | inl none_given ↦ inl none_given
      | inr given ↦ inr (
          ap (λ (j : Memento). j.uid) (sym judgee) ∙ ap (λ (x : Builder). x.uid) (sym made) ∙ given)
    ];
  }

  -- Whenever the preparation of a task returns, the judgee's builder has the judge directory as its
  -- root and working directory, the limits of the task, and the configured user if there is one.
  pub prepare-Confined :
      (task : JudgeTaskDescriptor) (ctx : JudgeContext) (w w' : W)
      → prepare fl host m config task w ≡ some (ok ctx, w')
      → Confined config task ctx
  unfolding prepare
  prepare-Confined task ctx w w' h =
      let (info, w₁, _, h₁) = continue-ok _ _ h in
      let (b, w₂, _, h₂) = continue-ok _ _ h₁ in
      let (b', w₃, applied, h₃) = continue-ok {A = Builder} _ _ h₂ in
      let (dir, w₄, _, h₄) = continue-ok {A = Text} _ _ h₃ in
      let (same, at, judgee) = context_of-fields task dir _ task.mode ctx w₄ w' h₄ in
      confined task ctx dir b' same at judgee
        (apply_judgee_bdr_config-uid config b b' (from_sandbox-ok _ w₂ applied))

-- The variable that every builder gets.
abbrev with_online_judge : Builder → Builder
with_online_judge b = record b { envs = b.envs ++ (codes "ONLINE_JUDGE", codes "YES") ∷ [] }

online_judge-ok : (b : Builder) → online_judge b ≡ ok (with_online_judge b)
unfolding online_judge add_env is_valid_c_string contains
online_judge-ok b = refl
