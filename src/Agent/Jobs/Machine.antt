-- ===== src/Agent/Jobs/Machine.antt =====
-- The states of a package job: what a refresh may do to it.
use ha_pi_manager_integratio.Prelude.{
  ◌⊎◌, String, ◌≡◌, ◌∙◌, ◌≢◌, refl, ap, true, false, ◌&&◌, Option, none, some, List, [], ◌∷◌, ok,
  arith, pos, negsuc, Bool-cases, inl, inr, eq_iff, ◌==◌, if◌then◌else◌,
}
use ha_pi_manager_integratio.Json.{Value, int, str, dict, Fields, get}
use ha_pi_manager_integratio.Json.Laws.{get-set_self, get-set_other}
use ha_pi_manager_integratio.Agent.Names.{matches_job_unit}
use ha_pi_manager_integratio.Agent.Constants.{lookup}
use ha_pi_manager_integratio.Agent.World.{World}
use ha_pi_manager_integratio.Agent.Post.{Post, Post-bind, Post-after, Post-pure, Post-if}
use ha_pi_manager_integratio.Agent.Jobs.State.{
  is_one_of, job_state, running_job, refresh_job, properties, finished_job, invalid_job, has_text,
  exited_well,
}

-- The identity of a job and the outcome that its state tells
pub record Consistent (before after : Fields) : Type 0 where
  pub id : get "id" after ≡ get "id" before
  pub type : get "type" after ≡ get "type" before
  pub unit : get "unit" after ≡ get "unit" before
  pub started_at : get "started_at" after ≡ get "started_at" before
  pub state :
      (get "state" after ≡ str "running")
      ⊎ (get "state" after ≡ str "failed")
      ⊎ ((get "state" after ≡ str "succeeded") × (get "exit_code" after ≡ int (pos 0)))

exited_well-zero : (v : Value) → exited_well v ≡ true → v ≡ int (pos 0)
exited_well-zero (int (pos n)) h = ground arith
exited_well-zero (int (negsuc n)) h = cc
exited_well-zero _ h = cc

finished-kept :
    (key : String) (job : Fields) (exit_code : Value) (now : String)
    → ("summary" == key) ≡ false
    → ("finished_at" == key) ≡ false
    → ("state" == key) ≡ false
    → ("exit_code" == key) ≡ false
    → get key (finished_job job exit_code now) ≡ get key job
unfolding finished_job
finished-kept key job exit_code now a b c d =
    get-set_other "summary" key _ _ a
    ∙ get-set_other "finished_at" key _ _ b
    ∙ get-set_other "state" key _ _ c
    ∙ get-set_other "exit_code" key _ _ d

finished-state :
    (job : Fields) (exit_code : Value) (now : String)
    → get "state" (finished_job job exit_code now)
      ≡ str (if exited_well exit_code then "succeeded" else "failed")
unfolding finished_job
finished-state job exit_code now =
    get-set_other "summary" "state" _ _ refl
    ∙ get-set_other "finished_at" "state" _ _ refl
    ∙ get-set_self "state" _ _

finished-exit_code :
    (job : Fields) (exit_code : Value) (now : String)
    → get "exit_code" (finished_job job exit_code now) ≡ exit_code
unfolding finished_job
finished-exit_code job exit_code now =
    get-set_other "summary" "exit_code" _ _ refl
    ∙ get-set_other "finished_at" "exit_code" _ _ refl
    ∙ get-set_other "state" "exit_code" _ _ refl
    ∙ get-set_self "exit_code" _ _

finished-Consistent :
    (job : Fields) (exit_code : Value) (now : String)
    → Consistent job (finished_job job exit_code now)
finished-Consistent job exit_code now = record {
  id = finished-kept "id" job exit_code now refl refl refl refl;
  type = finished-kept "type" job exit_code now refl refl refl refl;
  unit = finished-kept "unit" job exit_code now refl refl refl refl;
  started_at = finished-kept "started_at" job exit_code now refl refl refl refl;
  state = elim (Bool-cases (exited_well exit_code)) [
    | inl good ↦ inr (
        inr (
          finished-state job exit_code now
              ∙ ap (λ b. str (if b then "succeeded" else "failed")) good,
          finished-exit_code job exit_code now ∙ exited_well-zero exit_code good,
        ))
    | inr bad ↦ inr (
        inl (
          finished-state job exit_code now
          ∙ ap (λ b. str (if b then "succeeded" else "failed")) bad))
  ];
}

invalid-Consistent : (job : Fields) → Consistent job (invalid_job job)
unfolding invalid_job
invalid-Consistent job = record {
  id = get-set_other "summary" "id" _ _ refl ∙ get-set_other "state" "id" _ _ refl;
  type = get-set_other "summary" "type" _ _ refl ∙ get-set_other "state" "type" _ _ refl;
  unit = get-set_other "summary" "unit" _ _ refl ∙ get-set_other "state" "unit" _ _ refl;
  started_at =
      get-set_other "summary" "started_at" _ _ refl ∙ get-set_other "state" "started_at" _ _ refl;
  state = inr (inl (get-set_other "summary" "state" _ _ refl ∙ get-set_self "state" _ _));
}

same-Consistent : (job : Fields) → get "state" job ≡ str "running" → Consistent job job
same-Consistent job r = record {
  id = refl;
  type = refl;
  unit = refl;
  started_at = refl;
  state = inl r;
}

module _ (job : Fields) (running : get "state" job ≡ str "running") where
  refresh_job-Consistent :
      (seen : List (String × String))
      → Post (refresh_job job seen) (λ after _. Consistent job after)
  unfolding refresh_job
  refresh_job-Consistent seen =
      Post-if
        (is_one_of ("active" ∷ "activating" ∷ "deactivating" ∷ []) (lookup "ActiveState" seen)) _ _
        (λ _. Post-pure job (λ _. same-Consistent job running))
        (λ _.
          Post-if
            (is_one_of ("inactive" ∷ []) (lookup "ActiveState" seen)
              && is_one_of ("dead" ∷ []) (lookup "SubState" seen))
            _ _
            (λ _. Post-bind _ _ λ exit_code. Post-bind _ _ λ now.
              Post-pure (finished_job job exit_code now)
                (λ _. finished-Consistent job exit_code now))
            (λ _. Post-pure job (λ _. same-Consistent job running)))

  running_job-Consistent :
      (unit : Value) → Post (running_job job unit) (λ after _. Consistent job after)
  unfolding running_job
  running_job-Consistent (str unit) =
      Post-if (matches_job_unit unit) _ _
        (λ _. Post-bind _ _ λ result. refresh_job-Consistent (properties result.stdout))
        (λ _. Post-pure (invalid_job job) (λ _. invalid-Consistent job))
  running_job-Consistent _ = Post-pure (invalid_job job) (λ _. invalid-Consistent job)

has_text-str : (v : Value) (text : String) → has_text v text ≡ true → v ≡ str text
has_text-str (str s) text h = ap str ((eq_iff s text).0 h)
has_text-str _ text h = cc

-- What a refresh of a job returns of it
abbrev pub Refresh : Fields → Option Fields → Type 0
Refresh job none = ⊥
Refresh job (some after) =
    ((get "state" job ≡ str "running") × Consistent job after)
    ⊎ ((get "state" job ≢ str "running") × (after ≡ job))

job_state-Post : (job : Fields) → Post (job_state (dict job)) (λ after _. Refresh job after)
unfolding job_state
job_state-Post job =
    Post-if (has_text (get "state" job) "running") _ _
      (λ on.
        Post-after (running_job job (get "unit" job)) _
          (running_job-Consistent job (has_text-str _ "running" on) (get "unit" job))
          λ current _ kept. Post-pure (some current) (λ _. inl (has_text-str _ "running" on, kept)))
      (λ off. Post-pure (some job) (λ _. inr ((λ e. cc), refl)))

-- A refresh of a job that does not run returns it as it is. A refresh of a running job that returns
-- keeps its id, type, unit and start, and leaves it running, failed, or succeeded, the last only with
-- the exit code 0.
pub job_state-Refresh :
    (job : Fields) (w : World) (after : Option Fields)
    → (job_state (dict job) w).0 ≡ ok after
    → Refresh job after
job_state-Refresh job w after e = (job_state-Post job).at w after e
