-- ===== src/Integration/Ssh/Answered.antt =====
-- What a client has sent since a moment, and which outcome answered which command.
use ha_pi_manager_integratio.Prelude.{
  String, ◌≡◌, refl, sym, ◌∙◌, ap, ◌⊎◌, inl, inr, Option, List, [], ◌∷◌, ◌++◌, ok, arith,
}
use mathlib.Core.Path.{subst}
use mathlib.Core.List.{append_assoc, append-nil}
use ha_pi_manager_integratio.Prelude.Exec.{◌>>=◌, unless}
use ha_pi_manager_integratio.Prelude.Preserves.{Preserves}
use ha_pi_manager_integratio.Models.{CommandResult}
use ha_pi_manager_integratio.Integration.Ssh.Words.{join}
use ha_pi_manager_integratio.Integration.Ssh.Client.{
  Client, Outcome, Utf8, first_outcome, later_outcomes, result_of, send, run,
}

-- The outcomes behind those of the commands of a log
abbrev pub outcomes_behind : List (String × Option String) → List Outcome → List Outcome
outcomes_behind [] outcomes = outcomes
outcomes_behind (_ ∷ log) outcomes = outcomes_behind log (later_outcomes outcomes)

outcomes_behind-++ :
    (log : List (String × Option String)) (entry : String × Option String) (outcomes : List Outcome)
    → outcomes_behind (log ++ (entry ∷ [])) outcomes ≡ later_outcomes (outcomes_behind log outcomes)
outcomes_behind-++ [] entry outcomes = refl
outcomes_behind-++ (_ ∷ log) entry outcomes = outcomes_behind-++ log entry (later_outcomes outcomes)

-- `now` is `start` after a log of commands.
pub record Follows (start now : Client) : Type 0 where
  pub log : List (String × Option String)
  pub sent : now.sent ≡ start.sent ++ log
  pub outcomes : now.outcomes ≡ outcomes_behind log start.outcomes

-- The log of `now` since `start` has the command line with its input, and the outcome at its place,
-- counted from `start`, gave `answer`.
pub record Answered (utf8 : Utf8) (start now : Client) (args : List String) (input : Option String)
    (answer : CommandResult) : Type 0 where
  pub prior : List (String × Option String)
  pub later : List (String × Option String)
  pub sent : now.sent ≡ start.sent ++ (prior ++ ((join args, input) ∷ later))
  pub given : result_of utf8 (first_outcome (outcomes_behind prior start.outcomes)) ≡ ok answer

pub Follows-self : (c : Client) → Follows c c
Follows-self c = record { log = []; sent = sym (append-nil c.sent); outcomes = refl }

module _ (utf8 : Utf8) (args : List String) (input : Option String) where
  -- A command changes nothing, or it is sent and takes the next outcome.
  run-cases :
      (c : Client)
      → ((run utf8 args input c).1 ≡ c)
        ⊎ (((run utf8 args input c).1.sent ≡ c.sent ++ ((join args, input) ∷ []))
            × ((run utf8 args input c).1.outcomes ≡ later_outcomes c.outcomes))
  unfolding run send unless ◌>>=◌
  run-cases c = ground arith

  -- A command that returns was sent, and the next outcome gave its result.
  run-ok :
      (c : Client) (answer : CommandResult)
      → (run utf8 args input c).0 ≡ ok answer
      → ((run utf8 args input c).1.sent ≡ c.sent ++ ((join args, input) ∷ []))
        × (result_of utf8 (first_outcome c.outcomes) ≡ ok answer)
  unfolding run send unless ◌>>=◌
  run-ok c answer e = ground arith

  pub Follows-run : (start : Client) → Preserves (Follows start) (run utf8 args input)
  Follows-run start = record {
    at = λ c h. elim (run-cases c) [
      | inl same ↦ subst (Follows start) (sym same) h
      | inr (sent, outcomes) ↦ record {
        log = h.log ++ ((join args, input) ∷ []);
        sent =
            sent
            ∙ ap (λ l. l ++ ((join args, input) ∷ [])) h.sent
            ∙ append_assoc start.sent h.log _;
        outcomes =
            outcomes
            ∙ ap later_outcomes h.outcomes
            ∙ sym (outcomes_behind-++ h.log (join args, input) start.outcomes);
      }
    ];
  }

  -- Later commands leave an answer where it is.
  pub Answered-run :
      (start : Client) (asked : List String) (given : Option String) (answer : CommandResult)
      → Preserves (λ now. Answered utf8 start now asked given answer) (run utf8 args input)
  Answered-run start asked given answer = record {
    at = λ c h. elim (run-cases c) [
      | inl same ↦ subst (λ now. Answered utf8 start now asked given answer) (sym same) h
      | inr (sent, _) ↦ record {
        prior = h.prior;
        later = h.later ++ ((join args, input) ∷ []);
        sent =
            sent
            ∙ ap (λ l. l ++ ((join args, input) ∷ [])) h.sent
            ∙ append_assoc start.sent (h.prior ++ ((join asked, given) ∷ h.later)) _
            ∙ ap (λ l. start.sent ++ l)
                (append_assoc h.prior ((join asked, given) ∷ h.later) ((join args, input) ∷ []));
        given = h.given;
      }
    ];
  }

  pub run-Answered :
      (start c : Client) (answer : CommandResult)
      → Follows start c
      → (run utf8 args input c).0 ≡ ok answer
      → Answered utf8 start (run utf8 args input c).1 args input answer
  run-Answered start c answer h e =
      let (sent, given) = run-ok c answer e in
      record {
        prior = h.log;
        later = [];
        sent =
            sent
            ∙ ap (λ l. l ++ ((join args, input) ∷ [])) h.sent
            ∙ append_assoc start.sent h.log _;
        given = ap (λ os. result_of utf8 (first_outcome os)) (sym h.outcomes) ∙ given;
      }
