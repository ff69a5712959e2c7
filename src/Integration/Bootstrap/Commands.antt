-- ===== src/Integration/Bootstrap/Commands.antt =====
-- What a command under sudo does to a client, by the outcome that the host gives.
use ha_pi_manager_integratio.Prelude.{
  String, ◌==◌, ◌≡◌, refl, ap, ◌∙◌, Bool, true, false, Option, some, List, [], ◌∷◌, ◌++◌, ok, err,
  any, arith, if◌then◌else◌, append, is_zero,
}
use ha_pi_manager_integratio.Prelude.Exec.{◌>>=◌, continue, unless}
use ha_pi_manager_integratio.Errors.{Exc, PyError, connection}
use ha_pi_manager_integratio.Integration.Ssh.Words.{join}
use ha_pi_manager_integratio.Integration.Ssh.Client.{
  Client, Outcome, finished, lost, raised, Utf8, run, run_sudo, send, result_of, first_outcome,
  later_outcomes, bounded,
}
use ha_pi_manager_integratio.Integration.Bootstrap.Session.{Library, Session, on_client, Boot}
use ha_pi_manager_integratio.Integration.Bootstrap.Install.{sudo, checked}

abbrev pub succeeds : Outcome → Bool
succeeds (finished code _ _) = is_zero code
succeeds _ = false

-- A command under sudo, as the log shows it
abbrev pub sudo_entry : String → List String → String × Option String
sudo_entry password args =
    (join ("/usr/bin/sudo" ∷ "-S" ∷ "-p=" ∷ "--" ∷ args), some (append password "\n"))

abbrev pub log_all {ℓ} : {A : Type ℓ} → List A → List A → List A
log_all log [] = log
log_all log (x ∷ xs) = log_all (log ++ (x ∷ [])) xs

pub run_sudo-eq :
    (utf8 : Utf8) (args : List String) (password : String) (c : Client)
    → c.connected ≡ true
    → (password == "") ≡ false
    → any (λ item. item == "") args ≡ false
    → run_sudo utf8 args password c ≡ (
      result_of utf8 (first_outcome c.outcomes),
      record c {
        sent = c.sent ++ (sudo_entry password args ∷ []);
        outcomes = later_outcomes c.outcomes;
      },
    )
unfolding run_sudo run send unless ◌>>=◌
run_sudo-eq utf8 args password c connected named full = ground arith

-- A client after a command under sudo
abbrev pub answered : String → List String → Client → Client
answered password args c = record c {
  sent = c.sent ++ (sudo_entry password args ∷ []);
  outcomes = later_outcomes c.outcomes;
}

abbrev pub entries : String → List (List String) → List (String × Option String)
entries password [] = []
entries password (args ∷ rest) = sudo_entry password args ∷ entries password rest

-- A client after several of them
abbrev pub answered_all : String → List (List String) → Client → Client
answered_all password [] c = c
answered_all password (args ∷ rest) c = answered_all password rest (answered password args c)

pub answered_all-sent :
    (password : String) (commands : List (List String)) (c : Client)
    → (answered_all password commands c).sent ≡ log_all c.sent (entries password commands)
answered_all-sent password [] c = refl
answered_all-sent password (args ∷ rest) c =
    answered_all-sent password rest (answered password args c)

pub answered_all-uploads :
    (password : String) (commands : List (List String)) (c : Client)
    → (answered_all password commands c).uploads ≡ c.uploads
answered_all-uploads password [] c = refl
answered_all-uploads password (args ∷ rest) c =
    answered_all-uploads password rest (answered password args c)

pub sudo-eq :
    (library : Library) (password : String) (args : List String) (s : Session)
    → s.client.connected ≡ true
    → (password == "") ≡ false
    → any (λ item. item == "") args ≡ false
    → sudo library password args s ≡ (
      result_of library.utf8 (first_outcome s.client.outcomes),
      record s { client = answered password args s.client },
    )
unfolding sudo on_client
sudo-eq library password args s connected named full =
    ground (arith, run_sudo-eq library.utf8 args password s.client connected named full)

-- How a command ends that must succeed
abbrev pub verdict : PyError → Outcome → Exc (Unit {0})
verdict e (finished code _ _) = if is_zero code then ok tt else err e
verdict e lost = err (connection "SSH command failed")
verdict e (raised other) = err other

checked-sudo :
    (library : Library) (e : PyError) (password : String) (args : List String) (s : Session)
    → s.client.connected ≡ true
    → (password == "") ≡ false
    → any (λ item. item == "") args ≡ false
    → checked e (sudo library password args) s ≡ (
      verdict e (first_outcome s.client.outcomes),
      record s { client = answered password args s.client },
    )
unfolding ◌>>=◌ unless bounded
checked-sudo library e password args s connected named full =
    ground (arith, sudo-eq library password args s connected named full)

verdict-ok : (e : PyError) (o : Outcome) → succeeds o ≡ true → verdict e o ≡ ok tt
verdict-ok e o h = ground arith

verdict-err :
    (e : PyError) (o : Outcome) → succeeds o ≡ false → (x : PyError) × (verdict e o ≡ err x)
verdict-err e (finished code out errors) h = (e, ground arith)
verdict-err e lost h = (connection "SSH command failed", refl)
verdict-err e (raised other) h = (other, refl)

pub >>=-ok :
    {A B : Type 0} {a : A} {s s' : Session} (m : Boot A) (f : A → Boot B)
    → m s ≡ (ok a, s')
    → (m >>= f) s ≡ f a s'
unfolding ◌>>=◌
>>=-ok m f h = ap (λ r. continue r.0 f r.1) h

pub >>=-err :
    {A B : Type 0} {e : PyError} {s s' : Session} (m : Boot A) (f : A → Boot B)
    → m s ≡ (err e, s')
    → (m >>= f) s ≡ (err e, s')
unfolding ◌>>=◌
>>=-err m f h = ap (λ r. continue r.0 f r.1) h

module _ (library : Library) (e : PyError) (password : String) (args : List String) (s : Session)
    (connected : s.client.connected ≡ true) (named : (password == "") ≡ false)
    (full : any (λ item. item == "") args ≡ false) where
  pub checked-good :
      succeeds (first_outcome s.client.outcomes) ≡ true
      → checked e (sudo library password args) s
        ≡ (ok tt, record s { client = answered password args s.client })
  checked-good h =
      checked-sudo library e password args s connected named full
      ∙ ap (λ (r : Exc (Unit {0})). (r, record s { client = answered password args s.client }))
          (verdict-ok e (first_outcome s.client.outcomes) h)

  pub checked-bad :
      succeeds (first_outcome s.client.outcomes) ≡ false
      → (x : PyError) × (checked e (sudo library password args) s
          ≡ (err x, record s { client = answered password args s.client }))
  checked-bad h =
      let (x, p) = verdict-err e (first_outcome s.client.outcomes) h in
      (
        x,
        checked-sudo library e password args s connected named full
            ∙ ap
                (λ (r : Exc (Unit {0})). (r, record s { client = answered password args s.client }))
                p,
      )
