-- ===== src/Client/Printed.antt =====
-- a2/ClientMain.cc over a client whose replies are known: what it prints, and how it ends.
use ece.Prelude.{
  if◌then◌else◌, ℕ, ◌≡◌, refl, sym, ap, subst, ◌∙◌, inl, inr, Bool, true, false, List, [], ◌∷◌, map,
}
use ece.Server.Command
use ece.Server.Wire.{Message, bare}
use ece.Server.Run.{Run, ok, exits, waits, crashes, bind}
use ece.Server.Clients.{
  Event, sends, no_student_number, invalid_numbers, invalid_input, send_stop, send_stop_session,
  on_line, client_main,
}
use ece.Server.Clients.Requests.{messages, Harmless, on_line-Line}
use ece.Server.Session.{gets, IsGet-is_get}
use ece.Client.{Client, Session, print_reply, perform, main_loop}

-- The replies to come of a client, and that it gets the next of them for each request.
pub record Answers {S : Type 0} (c : Client S) (Next : List (List ℕ) → S → Type 0) : Type 0 where
  pub answered :
      (m : Message) (r : List ℕ) (rs : List (List ℕ)) (s : S)
      → Next (r ∷ rs) s
      → (t : S) × (c.send_message m s ≡ ok r t) × Next rs t

-- The last message of a client, and whether the process ends with it.
abbrev pub ending : List (List ℕ) → Message × Bool
ending [] = (bare Command.stop_session, false)
ending (line ∷ lines) =
    let later = ending lines in if (on_line line).1 then (bare Command.stop, true) else later

abbrev pub newest_first : List (List ℕ) → List (List ℕ) → List (List ℕ)
newest_first [] printed = printed
newest_first (r ∷ rs) printed = newest_first rs (r ∷ printed)

-- The requests that a client waits for a reply to print.
abbrev pub asked : List (List ℕ) → List Message
asked lines = gets (messages (client_main lines))

-- The run of the last message, in a session that has printed `printed`.
abbrev pub last_run :
    {S : Type 0} → Client S → List (List ℕ) → S → List (List ℕ) → Run (Session S) (Unit {0})
last_run c lines u printed =
    let (m, ends) = ending lines in
    bind (perform c (sends m) (record { client = u; printed = printed }))
      λ _ q. if ends then exits 0 q else ok tt q

asked-stop :
    (line : List ℕ) (lines : List (List ℕ))
    → (on_line line).1 ≡ true
    → (on_line line).0 ≡ send_stop
    → asked (line ∷ lines) ≡ []
unfolding client_main
asked-stop line lines e stop = rw (client_main, e, stop) refl

asked-more :
    (line : List ℕ) (lines : List (List ℕ))
    → (on_line line).1 ≡ false
    → asked (line ∷ lines) ≡ gets (messages ((on_line line).0 ∷ client_main lines))
unfolding client_main
asked-more line lines e = rw (client_main, e) refl

module _ {S : Type 0} (c : Client S) (Next : List (List ℕ) → S → Type 0) (answers : Answers c Next)
    (answer : Message → List ℕ) where
  bind-ok : {T : Type 0} (r : Run T (Unit {0})) → bind r (λ _ q. ok tt q) ≡ r
  bind-ok (ok a s) = refl
  bind-ok (exits n s) = refl
  bind-ok (waits s) = refl
  bind-ok crashes = refl

  -- What a run of the rest of the lines comes to.
  abbrev Prints : List (List ℕ) → List Message → Session S → Run (Session S) (Unit {0}) → Type 0
  Prints lines asks p run =
      (u : S) × Next [] u × (run ≡ last_run c lines u (newest_first (map answer asks) p.printed))

  line-Prints :
      (e : Event) (lines : List (List ℕ)) (p : Session S)
      → Harmless e
      → ((q : Session S)
          → Next (map answer (asked lines)) q.client
          → Prints lines (asked lines) q (main_loop c lines q))
      → Next (map answer (gets (messages (e ∷ client_main lines)))) p.client
      → Prints lines
          (gets (messages (e ∷ client_main lines)))
          p
          (bind (perform c e p) (λ _ q. main_loop c lines q))
  unfolding perform
  line-Prints (sends m) lines p h rest next =
      let is_get_m = IsGet-is_get m h in
      let asks : gets (m ∷ messages (client_main lines)) ≡ m ∷ asked lines = rw is_get_m refl in
      let (t, e, next') =
        answers.answered m (answer m) (map answer (asked lines)) p.client
          (subst (λ (ms : List Message). Next (map answer ms) p.client) asks next) in
      let (u, done, runs) = rest (record { client = t; printed = answer m ∷ p.printed }) next' in
      let prints : print_reply m (answer m) (record { client = t; printed = p.printed })
          ≡ record { client = t; printed = answer m ∷ p.printed } =
        rw is_get_m refl in
      (u, done, rw (e, asks) (ap (main_loop c lines) prints ∙ runs))
  line-Prints no_student_number lines p h rest next = rest p next
  line-Prints (invalid_numbers g n) lines p h rest next = rest p next
  line-Prints invalid_input lines p h rest next = rest p next

  -- Whatever its input is, the client prints the replies to its GET requests in their order, and
  -- ends as its last message does.
  pub main_loop-Printed :
      (lines : List (List ℕ)) (p : Session S)
      → Next (map answer (asked lines)) p.client
      → (u : S) × Next [] u
        × (main_loop c lines p
            ≡ last_run c lines u (newest_first (map answer (asked lines)) p.printed))
  unfolding main_loop client_main
  main_loop-Printed [] p next = (p.client, next, sym (bind-ok (perform c send_stop_session p)))
  main_loop-Printed (line ∷ lines) p next = elim (on_line-Line line) [
    | inl (e, stop) ↦
        let none_asked = asked-stop line lines e stop in
        (
          p.client,
          subst (λ (ms : List Message). Next (map answer ms) p.client) none_asked next,
          rw (none_asked, e, stop) refl,
        )
    | inr (e, h) ↦
        let asks = asked-more line lines e in
        let r =
          line-Prints (on_line line).0 lines p h (main_loop-Printed lines)
            (subst (λ (ms : List Message). Next (map answer ms) p.client) asks next) in
        rw (asks, e) r
  ]
