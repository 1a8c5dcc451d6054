-- ===== src/Client.antt =====
-- a2/Client.h, a2/Client.cc and a2/ClientMain.cc: the program around the two clients. A client is
-- what `set_host_info` and `send_message` do, which `Client` leaves to its subclasses.
pub mod Resolve
pub mod Tcp
pub mod Udp
pub mod Printed
pub mod Answered
mod Tests
use ece.Prelude.{◌==◌, if◌then◌else◌, ℕ, List, [], ◌∷◌}
use ece.Server.Command
use ece.Server.Wire.{Message}
use ece.Server.Run.{Run, ok, exits, waits, crashes, bind}
use ece.Server.Clients.{
  Event, sends, no_student_number, invalid_numbers, invalid_input, send_stop_session, on_line,
}

-- The virtual methods of `Client`.
pub record Client (S : Type 0) : Type 0 where
  pub set_host_info : List ℕ → List ℕ → S → Run S (Unit {0})
  pub send_message : Message → S → Run S (List ℕ)

-- A client, and the lines that it has printed, the newest first.
pub record Session (S : Type 0) : Type 0 where
  pub client : S
  pub printed : List (List ℕ)

-- What the client does leaves the lines as they are.
abbrev pub lift : {S A : Type 0} → List (List ℕ) → Run S A → Run (Session S) A
lift printed (ok a s) = ok a (record { client = s; printed = printed })
lift printed (exits n s) = exits n (record { client = s; printed = printed })
lift printed (waits s) = waits (record { client = s; printed = printed })
lift printed crashes = crashes

-- `cout << reply << endl`, which only `send_get` does.
abbrev pub print_reply : {S : Type 0} → Message → List ℕ → Session S → Session S
print_reply m reply p =
    if m.command == Command.get then record p { printed = reply ∷ p.printed } else p

module _ {S : Type 0} (c : Client S) where
  -- `send_get`, `send_stop` and `send_stop_session`, and what `main` does with a bad line.
  unfoldable pub perform : Event → Session S → Run (Session S) (Unit {0})
  perform (sends m) p =
      bind (lift p.printed (c.send_message m p.client)) λ reply q. ok tt (print_reply m reply q)
  perform no_student_number p = ok tt p
  perform (invalid_numbers g n) p = ok tt p
  perform invalid_input p = ok tt p

  -- The loop of `main` and what is behind it, over the lines of the input.
  unfoldable pub main_loop : List (List ℕ) → Session S → Run (Session S) (Unit {0})
  main_loop [] p = perform send_stop_session p
  main_loop (line ∷ lines) p =
      let (event, ends) = on_line line in
      bind (perform event p) λ _ q. if ends then exits 0 q else main_loop lines q

  -- `main`
  unfoldable pub main : List (List ℕ) → List (List ℕ) → Session S → Run (Session S) (Unit {0})
  main (name ∷ host ∷ port ∷ []) lines p =
      bind (lift p.printed (c.set_host_info host port p.client)) λ _ q. main_loop lines q
  main args lines p = exits 0 p
