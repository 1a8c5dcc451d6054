-- ===== src/Server/Run.antt =====
-- What a run of a server comes to: it returns, it ends the process with an exit code, it waits for
-- a message that does not come, or it uses a null pointer, an iterator out of range or an array
-- outside its bounds.
use ece.Prelude.{ℕ}

pub data Run (S : Type 0) (A : Type 0) : Type 0 where
  ok : A → S → Run S A
  exits : ℕ → S → Run S A
  waits : S → Run S A
  crashes : Run S A

abbrev pub bind : {S A B : Type 0} → Run S A → (A → S → Run S B) → Run S B
bind (ok a s) f = f a s
bind (exits n s) f = exits n s
bind (waits s) f = waits s
bind crashes f = crashes
