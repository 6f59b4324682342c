-- ===== src/Transport/World.antt =====
-- The calls that leave the library, in their order, and the monad of code that makes them and may
-- throw: what was called before an exception stays called.
use up_cpp.Common.{ℕ, ◌+◌, Option, List, [], ◌∷◌, ◌++◌}
use up_cpp.Common.Outcome.{ok, throw}
use up_cpp.Proto.{UUri, UMessage}
use up_cpp.Exception.{Exception, Result}

-- `sendImpl`, `registerListenerImpl`, the cleanup of a connection, and a call of a server's
-- callback.
pub data Call : Type 0 where
  sent : UMessage → Call
  listening : (connection callback : ℕ) → UUri → Option UUri → Call
  cleaned : ℕ → Call
  invoked : UMessage → Call

pub record World : Type 0 where
  pub calls : List Call
  pub next_connection : ℕ

abbrev pub M : Type 0 → Type 0
M Answer = World → Result Answer × World

abbrev pub lift : {Answer : Type 0} → Result Answer → M Answer
lift result w = (result, w)

abbrev pub return : {Answer : Type 0} → Answer → M Answer
return answer w = (ok answer, w)

abbrev pub raise : {Answer : Type 0} → Exception → M Answer
raise exception w = (throw exception, w)

abbrev pub bind_outcome : {A B : Type 0} → (A → M B) → Result A × World → Result B × World
bind_outcome next (throw exception, w) = (throw exception, w)
bind_outcome next (ok answer, w) = next answer w

infixl 5 ◌>>=◌ ◌>>◌
abbrev pub ◌>>=◌ : {First Second : Type 0} → M First → (First → M Second) → M Second
◌>>=◌ run next w = bind_outcome next (run w)

abbrev pub ◌>>◌ : {Second : Type 0} → M (Unit {0}) → M Second → M Second
run >> next = run >>= λ done. next

abbrev pub history : M (List Call)
history w = (ok w.calls, w)

abbrev pub log : Call → M (Unit {0})
log c w = (ok tt, record w { calls = w.calls ++ c ∷ [] })

abbrev pub fresh : M ℕ
fresh w = (ok w.next_connection, record w { next_connection = w.next_connection + 1 })
