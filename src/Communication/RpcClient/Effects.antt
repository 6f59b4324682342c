-- ===== src/Communication/RpcClient/Effects.antt =====
-- Code of src/communication/RpcClient.cpp that calls the transport and changes the requests that
-- wait for a response, and may throw: what was done before an exception stays done.
use up_cpp.Common.Outcome.{ok, throw}
use up_cpp.Exception.{Result}
use up_cpp.Transport.World.{World, M}
use up_cpp.Communication.RpcExpiry.{RpcState}

pub record RpcWorld : Type 0 where
  pub world : World
  pub rpc : RpcState

abbrev pub Run : Type 0 → Type 0
Run Answer = RpcWorld → Result Answer × RpcWorld

abbrev pub return : {Answer : Type 0} → Answer → Run Answer
return answer w = (ok answer, w)

abbrev pub lift : {Answer : Type 0} → Result Answer → Run Answer
lift result w = (result, w)

abbrev pub in_world :
    {Answer : Type 0} → RpcState → Result Answer × World → Result Answer × RpcWorld
in_world rpc (result, world) = (result, record { world = world; rpc = rpc })

-- A call that leaves the library, or that changes the requests.
abbrev pub outside : {Answer : Type 0} → M Answer → Run Answer
outside run w = in_world w.rpc (run w.world)

abbrev pub change : (RpcState → RpcState) → Run (Unit {0})
change f w = (ok tt, record w { rpc = f w.rpc })

abbrev pub bind_run : {A B : Type 0} → (A → Run B) → Result A × RpcWorld → Result B × RpcWorld
bind_run next (throw exception, w) = (throw exception, w)
bind_run next (ok answer, w) = next answer w

infixl 5 ◌>>=◌ ◌>>◌
abbrev pub ◌>>=◌ : {First Second : Type 0} → Run First → (First → Run Second) → Run Second
◌>>=◌ run next w = bind_run next (run w)

abbrev pub ◌>>◌ : {Second : Type 0} → Run (Unit {0}) → Run Second → Run Second
run >> next = run >>= λ done. next

abbrev pub unwind_with :
    {A : Type 0} → (RpcWorld → RpcWorld) → Result A × RpcWorld → Result A × RpcWorld
unwind_with destroy (throw exception, w) = (throw exception, destroy w)
unwind_with destroy (ok answer, w) = (ok answer, w)

-- What the destruction of a local object does if an exception passes it.
abbrev pub unwinding : {A : Type 0} → (RpcWorld → RpcWorld) → Run A → Run A
unwinding destroy run w = unwind_with destroy (run w)
