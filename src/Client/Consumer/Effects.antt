-- ===== src/Client/Consumer/Effects.antt =====
-- Methods of the consumer of src/client/usubscription/v3/Consumer.cpp: they change its fields, call
-- the transport and the RPC client, and may throw, after which the fields stay as they are.
use up_cpp.Common.Outcome.{ok, throw}
use up_cpp.Exception.{Result}
use up_cpp.Communication.RpcClient.Effects.{Run, RpcWorld}

abbrev pub Method : Type 0 → Type 0 → Type 0
Method Self Answer = Self → RpcWorld → Result Answer × Self × RpcWorld

module _ {Self : Type 0} where
  abbrev pub bind_method :
      {A B : Type 0} → (A → Method Self B) → Result A × Self × RpcWorld → Result B × Self × RpcWorld
  bind_method next (throw exception, self, w) = (throw exception, self, w)
  bind_method next (ok answer, self, w) = next answer self w

  infixl 5 ◌>>=◌ ◌>>◌
  abbrev pub ◌>>=◌ : {A B : Type 0} → Method Self A → (A → Method Self B) → Method Self B
  ◌>>=◌ first next self w = bind_method next (first self w)

  abbrev pub ◌>>◌ : {B : Type 0} → Method Self (Unit {0}) → Method Self B → Method Self B
  first >> next = first >>= λ done. next

  abbrev pub return : {A : Type 0} → A → Method Self A
  return answer self w = (ok answer, self, w)

  abbrev pub get : Method Self Self
  get self w = (ok self, self, w)

  abbrev pub set : Self → Method Self (Unit {0})
  set self' self w = (ok tt, self', w)

  abbrev pub beside : {A : Type 0} → Self → Result A × RpcWorld → Result A × Self × RpcWorld
  beside self (result, w) = (result, self, w)

  -- A call that leaves the object's fields alone.
  abbrev pub call : {A : Type 0} → Run A → Method Self A
  call run self w = beside self (run w)
