-- ===== src/Communication/RpcClient/Outcomes.antt =====
-- The ways in which invokeMethod of src/communication/RpcClient.cpp can go, whatever the transport
-- answers.
use up_cpp.Common.{ℕ, ◌+◌, ◌≡◌, refl, inl, inr, Bool, true, false, some, Bool-cases}
use up_cpp.Common.Outcome.{ok, throw}
use up_cpp.Proto.{UMessage, UStatus, Protobuf}
use up_cpp.Exception.{Exception, Result}
use up_cpp.Utils.Expected.{expected, unexpected}
use up_cpp.Validator.Message.{source_of, sink_of}
use up_cpp.Transport.{
  ListenHandle, HandleOrStatus, establish, register_listener, send, drop_handle, is_ok_code,
}
use up_cpp.Transport.World.{World}
use up_cpp.Communication.RpcExpiry.{RpcState, begin_request, expire, enqueue}
use up_cpp.Communication.RpcExpiry.Heap.{PendingRequest, HeapAlgorithms}
use up_cpp.Communication.RpcClient.{
  RpcClient, Calling, invoke_message, send_request, after_send, sever_request, drop_listener,
}
use up_cpp.Communication.RpcClient.Effects.{
  RpcWorld, in_world, bind_run, unwind_with, outside, return, ◌>>◌,
}

drop_returns :
    (handle : ListenHandle) (held : Bool) (w : World) (rpc : RpcState)
    → (w' : World) × (outside (drop_handle handle held) (record { world = w; rpc = rpc })
        ≡ (ok tt, record { world = w'; rpc = rpc }))
unfolding drop_handle
drop_returns handle true w rpc = (_, refl)
drop_returns handle false w rpc = (w, refl)

module _ (pb : Protobuf) (heap : HeapAlgorithms) (client : RpcClient) (env : Calling)
    (message : UMessage) (rpc : RpcState) (n : ℕ)
    (P : Result ListenHandle → RpcState → Type 0) where
  abbrev begun : RpcState
  begun = begin_request n message.attributes.id rpc

  -- The request fails with a status, is queued, or is given up by an exception.
  pub record Outcomes : Type 0 where
    pub failed : (status : UStatus) → P (ok n) (expire n status begun)
    pub queued :
        (p : PendingRequest)
        → p.expire ≡ n
        → p.instance_id ≡ client.instance_id
        → P (ok n) (enqueue heap p begun)
    pub given_up : (exception : Exception) → P (throw exception) (sever_request n begun)

  abbrev Holds : Result ListenHandle × RpcWorld → Type 0
  Holds (result, w) = P result w.rpc

  abbrev severing : RpcWorld → RpcWorld
  severing w = record w { rpc = sever_request n w.rpc }

  after_send-Holds :
      Outcomes
      → (handle : ListenHandle) (sr : Result UStatus × World)
      → Holds (
          unwind_with severing (
            bind_run
              (λ done. return n)
              (unwind_with
                (drop_listener handle env.held)
                (bind_run (after_send pb heap client env n handle) (in_world begun sr)))))
  after_send-Holds o handle (throw exception, w) = o.given_up exception
  after_send-Holds o handle (ok status, w) = elim (Bool-cases (is_ok_code status.code)) [
    | inl good ↦ rw good (o.queued _ refl refl)
    | inr bad ↦
        let (world, dropped) = drop_returns handle env.held w (expire n status begun) in
        rw (bad, dropped) (o.failed status)
  ]

  registered-Holds :
      Outcomes
      → (mh : Result HandleOrStatus × World)
      → Holds (
          unwind_with severing (
            bind_run
              (λ maybe_handle. send_request pb heap client env message n maybe_handle >> return n)
              (in_world begun mh)))
  unfolding send_request
  registered-Holds o (throw exception, w) = o.given_up exception
  registered-Holds o (ok (unexpected status), w) = o.failed status
  registered-Holds o (ok (expected handle), w) =
      after_send-Holds o handle (send pb client.transport env.sending message w)

-- What holds in each of these cases holds after every call with a callback.
pub invoke_cases :
    (pb : Protobuf) (heap : HeapAlgorithms) (client : RpcClient) (env : Calling)
    (message : UMessage) (callback : ℕ) (w : RpcWorld) (P : Result ListenHandle → RpcState → Type 0)
    → Outcomes pb heap client env message w.rpc w.world.next_connection P
    → let (result, after) = invoke_message pb heap client env message (some callback) w in
      P result after.rpc
unfolding invoke_message establish
invoke_cases pb heap client env message callback w P o =
    registered-Holds pb heap client env message w.rpc w.world.next_connection P o (
      register_listener client.transport (some w.world.next_connection) (sink_of message.attributes)
        (some (source_of message.attributes))
        (record w.world { next_connection = w.world.next_connection + 1 }))
