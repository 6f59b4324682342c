-- ===== src/Communication/RpcClient.antt =====
-- The RpcClient of src/communication/RpcClient.cpp. A request's number is that of its callback's
-- connection, and stands for the wrapped callback where the transport is told of it.
pub mod Effects
pub mod Outcomes
pub mod Closing
pub mod Destroyed
pub mod Refines
pub mod Sound
pub mod Invokes
pub mod ToProto
pub mod Tests
use up_cpp.Common.{
  ℕ, ◌+◌, ◌*◌, Bool, true, false, not, Option, none, some, List, [], ◌∷◌, map, if◌then◌else◌,
  value_or,
}
use up_cpp.Common.Int.{ℤ, pos_part}
use up_cpp.Common.Outcome.{Outcome, ok, throw}
use up_cpp.Common.Outcome
use up_cpp.Proto.{UUri, UMessage, UStatus, Protobuf, request, default_uri}
use up_cpp.Exception.{Result}
use up_cpp.Utils.Expected.{Expected, expected, unexpected}
use up_cpp.Validator.Message.{Readings, source_of, sink_of}
use up_cpp.Builder.Uuid.{Entropy}
use up_cpp.Builder.Payload.{Payload}
use up_cpp.Builder.Message.{
  UMessageBuilder, new_builder, with_priority, with_ttl, with_payload_format, with_permission_level,
  with_token, build_method, build_method_payload,
}
use up_cpp.Transport.{
  UTransport, ListenHandle, get_entity_uri, establish, register_listener, send, drop_handle,
  is_ok_code,
}
use up_cpp.Transport.World.{World}
use up_cpp.Communication.Publisher.{apply_if}
use up_cpp.Communication.RpcExpiry.{
  RpcRequest, RpcState, begin_request, disconnect, expire, enqueue, scrub,
}
use up_cpp.Communication.RpcExpiry.Heap.{HeapAlgorithms, erased}
use Effects.{Run, RpcWorld, return, lift, outside, change, unwinding, ◌>>=◌, ◌>>◌}

-- `instance_id` is that of the client's ExpireService.
pub record RpcClient : Type 0 where
  pub transport : UTransport
  pub ttl : ℤ
  pub builder : UMessageBuilder
  pub instance_id : ℕ

pub record InvokeFuture : Type 0 where
  pub future : ℕ
  pub callback_handle : ListenHandle

-- What one call reads: the steady clock, the entropy of the message's ID, the check on sending,
-- and whether the transport still holds the listener if the call drops it.
pub record Calling : Type 0 where
  pub steady : ℕ
  pub system : Entropy
  pub sending : Readings
  pub held : Bool

-- `when_expire`, in nanoseconds.
abbrev pub expiry : ℕ → ℤ → ℕ
expiry steady ttl = steady + pos_part ttl * 1_000_000

-- The destruction of a request's callback handle.
abbrev pub sever_found : ℕ → RpcState → Option RpcRequest → RpcState
sever_found n s none = s
sever_found n s (some r) = disconnect n r s

unfoldable pub sever_request : ℕ → RpcState → RpcState
unfolding disconnect
sever_request n s = sever_found n s (s.request n)

-- The destruction of a listener's handle.
abbrev pub drop_listener : ListenHandle → Bool → RpcWorld → RpcWorld
drop_listener handle held w = (outside (drop_handle handle held) w).1

module _ (pb : Protobuf) where
  -- The constructor, with a transport that is not null.
  unfoldable pub new_client :
      UTransport → ℤ → ℤ → Option ℤ → Option ℕ → Option (List ℕ) → ℕ → Result RpcClient
  unfolding get_entity_uri
  new_client transport priority ttl payload_format permission_level token instance_id =
      let start = new_builder request (get_entity_uri transport) (some default_uri) none in
      Outcome.◌>>=◌ (with_priority pb start priority) (λ b1.
        Outcome.◌>>=◌ (with_ttl pb b1 ttl) (λ b2.
          Outcome.◌>>=◌ (apply_if (with_payload_format pb) b2 payload_format) (λ b3.
            Outcome.◌>>=◌ (apply_if (with_permission_level pb) b3 permission_level) (λ b4.
              Outcome.◌>>=◌ (apply_if (with_token pb) b4 token) (λ b5. ok (record {
                transport = transport;
                ttl = ttl;
                builder = b5;
                instance_id = instance_id;
              }))))))

  module _ (heap : HeapAlgorithms) where
    -- What follows the send, by the status.
    abbrev pub after_send : RpcClient → Calling → ℕ → ListenHandle → UStatus → Run (Unit {0})
    after_send client env n handle send_result =
        if not (is_ok_code send_result.code)
        then (change (expire n send_result) >> outside (drop_handle handle env.held))
        else change (
            enqueue heap (record {
              when_expire = expiry env.steady client.ttl;
              response_listener = handle;
              expire = n;
              instance_id = client.instance_id;
            }))

    -- What follows the registration, by its result.
    unfoldable pub send_request :
        RpcClient → Calling → UMessage → ℕ → Expected ListenHandle UStatus → Run (Unit {0})
    send_request client env message n (unexpected status) = change (expire n status)
    send_request client env message n (expected handle) =
        unwinding (drop_listener handle env.held) (
          outside (send pb client.transport env.sending message) >>= after_send client env n handle)

    -- invokeMethod(request, callback): the callback's handle.
    unfoldable pub invoke_message : RpcClient → Calling → UMessage → Option ℕ → Run ListenHandle
    unfolding send_request
    invoke_message client env message callback = do
      (n, callable) ← outside (establish callback)
      unwinding (λ w. record w { rpc = sever_request n w.rpc })
          (do
            change (begin_request n message.attributes.id)
            maybe_handle ← outside (
                register_listener client.transport (some n) (sink_of message.attributes)
                  (some (source_of message.attributes)))
            send_request client env message n maybe_handle
            return n)

    -- invokeMethod(method, payload, callback)
    unfoldable pub invoke_method_payload :
        RpcClient → Calling → UUri → Payload → Option ℕ → Run ListenHandle
    unfolding invoke_message
    invoke_method_payload client env method payload callback = do
      message ← lift (build_method_payload client.builder method payload env.system).0
      invoke_message client env message callback

    -- invokeMethod(method, callback)
    unfoldable pub invoke_method : RpcClient → Calling → UUri → Option ℕ → Run ListenHandle
    unfolding invoke_message
    invoke_method client env method callback = do
      message ← lift (build_method client.builder method env.system)
      invoke_message client env message callback

    -- invokeMethod(method, payload): the callback sets a promise.
    unfoldable pub invoke_future_payload :
        RpcClient → Calling → UUri → Payload → (promise : ℕ) → Run InvokeFuture
    unfolding invoke_method_payload
    invoke_future_payload client env method payload promise = do
      handle ← invoke_method_payload client env method payload (some promise)
      return (record { future = promise; callback_handle = handle })

    -- invokeMethod(method)
    unfoldable pub invoke_future : RpcClient → Calling → UUri → (promise : ℕ) → Run InvokeFuture
    unfolding invoke_method
    invoke_future client env method promise = do
      handle ← invoke_method client env method (some promise)
      return (record { future = promise; callback_handle = handle })

-- The destructor, whose ExpireService scrubs the queue.
unfoldable pub destroy_client : RpcClient → RpcState → RpcState
unfolding scrub
destroy_client client s = scrub client.instance_id s

-- The destruction of handles of listeners, by whether the transport still holds each.
abbrev pub drop_listeners : List ListenHandle → (ListenHandle → Bool) → World → World
drop_listeners [] held w = w
drop_listeners (n ∷ ns) held w = drop_listeners ns held (drop_handle n (held n) w).1

-- The destructor with the cleanups of the listeners that the container's `erase` destroys.
abbrev pub destroy_in : RpcClient → (ListenHandle → Bool) → RpcWorld → RpcWorld
destroy_in client held w = record {
  world =
      drop_listeners (map (λ p. p.response_listener) (erased client.instance_id w.rpc.pending)) held
        w.world;
  rpc = destroy_client client w.rpc;
}
