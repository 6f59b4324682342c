-- ===== src/Communication/RpcClient/ToProto.antt =====
-- The invokeMethodToProto templates of include/up-cpp/communication/RpcClient.h. `withMethod`
-- changes the client's own builder, so a call that returns also returns the client afterwards.
use up_cpp.Common.{ℕ, ◌≡◌, refl, ◌∙◌, Option, none, some}
use up_cpp.Common.Outcome.{ok, throw}
use up_cpp.Proto.{UUri, UMessage, UStatus, Protobuf}
use up_cpp.Exception.{Result}
use up_cpp.Utils.Expected.{Expected, expected, unexpected}
use up_cpp.Validator.Uri.Accepted.{IsMethod, IsMethod-accepted}
use up_cpp.Builder.Payload.{Payload, from_any}
use up_cpp.Builder.Message.{with_method, build_payload, build_method_payload}
use up_cpp.Transport.{ListenHandle}
use up_cpp.Utils.ProtoConverter.{Any, Codec, proto_to_payload, extract_from_protobuf, payload_or}
use up_cpp.Communication.RpcExpiry.{MessageOrStatus}
use up_cpp.Communication.RpcExpiry.Heap.{HeapAlgorithms}
use up_cpp.Communication.RpcClient.{
  RpcClient, Calling, invoke_message, send_request, invoke_method_payload,
}
use up_cpp.Communication.RpcClient.Effects.{Run, RpcWorld, bind_run, return, lift, ◌>>=◌}

-- What the promise of a typed call is set to, by what its callback gets.
unfoldable pub resolve :
    Protobuf → {T : Type 0} (codec : Codec T) → MessageOrStatus → Expected T UStatus
unfolding extract_from_protobuf
resolve pb codec (unexpected status) = unexpected status
resolve pb codec (expected m) = extract_from_protobuf pb codec m

module _ (pb : Protobuf) (heap : HeapAlgorithms) {R : Type 0} (codec : Codec R) where
  -- What follows the conversion of the request.
  unfoldable pub invoke_converted :
      RpcClient
      → Calling
      → UUri
      → Option ℕ
      → Expected Payload UStatus
      → Run (Option ListenHandle × RpcClient)
  unfolding invoke_message
  invoke_converted client env method callback (unexpected status) = return (none, client)
  invoke_converted client env method callback (expected payload) = do
    b ← lift (with_method pb client.builder method)
    message ← lift (build_payload b payload env.system).0
    let targeted : RpcClient = record client { builder = b }
    handle ← invoke_message pb heap targeted env message callback
    return (some handle, targeted)

  -- invokeMethodToProto(method, request_message, callback): the handle, which may be empty.
  unfoldable pub invoke_to_proto :
      RpcClient → Calling → UUri → R → Option ℕ → Run (Option ListenHandle × RpcClient)
  unfolding invoke_converted proto_to_payload
  invoke_to_proto client env method request_message callback =
      invoke_converted client env method callback (proto_to_payload pb codec request_message)

  -- invokeMethodToProto(method, request_message), both templates, whose callback sets a promise.
  unfoldable pub invoke_future_to_proto :
      RpcClient → Calling → UUri → R → (promise : ℕ) → Run (ℕ × Option ListenHandle × RpcClient)
  unfolding invoke_to_proto
  invoke_future_to_proto client env method request_message promise = do
    (handle, after) ← invoke_to_proto client env method request_message (some promise)
    return (promise, handle, after)

  -- The client with the method in its builder.
  abbrev pub aimed : RpcClient → UUri → RpcClient
  aimed client method = record client {
    builder = record client.builder {
      attributes = record client.builder.attributes { sink = some method };
    };
  }

  -- A call with the client that is left, and the call of an object's Any, if it is packed, with the
  -- client's own method call.
  abbrev pub with_client :
      RpcClient
      → Result ListenHandle × RpcWorld
      → Result (Option ListenHandle × RpcClient) × RpcWorld
  with_client after = bind_run λ handle. return (some handle, after)

  abbrev pub packed_call :
      RpcClient → Calling → UUri → Option ℕ → Option Any → Run (Option ListenHandle × RpcClient)
  packed_call client env method callback none w = (ok (none, client), w)
  packed_call client env method callback (some any) w = with_client (aimed client method) (
      invoke_method_payload pb heap client env method (from_any pb (codec.any_bytes any)) callback
        w)

  abbrev invoke_built : RpcClient → Calling → Option ℕ → Result UMessage → Run ListenHandle
  invoke_built client env callback built =
      lift built >>= λ message. invoke_message pb heap client env message callback

  invoked_after :
      (client : RpcClient) (env : Calling) (method : UUri) (callback : Option ℕ)
      (built : Result UMessage) (w : RpcWorld)
      → with_client (aimed client method) (invoke_built (aimed client method) env callback built w)
        ≡ with_client (aimed client method) (invoke_built client env callback built w)
  unfolding invoke_message send_request
  invoked_after client env method callback (throw exception) w = refl
  invoked_after client env method callback (ok message) w = refl

  bound_again :
      (client : RpcClient) (env : Calling) (callback : Option ℕ) (built : Result UMessage)
      (w : RpcWorld)
      → (lift built >>= λ message. invoke_message pb heap client env message callback >>= λ handle.
            return {Answer = Option ListenHandle × RpcClient} (some handle, client))
          w
        ≡ with_client client (invoke_built client env callback built w)
  bound_again client env callback (throw exception) w = refl
  bound_again client env callback (ok message) w = refl

  converted :
      (client : RpcClient) (env : Calling) (method : UUri) (callback : Option ℕ) (payload : Payload)
      (w : RpcWorld)
      → IsMethod method
      → invoke_converted client env method callback (expected payload) w
        ≡ with_client
            (aimed client method)
            (invoke_method_payload pb heap client env method payload callback w)
  unfolding invoke_converted invoke_method_payload with_method build_payload build_method_payload
  converted client env method callback payload w h =
      let built : Result UMessage =
        (build_method_payload client.builder method payload env.system).0 in
      rw ((IsMethod-accepted method).1 h) (
        bound_again (aimed client method) env callback built w
        ∙ invoked_after client env method callback built w)

  packed :
      (client : RpcClient) (env : Calling) (method : UUri) (o : Option Any) (callback : Option ℕ)
      (w : RpcWorld)
      → IsMethod method
      → invoke_converted client env method callback (payload_or pb codec o) w
        ≡ packed_call client env method callback o w
  unfolding invoke_converted
  packed client env method none callback w h = refl
  packed client env method (some any) callback w h =
      converted client env method callback (from_any pb (codec.any_bytes any)) w h

  -- A typed call of a method to which the client can send requests is the client's call of the
  -- method with the packed object, whose result also says that the client's builder keeps the
  -- method. An object that is not packed gives an empty handle, sends nothing and tells the
  -- callback nothing.
  pub invoke_to_proto_lem :
      (client : RpcClient) (env : Calling) (method : UUri) (t : R) (callback : Option ℕ)
      (w : RpcWorld)
      → IsMethod method
      → invoke_to_proto client env method t callback w
        ≡ packed_call client env method callback (codec.pack t) w
  unfolding invoke_to_proto proto_to_payload
  invoke_to_proto_lem client env method t callback w h =
      packed client env method (codec.pack t) callback w h
