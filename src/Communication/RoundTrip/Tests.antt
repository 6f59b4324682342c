-- ===== src/Communication/RoundTrip/Tests.antt =====
-- A whole call at a concrete transport.
use up_cpp.Common.{◌≡◌, refl, none, some, [], ◌∷◌, ◌++◌, arith, inr}
use up_cpp.Common.Int.{pos, ltb_ℤ}
use up_cpp.Common.Outcome.{ok}
use up_cpp.Proto.{UMessage, UStatus}
use up_cpp.Utils.Expected.{expected}
use up_cpp.Validator.Uuid.Times.{not_expired_within}
use up_cpp.Validator.Uuid.{timestamp_millis, millis_of_nanos}
use up_cpp.Validator.Message.{source_of, sink_of}
use up_cpp.Samples.{
  pb, doc, system, readings, prompt, id, id-IsUuid, method, method-IsMethod, client,
  client-IsEntity, transport, world, payload,
}
use up_cpp.Builder.Uuid
use up_cpp.Builder.Uuid.{get_builder}
use up_cpp.Transport.World.{sent, invoked}
use up_cpp.Transport.Contract.{logged}
use up_cpp.Communication.RpcExpiry.{RpcState, begin_request, expire, on_response}
use up_cpp.Communication.RpcExpiry.SortedQueue.{sorted_queue}
use up_cpp.Communication.RpcServer.{RpcServer, Serving, serve}
use up_cpp.Communication.RpcServer.Replies.{answer}
use up_cpp.Communication.Listeners.{serving_at}
use up_cpp.Communication.RpcClient.{invoke_method_payload}
use up_cpp.Communication.RpcClient.Refines.{fresh_request, begun}
use up_cpp.Communication.RpcClient.Invokes.{request_for}
use up_cpp.Communication.RpcClient.Tests.{
  rpc_client, client_made, calling, rpc_world, method_and_client,
}
use up_cpp.Communication.RoundTrip.{IsInTime, listened, call_answered}

abbrev server : RpcServer
server = serving_at transport (λ m. some payload) (some (pos 3)) (some (pos 500)) (some 3)

abbrev serving : Serving
serving = record {
  received = readings;
  answered = pos 1_000_000;
  system = system;
  sending = readings;
}

abbrev asked : UMessage
asked = request_for pb sorted_queue rpc_client.builder method payload system

abbrev answered : UMessage
answered = answer server serving asked

in_time : IsInTime asked.attributes.id (some 1000) (some 500) serving
unfolding get_builder timestamp_millis Uuid.build Uuid.build_msb Uuid.build_lsb millis_of_nanos
in_time = record {
  received = id-IsUuid;
  alive = inr (
      not_expired_within id 1000 1_000_000 (pos 1_000_000) (omega arith) (omega arith)
        (omega arith));
  answered = id-IsUuid;
  returned = id-IsUuid;
  reply_alive = inr (
      not_expired_within id 500 1_000_000 (pos 1_000_000) (omega arith) (omega arith)
        (omega arith));
}

-- The state in which the answer arrives.
abbrev later : RpcState
later = begin_request 3 asked.attributes.id rpc_world.rpc

call_answered_example :
    let (result, after) =
      invoke_method_payload pb sorted_queue rpc_client calling method payload (some 9) rpc_world in
    let told = on_response pb 3 answered later in
    (result ≡ ok 3)
    × (after.world ≡ logged (listened world asked) (sent asked))
    × (serve pb server serving asked world
        ≡ (ok tt, logged (logged world (invoked asked)) (sent answered)))
    × (after.rpc.request 3 ≡ some (fresh_request asked.attributes.id))
    × (source_of answered.attributes ≡ method)
    × (sink_of answered.attributes ≡ client)
    × (told.delivered ≡ later.delivered ++ (3, expected answered) ∷ [])
    × ((reason : UStatus) → expire 3 reason told ≡ told)
    × ((again : UMessage) → on_response pb 3 again told ≡ told)
unfolding ltb_ℤ
call_answered_example =
    call_answered pb sorted_queue doc transport (pos 5) (pos 1000) (some (pos 3)) none none 4
      rpc_client client_made calling method payload 9 rpc_world server serving world later prompt
      client-IsEntity method-IsMethod method_and_client (refl, refl) (refl, refl) refl (refl, refl)
      (refl, refl) prompt in_time (begun 3 asked.attributes.id rpc_world.rpc)
