-- ===== src/Communication/RpcClient/Tests.antt =====
-- The RPC client's theorems at a concrete transport.
use up_cpp.Common.{ℕ, List, [], ◌∷◌, ◌≡◌, refl, true, none, some, arith}
use up_cpp.Common.Int.{pos, ltb_ℤ}
use up_cpp.Common.Outcome.{ok, throw}
use up_cpp.Proto.{UMessageType, cancelled, default_attributes, default_uri}
use up_cpp.Exception.{empty_function_object}
use up_cpp.Validator.Uri.Filters.{filter_iff}
use up_cpp.Samples.{
  id, pb, doc, system, readings, prompt, method, method-IsMethod, client, client-IsEntity,
  transport, world, payload, request_message,
}
use up_cpp.Builder.Uuid.{get_builder}
use up_cpp.Builder.Message.{
  new_builder, with_priority, with_ttl, with_payload_format, set_payload_format,
}
use up_cpp.Transport.{get_entity_uri}
use up_cpp.Transport.Contract.{AreFilters}
use up_cpp.Communication.RpcExpiry.SortedQueue.{sorted_queue}
use up_cpp.Communication.RpcExpiry.Steps.{initial, Reach}
use up_cpp.Communication.RpcClient.{
  RpcClient, Calling, new_client, invoke_message, invoke_method_payload, destroy_client,
}
use up_cpp.Communication.RpcClient.Effects.{RpcWorld}
use up_cpp.Communication.RpcExpiry.{RpcState, begin_request}
use up_cpp.Communication.RpcExpiry.Heap.{keep, taken}
use up_cpp.Utils.Expected.{unexpected}
use up_cpp.Communication.RpcClient.Destroyed.{destroy_client_lem}
use up_cpp.Communication.RpcExpiry.Delivered.{answers}
use up_cpp.Communication.RpcClient.Refines.{
  fresh_request, begun, fate, ended, is_given_up, threw, invoke_refines,
}
use up_cpp.Builder.Payload.{from_any}
use up_cpp.Utils.ProtoConverter.Tests.{codec}
use up_cpp.Communication.RpcClient.ToProto.{
  aimed, with_client, invoke_to_proto, invoke_to_proto_lem,
}
use up_cpp.Communication.RpcClient.Invokes.{requested, request_for, client_invokes}

abbrev pub rpc_client : RpcClient
rpc_client = record {
  transport = transport;
  ttl = pos 1000;
  builder = record {
    attributes = record default_attributes {
      type = UMessageType.request;
      source = some client;
      sink = some default_uri;
      priority = pos 5;
      ttl = some 1000;
      payload_format = pos 3;
    };
    expected_payload_format = some (pos 3);
    uuid_builder = get_builder;
  };
  instance_id = 4;
}

pub client_made :
    new_client pb transport (pos 5) (pos 1000) (some (pos 3)) none none 4 ≡ ok rpc_client
unfolding new_client get_entity_uri new_builder with_priority with_ttl with_payload_format
    set_payload_format ltb_ℤ
client_made = refl

abbrev pub calling : Calling
calling = record { steady = 50; system = system; sending = readings; held = true }

abbrev pub rpc_world : RpcWorld
rpc_world = record { world = world; rpc = initial.state }

pub method_and_client : AreFilters method (some client)
method_and_client = (
  ground (arith, (filter_iff method).1 (omega arith, omega arith, omega arith, omega arith)),
  ground (arith, (filter_iff client).1 (omega arith, omega arith, omega arith, omega arith)),
)

client_invokes_example :
    (rpc_client.transport ≡ transport)
    × (rpc_client.ttl ≡ pos 1000)
    × (rpc_client.instance_id ≡ 4)
    × (invoke_method_payload pb sorted_queue rpc_client calling method payload (some 9) rpc_world
        ≡ (
          ok 3,
          requested pb sorted_queue rpc_client calling
              (request_for pb sorted_queue rpc_client.builder method payload system)
              rpc_world,
        ))
client_invokes_example =
    client_invokes pb sorted_queue doc transport (pos 5) (pos 1000) (some (pos 3)) none none 4
      rpc_client client_made calling method payload 9 rpc_world prompt client-IsEntity
      method-IsMethod method_and_client (refl, refl)

invoke_refines_example :
    let (result, after) =
      invoke_message pb sorted_queue rpc_client calling request_message (some 9) rpc_world in
    let f = fate pb sorted_queue rpc_client calling request_message world in
    Reach pb sorted_queue initial (ended pb sorted_queue initial 3 id f)
    × (after.rpc ≡ (ended pb sorted_queue initial 3 id f).state)
    × (threw pb sorted_queue result ≡ is_given_up f)
    × (invoke_message pb sorted_queue rpc_client calling request_message none rpc_world
        ≡ (throw (empty_function_object "Callback function is empty"), rpc_world))
invoke_refines_example =
    invoke_refines pb sorted_queue rpc_client calling request_message 9 initial world refl

abbrev object : List ℕ
object = 4 ∷ 5 ∷ []

-- A client whose builder leaves the format open.
abbrev typed_client : RpcClient
typed_client = record rpc_client {
  builder = record rpc_client.builder { expected_payload_format = none };
}

invoke_to_proto_lem_example :
    invoke_to_proto pb sorted_queue codec typed_client calling method object (some 9) rpc_world
    ≡ with_client pb sorted_queue codec (aimed pb sorted_queue codec typed_client method) (
        invoke_method_payload pb sorted_queue typed_client calling method
          (from_any pb (1 ∷ 116 ∷ 0 ∷ object))
          (some 9)
          rpc_world)
invoke_to_proto_lem_example =
    invoke_to_proto_lem pb sorted_queue codec typed_client calling method object (some 9) rpc_world
      method-IsMethod

-- A request of the client and one of another client wait.
abbrev two_wait : RpcState
two_wait = record (begin_request 3 id initial.state) {
  pending =
      record { when_expire = 5; response_listener = 4; expire = 3; instance_id = 4 }
      ∷ record { when_expire = 8; response_listener = 7; expire = 6; instance_id = 1 }
      ∷ [];
}

destroy_client_lem_example :
    let after = destroy_client rpc_client two_wait in
    (after.pending ≡ keep 4 two_wait.pending)
    × (taken 4 after.pending ≡ [])
    × (after.request 3 ≡ some (record (fresh_request id) { called = true }))
    × (answers 3 after.delivered
        ≡ unexpected
            (record { code = cancelled; message = "RpcClient for this request was discarded" })
          ∷ [])
    × (after.dropped ≡ [])
unfolding taken keep begin_request
destroy_client_lem_example =
    destroy_client_lem rpc_client two_wait 3 (fresh_request id) (begun 3 id initial.state)
