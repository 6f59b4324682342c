-- ===== src/Client/Consumer/Tests.antt =====
-- The theorems about the consumer at a concrete service, whose updates and responses are bytes that
-- begin with their topic's authority.
use mathlib.Core.List.{foldl}
use up_cpp.Common.{
  eq_bytes, ◌⊎◌, ◌==◌, Bool-cases, ℕ, ◌≡◌, refl, inl, inr, some, none, true, List, [], ◌∷◌, arith,
}
use up_cpp.Common.Int.{pos, ltb_ℤ}
use up_cpp.Common.Outcome.{ok}
use up_cpp.Proto.{UMessage, UMessageType, default_attributes, default_uri, cancelled}
use up_cpp.Utils.Expected.{unexpected}
use up_cpp.Samples.{
  pb, doc, id, system, readings, prompt, client, client-IsEntity, topic, transport, world,
  publication,
}
use up_cpp.Validator.Uri.{is_valid_subscription}
use up_cpp.Validator.Uri.Filters.{filter_iff}
use up_cpp.Builder.Uuid.{get_builder}
use up_cpp.Builder.Message.{new_builder, with_priority, with_ttl, with_payload_format}
use up_cpp.Transport.{get_entity_uri}
use up_cpp.Communication.RpcExpiry.{begin_request}
use up_cpp.Communication.RpcExpiry.Heap.{taken}
use up_cpp.Communication.RpcClient.Closing.{IsSilent}
use up_cpp.Communication.RpcExpiry.SortedQueue.{sorted_queue}
use up_cpp.Communication.RpcExpiry.Steps.{initial}
use up_cpp.Communication.RpcClient.{RpcClient, new_client}
use up_cpp.Communication.RpcClient.Effects.{RpcWorld}
use up_cpp.Client.UriBuilder.{
  ServiceOptions, new_uri_builder, get_service_uri_with_resource_id, get_notification_uri,
}
use up_cpp.Client.RequestBuilder.{CallOptions}
use up_cpp.Client.Consumer.{
  Messages, Consumer, build_unsubscription_request, Consuming, new_consumer, on_update, on_response,
  create, unsubscribe,
}
use up_cpp.Client.Consumer.Updates.{heard_last}
use up_cpp.Client.Consumer.Cleanup.{MadeOrSilent, create-MadeOrSilent}
use up_cpp.Client.Consumer.Unsubscribing.{Unsubscribed, WasMade, unsubscribe-Unsubscribed}
use up_cpp.Client.Consumer.Reference.{IsGood, created}
use up_cpp.Client.Consumer.Created.{create_lem}

abbrev messages : Messages (List ℕ) (List ℕ)
messages = record {
  parse_update = λ bytes. some bytes;
  update_topic = λ bytes. record default_uri { authority_name = bytes };
  empty_update = [];
  parse_response = λ bytes. some bytes;
  response_topic = λ bytes. record default_uri { authority_name = bytes };
  empty_response = [];
  uri_bytes = λ uri. uri.authority_name;
  request_bytes = λ request. request.topic.authority_name;
  unsubscribe_bytes = λ request. request.topic.authority_name;
  payload_format_protobuf = pos 2;
}

abbrev service : ServiceOptions
service = record { service_version_major = 3; service_id = 0; notification_topic_id = 0x8000 }

abbrev options : CallOptions
options = record {
  permission_level = none;
  token = none;
  when_expire = none;
  sample_period_ms = none;
  subscriber_details = none;
  subscription_details = none;
}

abbrev consumer : Consumer (List ℕ) (List ℕ)
consumer = new_consumer messages service transport topic options

abbrev about : List ℕ → UMessage
about bytes = record publication { payload = some bytes }

heard_last_example :
    (foldl (on_update messages) consumer (about (b'a' ∷ []) ∷ about (b'z' ∷ []) ∷ [])
      ≡ record consumer { subscription_update = b'a' ∷ [] })
    × (foldl
          (on_response messages)
          consumer
          (unexpected (record { code = cancelled; message = "" }) ∷ [])
        ≡ consumer)
unfolding eq_bytes new_consumer
heard_last_example =
    heard_last messages consumer (about (b'a' ∷ []) ∷ about (b'z' ∷ []) ∷ [])
      (unexpected (record { code = cancelled; message = "" }) ∷ [])

abbrev consuming : Consuming
consuming = record {
  calling = record { steady = 50; system = system; sending = readings; held = true };
  instance_id = 4;
  response_callback = 12;
  sink_held = true;
  subscriber_held = true;
  listener_held = λ n. true;
}

abbrev rpc_world : RpcWorld
rpc_world = record { world = world; rpc = initial.state }

create-MadeOrSilent_example : MadeOrSilent messages pb sorted_queue rpc_world.rpc 4 (
    create messages pb sorted_queue service
      (some transport)
      topic
      (some 9)
      (pos 5)
      (pos 5000)
      options
      8
      consuming
      rpc_world)
unfolding taken
create-MadeOrSilent_example =
    create-MadeOrSilent messages pb sorted_queue service (some transport) topic (some 9) (pos 5)
      (pos 5000) options 8 consuming rpc_world refl

-- A consumer that holds the handle of request 1 and a subscriber.
abbrev subscribed : Consumer (List ℕ) (List ℕ)
subscribed = record consumer {
  rpc_handle = some 1;
  subscriber = some (record { transport = transport; subscription = 2 });
}

abbrev asked : RpcWorld
asked = record { world = world; rpc = begin_request 1 id initial.state }

asked_once : (m : ℕ) → initial.state.request m ≡ none → (some 1 ≡ some m) ⊎ IsSilent m asked.rpc
unfolding begin_request
asked_once m new = elim (Bool-cases (m == 1)) [
  | inl same ↦ inl (ground (arith, same))
  | inr other ↦ inr (λ r found. absurd (ground (arith, found, other)))
]

unsubscribe-Unsubscribed_example :
    Unsubscribed messages pb sorted_queue
      (some (record { transport = transport; subscription = 2 }))
      true
      world.next_connection
      (WasMade messages pb sorted_queue 2
        (messages.unsubscribe_bytes (build_unsubscription_request messages subscribed))
        consuming
        subscribed
        world.next_connection
        asked
        (new_client pb transport (pos 5) (pos 5000) none none none 4))
      initial.state
      (unsubscribe messages pb sorted_queue (pos 5) (pos 5000) consuming subscribed asked)
unfolding taken begin_request new_consumer
unsubscribe-Unsubscribed_example =
    unsubscribe-Unsubscribed messages pb sorted_queue initial.state (pos 5) (pos 5000) consuming
      subscribed asked asked_once refl

abbrev rpc_client : RpcClient
rpc_client = record {
  transport = transport;
  ttl = pos 5000;
  builder = record {
    attributes = record default_attributes {
      type = UMessageType.request;
      source = some client;
      sink = some default_uri;
      priority = pos 5;
      ttl = some 5000;
    };
    expected_payload_format = none;
    uuid_builder = get_builder;
  };
  instance_id = 4;
}

client_made : new_client pb transport (pos 5) (pos 5000) none none none 4 ≡ ok rpc_client
unfolding new_client get_entity_uri new_builder with_priority with_ttl with_payload_format ltb_ℤ
client_made = refl

good : IsGood messages pb sorted_queue (pos 5) (pos 5000) consuming rpc_client consumer
unfolding new_consumer new_uri_builder get_service_uri_with_resource_id get_notification_uri
    is_valid_subscription ltb_ℤ
good = record {
  made = client_made;
  entity = client-IsEntity;
  entity_filter =
      ground (arith, (filter_iff client).1 (omega arith, omega arith, omega arith, omega arith));
  method = (
    record {
      authority = λ e. cc;
      service = omega arith;
      service_instance = omega arith;
      version = omega arith;
      resource = omega arith;
    },
    (omega arith, omega arith),
  );
  method_filter = ground (
    arith,
    (filter_iff (get_service_uri_with_resource_id (new_uri_builder service) 1)).1
        (omega arith, omega arith, omega arith, omega arith),
  );
  notification = refl;
  notification_filter = ground (
    arith,
    (filter_iff (get_notification_uri (new_uri_builder service))).1
        (omega arith, omega arith, omega arith, omega arith),
  );
  topic = refl;
  format = refl;
}

create_lem_example :
    create messages pb sorted_queue service
      (some transport)
      topic
      (some 9)
      (pos 5)
      (pos 5000)
      options
      8
      consuming
      rpc_world
    ≡ created messages pb sorted_queue consuming 8 9 rpc_client consumer rpc_world
create_lem_example =
    create_lem messages pb sorted_queue service transport topic 9 (pos 5) (pos 5000) options 8
      consuming rpc_client rpc_world doc prompt good
