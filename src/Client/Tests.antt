-- ===== src/Client/Tests.antt =====
-- The theorems about the subscription client at a concrete service.
use up_cpp.Common.{◌≡◌, refl, some, none, false, [], ◌∷◌, arith}
use up_cpp.Common.Int.{pos, ltb_ℤ}
use up_cpp.Common.Outcome.{ok}
use up_cpp.Proto.{UMessageType, default_attributes, default_uri}
use up_cpp.Samples.{pb, system, readings, client, topic, transport, world}
use up_cpp.Builder.Uuid.{get_builder}
use up_cpp.Builder.Message.{new_builder, with_priority, with_ttl, with_payload_format}
use up_cpp.Transport.{get_entity_uri}
use up_cpp.Communication.RpcExpiry.SortedQueue.{sorted_queue}
use up_cpp.Communication.RpcExpiry.Steps.{initial}
use up_cpp.Communication.RpcClient.{RpcClient, Calling, new_client}
use up_cpp.Communication.RpcClient.Effects.{RpcWorld}
use up_cpp.Utils.ProtoConverter.{Codec, SubscriptionRequest, TopicRequest, of_topic}
use up_cpp.Validator.Uri.Forms.{NoWildcards}
use up_cpp.Client.Subscription.{
  USubscriptionOptions, RpcClientUSubscription, new_subscription_client, subscribe, unsubscribe,
  fetch_subscriptions, fetch_subscribers, register_for_notifications, unregister_for_notifications,
}
use up_cpp.Client.Requests.{service_method, service_called, operations_call_service}
use up_cpp.Client.UriBuilder.{ServiceOptions, new_uri_builder, set_instance_id, set_authority_name}

abbrev service : ServiceOptions
service = record { service_version_major = 3; service_id = 0; notification_topic_id = 0x8000 }

abbrev options : USubscriptionOptions
options = record { authority_name = 104 ∷ []; instance_id = 2 }

abbrev rpc_client : RpcClient
rpc_client = record {
  transport = transport;
  ttl = pos 5000;
  builder = record {
    attributes = record default_attributes {
      type = UMessageType.request;
      source = some client;
      sink = some default_uri;
      priority = pos 5;
      ttl = some 5000;
    };
    expected_payload_format = none;
    uuid_builder = get_builder;
  };
  instance_id = 4;
}

abbrev subscription_client : RpcClientUSubscription
subscription_client = record {
  transport = transport;
  rpc_client = rpc_client;
  uuri_builder = record {
    base_uri = record default_uri {
      authority_name = 104 ∷ [];
      ue_id = 0x2_0000;
      ue_version_major = 3;
    };
    sink_resource_id = 0x8000;
  };
}

client_made : new_subscription_client pb service transport options 4 ≡ ok subscription_client
unfolding new_subscription_client new_client get_entity_uri new_builder with_priority with_ttl
    with_payload_format ltb_ℤ new_uri_builder set_authority_name set_instance_id
client_made = refl

service_clear : NoWildcards (service_method service options 0)
service_clear = record {
  authority = λ e. cc;
  service = omega arith;
  service_instance = omega arith;
  version = omega arith;
  resource = omega arith;
}

-- A codec that packs every object alike.
abbrev alike : {R : Type 0} → Codec R
alike = record {
  parse = λ bytes. none;
  pack = λ t. some (record { type_url = 116 ∷ []; value = [] });
  unpack = λ any. none;
  any_bytes = λ any. any.value;
  parse_any = λ bytes. none;
  payload_format_protobuf = pos 2;
  is_unconverted_format = λ format. false;
}

abbrev calling : Calling
calling = record { steady = 50; system = system; sending = readings; held = false }

abbrev rpc_world : RpcWorld
rpc_world = record { world = world; rpc = initial.state }

abbrev wanted : SubscriptionRequest
wanted = record { topic = topic; attributes = none }

abbrev topic_request : TopicRequest
topic_request = record { topic = topic }

operations_call_service_example :
    (new_client pb transport (pos 5) (pos 5000) none none none 4 ≡ ok rpc_client)
    × (subscribe pb sorted_queue alike subscription_client calling wanted 9 rpc_world
        ≡ service_called pb sorted_queue service options subscription_client calling 9 rpc_world
            alike 1 wanted)
    × (unsubscribe pb sorted_queue alike subscription_client calling topic_request 9 rpc_world
        ≡ service_called pb sorted_queue service options subscription_client calling 9 rpc_world
            alike 2 topic_request)
    × (fetch_subscriptions pb sorted_queue alike subscription_client calling
          (of_topic topic)
          9
          rpc_world
        ≡ service_called pb sorted_queue service options subscription_client calling 9 rpc_world
            alike 3
            (of_topic topic))
    × (fetch_subscribers pb sorted_queue alike subscription_client calling topic_request 9 rpc_world
        ≡ service_called pb sorted_queue service options subscription_client calling 9 rpc_world
            alike 8 topic_request)
    × (register_for_notifications pb sorted_queue alike subscription_client calling topic_request 9
          rpc_world
        ≡ service_called pb sorted_queue service options subscription_client calling 9 rpc_world
            alike 6 topic_request)
    × (unregister_for_notifications pb sorted_queue alike subscription_client calling topic_request
          9 rpc_world
        ≡ service_called pb sorted_queue service options subscription_client calling 9 rpc_world
            alike 7 topic_request)
operations_call_service_example =
    operations_call_service pb sorted_queue service transport options 4 subscription_client
      client_made service_clear alike alike alike calling wanted (of_topic topic) topic_request 9
      rpc_world
