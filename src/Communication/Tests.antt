-- ===== src/Communication/Tests.antt =====
-- The communication layer's theorems at a concrete transport.
use up_cpp.Common.{◌≡◌, refl, none, some, true, [], ◌∷◌, arith, inr}
use up_cpp.Common.Int.{pos, ltb_ℤ}
use up_cpp.Common.Outcome.{ok}
use up_cpp.Proto.{UMessageType, default_attributes}
use up_cpp.Utils.Expected.{expected}
use up_cpp.Validator.Uri.{is_valid_filter, is_valid_subscription}
use up_cpp.Validator.Uri.Forms.{forms_iff}
use up_cpp.Validator.Uri.Filters.{filter_iff}
use up_cpp.Validator.Uuid.{timestamp_millis}
use up_cpp.Validator.Uuid.Times.{not_expired_within}
use up_cpp.Samples.{
  id, pb, doc, system, readings, prompt, id-IsUuid, topic, topic-IsTopic, method, method-IsMethod,
  client, client-IsEntity, transport, world, fine, payload, request_message,
}
use up_cpp.Validator.Message.{is_valid_rpc_request}
use up_cpp.Validator.Message.Kinds.{ValidRequest, kinds_iff}
use up_cpp.Builder.Uuid.{get_builder}
use up_cpp.Builder.Message.{
  publish_builder, new_builder, require_uri, with_priority, with_ttl, with_payload_format,
  set_payload_format, notification_builder,
}
use up_cpp.Transport.World.{sent, listening, invoked}
use up_cpp.Transport.Contract.{logged}
use up_cpp.Communication.Publisher.{Publisher, new_publisher, publish}
use up_cpp.Communication.NotificationSource.{NotificationSource, new_notification_source}
use up_cpp.Communication.Senders.{carrying, publisher_sends}
use up_cpp.Communication.RpcServer
use up_cpp.Communication.RpcServer.{RpcServer, Serving, serve, any_uri}
use up_cpp.Communication.RpcServer.Replies.{answer, serve_answers}
use up_cpp.Communication.Listeners.{serving_at, server_registers}

abbrev publisher : Publisher
publisher = record {
  transport = some transport;
  publish_builder = record {
    attributes = record default_attributes {
      type = UMessageType.publish;
      source = some topic;
      priority = pos 2;
      ttl = some 1000;
      payload_format = pos 3;
    };
    expected_payload_format = some (pos 3);
    uuid_builder = get_builder;
  };
}

publisher_made :
    new_publisher pb (some transport) topic (pos 3) none (some (pos 1000)) ≡ ok publisher
unfolding new_publisher publish_builder require_uri new_builder with_priority with_ttl
    with_payload_format set_payload_format ltb_ℤ
publisher_made = rw ((forms_iff topic).3.1 topic-IsTopic) refl

publisher_sends_example :
    publish pb publisher payload system readings world
    ≡ (ok fine, logged world (sent (carrying pb publisher.publish_builder payload system)))
publisher_sends_example =
    publisher_sends pb doc transport topic (pos 3) none (some (pos 1000)) publisher publisher_made
      payload system readings prompt refl refl world

abbrev source : NotificationSource
source = record {
  transport = transport;
  notify_builder = record {
    attributes = record default_attributes {
      type = UMessageType.notification;
      source = some topic;
      sink = some client;
      priority = pos 2;
      payload_format = pos 3;
    };
    expected_payload_format = some (pos 3);
    uuid_builder = get_builder;
  };
}

source_made :
    new_notification_source pb (some transport) topic client (some (pos 3)) none none ≡ ok source
unfolding new_notification_source notification_builder require_uri new_builder with_priority
    with_payload_format set_payload_format ltb_ℤ
source_made = rw ((forms_iff topic).4.1 topic-IsTopic, (forms_iff client).5.1 client-IsEntity) refl

abbrev server : RpcServer
server = serving_at transport (λ m. some payload) (some (pos 3)) (some (pos 500)) (some 3)

abbrev serving : Serving
serving = record {
  received = readings;
  answered = pos 1_000_000;
  system = system;
  sending = readings;
}

request-ValidRequest : ValidRequest pb readings request_message.attributes
unfolding ltb_ℤ timestamp_millis
request-ValidRequest = record {
  common = record {
    id = id-IsUuid;
    fresh = inr (
        not_expired_within id 1000 1_000_000 (pos 1_000_000) (omega arith) (omega arith)
          (omega arith));
    priority = refl;
    format = refl;
  };
  type = refl;
  source = (client, refl, client-IsEntity);
  sink = (method, refl, method-IsMethod);
  priority = omega arith;
  ttl = (999, refl);
  commstatus = refl;
  reqid = refl;
}

request_passes : (is_valid_rpc_request pb readings request_message).0 ≡ true
request_passes = ground (arith, (kinds_iff pb readings request_message).0.1 request-ValidRequest)

serve_answers_example : serve pb server serving request_message world ≡ (
  ok tt,
  logged (logged world (invoked request_message)) (sent (answer server serving request_message)),
)
unfolding ltb_ℤ timestamp_millis
serve_answers_example =
    serve_answers pb doc server serving request_message world refl (refl, refl) (refl, refl) prompt
      request_passes id-IsUuid id-IsUuid
      (inr (
        not_expired_within id 500 1_000_000 (pos 1_000_000) (omega arith) (omega arith)
          (omega arith)))

topic_subscribable : (is_valid_subscription topic).0 ≡ true
topic_subscribable = ground (arith, (forms_iff topic).6.1 topic-IsTopic.1)

topic_filter : (is_valid_filter topic).0 ≡ true
topic_filter =
    ground (arith, (filter_iff topic).1 (omega arith, omega arith, omega arith, omega arith))

client_filter : (is_valid_filter client).0 ≡ true
client_filter =
    ground (arith, (filter_iff client).1 (omega arith, omega arith, omega arith, omega arith))

server_registers_example :
    RpcServer.create pb (some transport) method (λ m. some payload) none none 8 world ≡ (
      ok (expected (serving_at transport (λ m. some payload) none none (some 3))),
      record { calls = listening 3 8 any_uri (some method) ∷ []; next_connection = 4 },
    )
server_registers_example =
    server_registers pb transport method (λ m. some payload) none none 8 world method-IsMethod
      (omega arith, omega arith, omega arith) refl
