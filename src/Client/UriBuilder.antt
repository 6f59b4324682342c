-- ===== src/Client/UriBuilder.antt =====
-- src/client/usubscription/v3/USubscriptionUUriBuilder.cpp. The options of the generated service
-- descriptor are a parameter.
use up_cpp.Common.{ℕ, ◌+◌, ◌*◌, ◌/◌, ◌%◌, ◌^◌, ◌<◌, ◌≡◌, refl, List, arith}
use up_cpp.Proto.{UUri, default_uri}

-- `service_version_major`, `service_id` and the ID of the first `notification_topic`, all uint32.
pub record ServiceOptions : Type 0 where
  pub service_version_major : ℕ
  pub service_id : ℕ
  pub notification_topic_id : ℕ

pub record USubscriptionUUriBuilder : Type 0 where
  pub base_uri : UUri
  pub sink_resource_id : ℕ

-- The constructor.
unfoldable pub new_uri_builder : ServiceOptions → USubscriptionUUriBuilder
new_uri_builder service = record {
  base_uri = record default_uri {
    ue_id = service.service_id;
    ue_version_major = service.service_version_major;
  };
  sink_resource_id = service.notification_topic_id;
}

unfoldable pub set_authority_name : USubscriptionUUriBuilder → List ℕ → USubscriptionUUriBuilder
set_authority_name b authority_name = record b {
  base_uri = record b.base_uri { authority_name = authority_name };
}

unfoldable pub set_ue_id : USubscriptionUUriBuilder → ℕ → USubscriptionUUriBuilder
set_ue_id b ue_id = record b { base_uri = record b.base_uri { ue_id = ue_id % 2 ^ 32 } }

-- The argument is a uint16; the sum is a uint32.
unfoldable pub set_instance_id : USubscriptionUUriBuilder → ℕ → USubscriptionUUriBuilder
set_instance_id b instance_id = record b {
  base_uri = record b.base_uri {
    ue_id = (b.base_uri.ue_id % 2 ^ 16 + instance_id % 2 ^ 16 * 2 ^ 16) % 2 ^ 32;
  };
}

unfoldable pub set_service_id : USubscriptionUUriBuilder → ℕ → USubscriptionUUriBuilder
set_service_id b service_id = record b {
  base_uri = record b.base_uri {
    ue_id = (b.base_uri.ue_id / 2 ^ 16 % 2 ^ 16 * 2 ^ 16 + service_id % 2 ^ 16) % 2 ^ 32;
  };
}

unfoldable pub set_resource_id : USubscriptionUUriBuilder → ℕ → USubscriptionUUriBuilder
set_resource_id b resource_id = record b {
  base_uri = record b.base_uri { resource_id = resource_id % 2 ^ 32 };
}

unfoldable pub get_service_uri_with_resource_id : USubscriptionUUriBuilder → ℕ → UUri
get_service_uri_with_resource_id b resource_id = record b.base_uri {
  resource_id = resource_id % 2 ^ 32;
}

unfoldable pub get_notification_uri : USubscriptionUUriBuilder → UUri
get_notification_uri b = record b.base_uri { resource_id = b.sink_resource_id }

same_id :
    (b c : USubscriptionUUriBuilder) (i j : ℕ)
    → i ≡ j
    → ◌≡◌ {A = USubscriptionUUriBuilder}
        (record b { base_uri = record b.base_uri { ue_id = i } })
        (record b { base_uri = record b.base_uri { ue_id = j } })
same_id b c i j e = rw e refl

-- The instance ID and the service ID are the two halves of the uE ID: set in either order, they
-- give the same builder, whose URIs have the uE ID made of both, whatever it was before, and a
-- resource ID that was set before does not appear in them.
pub halves_independent :
    (b : USubscriptionUUriBuilder) (instance_id service_id before resource_id : ℕ)
    → instance_id < 2 ^ 16
    → service_id < 2 ^ 16
    → resource_id < 2 ^ 32
    → let c = set_service_id (set_instance_id (set_resource_id b before) instance_id) service_id in
      (set_instance_id (set_service_id (set_resource_id b before) service_id) instance_id ≡ c)
      × (get_service_uri_with_resource_id c resource_id ≡ record b.base_uri {
        ue_id = instance_id * 2 ^ 16 + service_id;
        resource_id = resource_id;
      })
      × (get_notification_uri c ≡ record b.base_uri {
        ue_id = instance_id * 2 ^ 16 + service_id;
        resource_id = b.sink_resource_id;
      })
unfolding set_service_id set_instance_id set_resource_id get_service_uri_with_resource_id
    get_notification_uri
halves_independent b instance_id service_id before resource_id h k l =
    (ground (arith, h, k, l), ground (arith, h, k, l), ground (arith, h, k, l))
