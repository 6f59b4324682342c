-- ===== src/Client/RequestBuilder.antt =====
-- src/client/usubscription/v3/RequestBuilder.cpp.
use up_cpp.Common.{ℕ, Option, some, List}
use up_cpp.Common.Int.{ℤ}
use up_cpp.Proto.{UUri}
use up_cpp.Utils.ProtoConverter.{
  Any, SubscriberInfo, SubscriptionRequest, TopicRequest, FetchSubscriptionsRequest,
  build_subscribe_attributes, build_subscription_request, build_unsubscribe_request,
  build_fetch_subscriptions_of_topic, build_fetch_subscriptions_of_subscriber,
  build_fetch_subscribers_request, build_notifications_request,
}

-- The time is in nanoseconds, the sample period in milliseconds.
pub record CallOptions : Type 0 where
  pub permission_level : Option ℕ
  pub token : Option (List ℕ)
  pub when_expire : Option ℤ
  pub sample_period_ms : Option ℤ
  pub subscriber_details : Option Any
  pub subscription_details : Option Any

unfoldable pub subscription_request : UUri → CallOptions → SubscriptionRequest
unfolding build_subscribe_attributes build_subscription_request
subscription_request topic options = build_subscription_request topic (
    some (
      build_subscribe_attributes options.when_expire options.subscription_details
        options.sample_period_ms))

unfoldable pub unsubscribe_request : UUri → TopicRequest
unfolding build_unsubscribe_request
unsubscribe_request topic = build_unsubscribe_request topic

unfoldable pub fetch_subscriptions_request_of_topic : UUri → FetchSubscriptionsRequest
unfolding build_fetch_subscriptions_of_topic
fetch_subscriptions_request_of_topic topic = build_fetch_subscriptions_of_topic topic

unfoldable pub fetch_subscriptions_request_of_subscriber :
    SubscriberInfo → FetchSubscriptionsRequest
unfolding build_fetch_subscriptions_of_subscriber
fetch_subscriptions_request_of_subscriber subscriber =
    build_fetch_subscriptions_of_subscriber subscriber

unfoldable pub fetch_subscribers_request : UUri → TopicRequest
unfolding build_fetch_subscribers_request
fetch_subscribers_request topic = build_fetch_subscribers_request topic

unfoldable pub notifications_request : UUri → TopicRequest
unfolding build_notifications_request
notifications_request topic = build_notifications_request topic
