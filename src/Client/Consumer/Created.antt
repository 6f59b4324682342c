-- ===== src/Client/Consumer/Created.antt =====
-- What create of src/client/usubscription/v3/Consumer.cpp does with good arguments.
use up_cpp.Common.{ℕ, ◌≡◌, refl, inl, inr, true, false, Bool-cases, none, some, if◌then◌else◌}
use up_cpp.Common.Int.{ℤ}
use up_cpp.Common.Outcome.{ok}
use up_cpp.Proto.{UUri, UStatus, Protobuf, IsDocumented}
use up_cpp.Utils.Expected.{expected, unexpected}
use up_cpp.Validator.Uri.{is_valid_subscription}
use up_cpp.Builder.Message.Built.{IsPrompt}
use up_cpp.Builder.Payload.{from_message}
use up_cpp.Transport.{UTransport, is_ok_code}
use up_cpp.Transport.World.{World}
use up_cpp.Communication.Listeners.{sink_registers, subscribe_registers}
use up_cpp.Communication.Subscriber.{Subscriber}
use up_cpp.Communication.RpcExpiry.{RpcState}
use up_cpp.Communication.RpcExpiry.Heap.{HeapAlgorithms}
use up_cpp.Communication.RpcClient.{RpcClient, new_client, invoke_method_payload}
use up_cpp.Communication.RpcClient.Effects.{RpcWorld, outside, in_world}
use up_cpp.Communication.RpcClient.Invokes.{requested, request_for, client_invokes, cleaned_if}
use up_cpp.Client.UriBuilder.{ServiceOptions}
use up_cpp.Client.RequestBuilder.{CallOptions}
use up_cpp.Communication.Subscriber
use up_cpp.Client.Consumer.Effects.{Method, bind_method, beside, return, call}
use up_cpp.Client.Consumer.Reference.{
  listened, answer, notification_of, method_of, request_payload, with_sink, with_request,
  topic_settled, subscribed, created, IsGood,
}
use up_cpp.Client.Consumer.{
  Messages, Consumer, Consuming, new_consumer, create_notification_sink, request_service, subscribe,
  keep_sink, keep_subscriber, set_up, create, settle, destroy,
}

module _ {Update Response : Type 0} (messages : Messages Update Response) (pb : Protobuf)
    (heap : HeapAlgorithms) where
  abbrev Self : Type 0
  Self = Consumer Update Response

  topic_registered :
      (env : Consuming) (callback : ℕ) (held : Self) (after : RpcWorld)
      → (is_valid_subscription held.subscription_topic).0 ≡ true
      → settle messages pb heap env (
          bind_method (keep_subscriber messages pb heap) (
            call
              (outside (
                Subscriber.subscribe (some held.transport) held.subscription_topic (some callback)))
              held
              after))
        ≡ topic_settled messages pb heap env callback held after
  topic_registered env callback held after topic_ok =
      rw (subscribe_registers held.transport callback held.subscription_topic after.world topic_ok)
        (elim (Bool-cases
          (is_ok_code ((answer held.transport held.subscription_topic none after.world).0.code))) [
            | inl good ↦ rw good refl
            | inr bad ↦ rw (bad, bad) refl
          ])

  subscribe_lem :
      (priority ttl : ℤ) (callback : ℕ) (env : Consuming) (client : RpcClient) (c : Self)
      (w : RpcWorld)
      → new_client pb c.transport priority ttl none none none env.instance_id ≡ ok client
      → c.rpc_client ≡ none
      → c.rpc_handle ≡ none
      → (is_valid_subscription c.subscription_topic).0 ≡ true
      → invoke_method_payload pb heap client env.calling
          (method_of messages pb heap c)
          (request_payload messages pb heap c)
          (some env.response_callback)
          w
        ≡ (
          ok w.world.next_connection,
          requested pb heap client env.calling
              (request_for pb heap client.builder
                (method_of messages pb heap c)
                (request_payload messages pb heap c)
                env.calling.system)
              w,
        )
      → settle messages pb heap env
          (subscribe messages pb heap priority ttl (some callback) env c w)
        ≡ subscribed messages pb heap env callback client c w
  unfolding subscribe request_service
  subscribe_lem priority ttl callback env client c w made fresh unheld topic_ok invoked =
      rw (made, fresh, invoked, unheld)
        (topic_registered env callback
          (with_request messages pb heap c client w.world.next_connection)
          (requested pb heap client env.calling
            (request_for pb heap client.builder (method_of messages pb heap c)
              (request_payload messages pb heap c) env.calling.system)
            w)
          topic_ok)

  settle_refused :
      (env : Consuming) (status : UStatus) (c : Self) (w : RpcWorld)
      → is_ok_code status.code ≡ false
      → settle messages pb heap env (ok status, c, w)
        ≡ (ok (unexpected status), destroy messages pb heap c env w)
  settle_refused env status c w bad = rw bad refl

  goes_no_further :
      (env : Consuming) (status : UStatus) (rest : Method Self UStatus) (c : Self) (w : RpcWorld)
      → is_ok_code status.code ≡ false
      → settle messages pb heap env ((if is_ok_code status.code then rest else return status) c w)
        ≡ (ok (unexpected status), destroy messages pb heap c env w)
  goes_no_further env status rest c w bad = rw bad (settle_refused env status c w bad)

  -- What follows the registration of the sink's listener.
  sink_settled :
      (priority ttl : ℤ) (callback : ℕ) (env : Consuming) (client : RpcClient)
      (service : ServiceOptions) (t : UTransport) (topic : UUri) (options : CallOptions)
      (status : UStatus) (conn : ℕ) (heard refused : World) (rpc : RpcState)
      → let c = new_consumer messages service t topic options in
        settle messages pb heap env (
            subscribe messages pb heap priority ttl
              (some callback)
              env
              (with_sink messages pb heap c conn)
              (record { world = heard; rpc = rpc }))
          ≡ subscribed messages pb heap env callback client
              (with_sink messages pb heap c conn)
              (record { world = heard; rpc = rpc })
        → settle messages pb heap env (
            bind_method
              (λ status.
                if is_ok_code status.code
                then subscribe messages pb heap priority ttl (some callback) env
                else return status)
              (bind_method (keep_sink messages) (
                beside c (
                  in_world rpc (
                    if is_ok_code status.code
                    then (ok (expected (record { transport = t; listener = conn })), heard)
                    else (ok (unexpected status), refused))))))
          ≡ (if is_ok_code status.code
              then subscribed messages pb heap env callback client
                  (with_sink messages pb heap c conn)
                  (record { world = heard; rpc = rpc })
              else (ok (unexpected status), record { world = refused; rpc = rpc }))
  unfolding new_consumer destroy
  sink_settled priority ttl callback env client service t topic options status conn heard refused
        rpc done =
      elim (Bool-cases (is_ok_code status.code)) [
        | inl good ↦ rw good done
        | inr bad ↦ rw bad (
            goes_no_further env status (subscribe messages pb heap priority ttl (some callback) env)
              (new_consumer messages service t topic options)
              (record { world = refused; rpc = rpc }) bad)
      ]

  connect_lem :
      (priority ttl : ℤ) (update_callback callback : ℕ) (env : Consuming) (client : RpcClient)
      (service : ServiceOptions) (t : UTransport) (topic : UUri) (options : CallOptions)
      (w : RpcWorld)
      → let c = new_consumer messages service t topic options in
        IsDocumented pb
        → IsPrompt env.calling.system env.calling.sending
        → IsGood messages pb heap priority ttl env client c
        → settle messages pb heap env
            (set_up messages pb heap update_callback priority ttl (some callback) env c w)
          ≡ created messages pb heap env update_callback callback client c w
  unfolding set_up create_notification_sink new_consumer from_message
  connect_lem priority ttl update_callback callback env client service t topic options w doc prompt
        g =
      let c = new_consumer messages service t topic options in
      let sink = some t.entity_uri in
      let conn = w.world.next_connection in
      let told = answer t (notification_of messages pb heap c) sink w.world in
      let heard = listened update_callback (notification_of messages pb heap c) sink w.world in
      let next : RpcWorld = record w { world = heard } in
      let start = with_sink messages pb heap c conn in
      let invoked =
        (client_invokes pb heap doc t priority ttl none none none env.instance_id client g.made
          env.calling (method_of messages pb heap c) (request_payload messages pb heap c)
          env.response_callback next prompt g.entity g.method (g.method_filter, g.entity_filter)
          (refl, g.format)).3 in
      rw
        (sink_registers t update_callback (notification_of messages pb heap c) w.world
          g.notification g.notification_filter g.entity_filter)
        (sink_settled priority ttl callback env client service t topic options told.0 conn heard
          (cleaned_if told.1 conn heard) w.rpc
          (subscribe_lem priority ttl callback env client start next g.made refl refl g.topic
            invoked))

  -- With good arguments create registers the sink's listener for the service's notifications to
  -- this entity, makes the subscription request, and registers the topic's listener, as far as the
  -- transport answers OK to the two registrations: it returns the consumer with its sink, its
  -- client, its handle and its subscriber, or else the first such status, once it has destroyed what
  -- was made so far. What the transport answers to the request makes no difference to the result.
  pub create_lem :
      (service : ServiceOptions) (t : UTransport) (topic : UUri) (callback : ℕ) (priority ttl : ℤ)
      (options : CallOptions) (update_callback : ℕ) (env : Consuming) (client : RpcClient)
      (w : RpcWorld)
      → let c = new_consumer messages service t topic options in
        IsDocumented pb
        → IsPrompt env.calling.system env.calling.sending
        → IsGood messages pb heap priority ttl env client c
        → create messages pb heap service
            (some t)
            topic
            (some callback)
            priority
            ttl
            options
            update_callback
            env
            w
          ≡ created messages pb heap env update_callback callback client c w
  unfolding create
  create_lem service t topic callback priority ttl options update_callback env client w doc prompt
        g =
      connect_lem priority ttl update_callback callback env client service t topic options w doc
        prompt g
