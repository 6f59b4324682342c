-- ===== src/Communication/RpcClient/Invokes.antt =====
-- What invokeMethod of src/communication/RpcClient.cpp does with a good request.
use up_cpp.Common.{
  ℕ, ◌+◌, ◌≡◌, refl, ap, inl, inr, Bool, true, false, Option, none, some, List, [], ◌∷◌, ◌++◌,
  arith, if◌then◌else◌, Bool-cases,
}
use up_cpp.Common.Int.{ℤ, eq_ℤ_refl}
use up_cpp.Common.Outcome.{ok}
use up_cpp.Proto.{UUri, UMessage, Protobuf, IsDocumented}
use up_cpp.Validator.Uri.Accepted.{IsMethod, IsEntity}
use up_cpp.Validator.Message.{Readings, is_valid, source_of, sink_of}
use up_cpp.Validator.Message.Kinds.{IsOk, is_valid_iff}
use up_cpp.Builder.Uuid.{Entropy}
use up_cpp.Builder.Payload.{Payload, build_move}
use up_cpp.Builder.Message.{UMessageBuilder, build_method_payload, fill, stamped}
use up_cpp.Builder.Message.Validity.{SoundRequest}
use up_cpp.Builder.Message.Built.{IsPrompt, request_valid}
use up_cpp.Transport.{UTransport, ListenHandle, establish, drop_handle, is_ok_code}
use up_cpp.Transport.World.{World, sent, listening, cleaned}
use up_cpp.Transport.Contract.{AreFilters, logged, accepted_send, register_contract}
use up_cpp.Communication.RpcExpiry.{begin_request, expire, enqueue}
use up_cpp.Communication.RpcExpiry.Heap.{HeapAlgorithms}
use up_cpp.Communication.RpcClient.{
  RpcClient, Calling, expiry, new_client, invoke_message, invoke_method_payload, send_request,
}
use up_cpp.Communication.RpcClient.Effects.{RpcWorld}
use up_cpp.Communication.RpcClient.Sound.{SoundClient, new_client-Sound}

abbrev pub cleaned_if : Bool → ListenHandle → World → World
cleaned_if held handle w = if held then logged w (cleaned handle) else w

module _ (pb : Protobuf) (heap : HeapAlgorithms) where
  -- What an accepted request leads to: its listener is registered, for the method's messages to
  -- this entity; if that is answered OK the request is sent, and if that is answered OK it waits in
  -- the queue until its time to live has passed. The first status that is not OK is what the
  -- callback gets, and the listener is dropped.
  abbrev pub requested : RpcClient → Calling → UMessage → RpcWorld → RpcWorld
  requested client env m w =
      let n = w.world.next_connection in
      let listener = n + 1 in
      let source = source_of m.attributes in
      let method = sink_of m.attributes in
      let begun = begin_request n m.attributes.id w.rpc in
      let answer =
        client.transport.register_listener_impl w.world.calls listener method (some source) in
      let registered : World = record {
        calls = w.world.calls ++ listening listener n method (some source) ∷ [];
        next_connection = listener + 1;
      } in
      let status = client.transport.send_impl registered.calls m in
      if is_ok_code answer.0.code
      then (if is_ok_code status.code
          then record {
            world = logged registered (sent m);
            rpc =
                enqueue heap
                  (record {
                    when_expire = expiry env.steady client.ttl;
                    response_listener = listener;
                    expire = n;
                    instance_id = client.instance_id;
                  })
                  begun;
          }
          else record {
            world = cleaned_if env.held listener (logged registered (sent m));
            rpc = expire n status begun;
          })
      else record { world = cleaned_if answer.1 listener registered; rpc = expire n answer.0 begun }

  message_invokes :
      (client : RpcClient) (env : Calling) (m : UMessage) (callback : ℕ) (w : RpcWorld)
      → is_valid pb env.sending m ≡ (true, none)
      → AreFilters (sink_of m.attributes) (some (source_of m.attributes))
      → invoke_message pb heap client env m (some callback) w
        ≡ (ok w.world.next_connection, requested client env m w)
  unfolding invoke_message establish send_request drop_handle
  message_invokes client env m callback w valid filters =
      let n = w.world.next_connection in
      let opened : World = record w.world { next_connection = n + 1 } in
      let registered =
        register_contract client.transport n (sink_of m.attributes) (some (source_of m.attributes))
          opened filters in
      let answer =
        client.transport.register_listener_impl opened.calls (n + 1) (sink_of m.attributes)
          (some (source_of m.attributes)) in
      let listened : World = record {
        calls =
            opened.calls
            ++ listening (n + 1) n (sink_of m.attributes) (some (source_of m.attributes)) ∷ [];
        next_connection = n + 1 + 1;
      } in
      let goes = accepted_send pb client.transport env.sending m listened valid in
      elim (Bool-cases (is_ok_code answer.0.code)) [
        | inr refused ↦ rw (registered, refused) refl
        | inl answered ↦
            elim (Bool-cases (is_ok_code ((client.transport.send_impl listened.calls m).code))) [
              | inl good ↦ rw (registered, answered, goes, good) refl
              | inr bad ↦ elim (Bool-cases env.held) [
                | inl held ↦ rw (registered, answered, goes, bad, held) refl
                | inr gone ↦ rw (registered, answered, goes, bad, gone) refl
              ]
            ]
      ]

  abbrev targeted : UMessageBuilder → UUri → ℤ → Option (List ℕ) → Entropy → UMessage
  targeted b method format bytes system = record {
    attributes = record (stamped b system) { sink = some method; payload_format = format };
    payload = bytes;
  }

  -- The message of a request to a method.
  abbrev pub request_for : UMessageBuilder → UUri → Payload → Entropy → UMessage
  request_for b method payload system =
      targeted b method payload.payload.1 (some payload.payload.0) system

  abbrev pub IsPayloadFor : Option ℤ → Payload → Type 0
  IsPayloadFor none p = (p.moved ≡ false) × (pb.payload_format_is_valid p.payload.1 ≡ true)
  IsPayloadFor (some f) p = (p.moved ≡ false) × (p.payload.1 ≡ f)

  module _ (doc : IsDocumented pb) where
    targeted_valid :
        (entity method : UUri) (format : Option ℤ) (b : UMessageBuilder) (f : ℤ)
        (bytes : Option (List ℕ)) (system : Entropy) (now : Readings)
        → SoundClient pb entity format b
        → IsPrompt system now
        → IsEntity entity
        → IsMethod method
        → pb.payload_format_is_valid f ≡ true
        → IsOk (is_valid pb now (targeted b method f bytes system))
    targeted_valid entity method format b f bytes system now v prompt entity_ok method_ok known =
        let sound : SoundRequest pb (record b.attributes { sink = some method }) = record {
          common = record {
            priority = v.common.priority;
            format = v.common.format;
            ttl = v.common.ttl;
          };
          type = v.type;
          source = (entity, v.source, entity_ok);
          sink = (method, refl, method_ok);
          priority = v.priority;
          ttl = v.ttl;
          commstatus = v.commstatus;
          reqid = v.reqid;
        } in
        (is_valid_iff pb now (targeted b method f bytes system)).1
          (inl (rw v.uuid_builder (request_valid system now prompt pb _ f known sound)))

    pub payload_known :
        (entity : UUri) (format : Option ℤ) (b : UMessageBuilder) (payload : Payload)
        → SoundClient pb entity format b
        → IsPayloadFor format payload
        → pb.payload_format_is_valid payload.payload.1 ≡ true
    payload_known entity none b payload v h = h.1
    payload_known entity (some f) b payload v h = rw h.1 (v.known f refl)

    built :
        (format : Option ℤ) (b : UMessageBuilder) (method : UUri) (payload : Payload)
        (system : Entropy)
        → b.expected_payload_format ≡ format
        → IsPayloadFor format payload
        → (build_method_payload b method payload system).0
          ≡ ok (request_for b method payload system)
    unfolding build_method_payload build_move fill
    built none b method payload system e h = ground (arith, e, h)
    built (some f) b method payload system e h = ground (arith, e, h, eq_ℤ_refl f)

    -- A client made with a transport whose own URI is an entity's calls a method with any unmoved
    -- payload of its format, if both URIs pass the filter check and the check on sending reads the
    -- clock promptly: it returns the callback's handle, and the request is registered, sent and
    -- queued with the expiry at its time to live from now, as far as the transport answers OK.
    pub client_invokes :
        (t : UTransport) (prio time : ℤ) (format : Option ℤ) (level : Option ℕ)
        (token : Option (List ℕ)) (instance_id : ℕ) (client : RpcClient)
        → new_client pb t prio time format level token instance_id ≡ ok client
        → (env : Calling) (method : UUri) (payload : Payload) (callback : ℕ) (w : RpcWorld)
        → IsPrompt env.system env.sending
        → IsEntity t.entity_uri
        → IsMethod method
        → AreFilters method (some t.entity_uri)
        → IsPayloadFor format payload
        → (client.transport ≡ t)
          × (client.ttl ≡ time)
          × (client.instance_id ≡ instance_id)
          × (invoke_method_payload pb heap client env method payload (some callback) w ≡ (
            ok w.world.next_connection,
            requested client env (request_for client.builder method payload env.system) w,
          ))
    unfolding invoke_method_payload
    client_invokes t prio time format level token instance_id client made env method payload
          callback w prompt entity_ok method_ok filters fits =
        let (v, same) =
          new_client-Sound pb doc t prio time format level token instance_id client made in
        let m = request_for client.builder method payload env.system in
        let valid =
          targeted_valid t.entity_uri method format client.builder _ _ env.system env.sending v
            prompt entity_ok method_ok
            (payload_known t.entity_uri format client.builder payload v fits) in
        (
          ap (λ c. c.transport) same,
          ap (λ c. c.ttl) same,
          ap (λ c. c.instance_id) same,
          rw (built format client.builder method payload env.system v.expects fits)
              (message_invokes client env m callback w valid (rw v.source filters)),
        )
