-- ===== src/Communication/RoundTrip.antt =====
-- A call across src/communication/RpcClient.cpp and src/communication/RpcServer.cpp: the request
-- that the one sends, what the other answers, and what the first then tells its callback.
pub mod Tests
use up_cpp.Common.{
  ℕ, ◌+◌, ◌≡◌, refl, true, false, Option, none, some, List, [], ◌∷◌, ◌++◌, arith, ==_refl,
}
use up_cpp.Common.Int.{ℤ, not_ltb_ℤ_iff}
use up_cpp.Common.Outcome.{ok}
use up_cpp.Proto.{UUri, Uuid, UMessage, UStatus, Protobuf, IsDocumented}
use up_cpp.Utils.Expected.{expected}
use up_cpp.Validator.Uri.Accepted.{IsMethod, IsEntity}
use up_cpp.Validator.Uuid.{is_uuid}
use up_cpp.Validator.Message.{is_valid_rpc_request, source_of, sink_of}
use up_cpp.Validator.Message.Kinds.{IsFresh, ValidRequest, kinds_iff}
use up_cpp.Builder.Uuid.{Entropy, get_builder}
use up_cpp.Builder.Uuid
use up_cpp.Builder.Payload.{Payload}
use up_cpp.Builder.Message.{UMessageBuilder}
use up_cpp.Builder.Message.Built.{IsPrompt, positive_ttl}
use up_cpp.Transport.{UTransport, is_ok_code}
use up_cpp.Transport.World.{World, sent, listening, invoked}
use up_cpp.Transport.Contract.{AreFilters, logged}
use up_cpp.Communication.RpcExpiry.{
  RpcState, begin_request, enqueue, expire, on_response, call_once,
}
use up_cpp.Communication.RpcExpiry.Heap.{HeapAlgorithms, PendingRequest}
use up_cpp.Communication.RpcServer.{RpcServer, Serving, serve}
use up_cpp.Communication.RpcServer.Replies.{answer, reply_ttl, IsTtl, IsFormat, Fits, serve_answers}
use up_cpp.Communication.RpcClient.{RpcClient, expiry, Calling, new_client, invoke_method_payload}
use up_cpp.Communication.RpcClient.Effects.{RpcWorld}
use up_cpp.Communication.RpcClient.Sound.{SoundClient, new_client-Sound}
use up_cpp.Communication.RpcClient.Refines.{fresh_request, begun}
use up_cpp.Communication.RpcClient.Invokes.{
  requested, request_for, IsPayloadFor, payload_known, client_invokes,
}

-- While the server handles a request, the request's ID passes the check at every reading of the
-- clock, and neither the request's time to live nor the answer's passes.
pub record IsInTime (id : Uuid) (ttl reply : Option ℕ) (env : Serving) : Type 0 where
  pub received : (is_uuid id env.received.id_checked).0 ≡ true
  pub alive : IsFresh id env.received.id_rechecked env.received.id_aged ttl
  pub answered : (is_uuid id env.answered).0 ≡ true
  pub returned : (is_uuid id env.sending.reqid_checked).0 ≡ true
  pub reply_alive : IsFresh id env.sending.reqid_rechecked env.sending.reqid_aged reply

module _ (pb : Protobuf) (heap : HeapAlgorithms) (doc : IsDocumented pb) where
  -- A waiting request gets the answer that names it, and then nothing more.
  response_delivered :
      (n : ℕ) (id : Uuid) (m : UMessage) (s : RpcState)
      → s.request n ≡ some (fresh_request id)
      → m.attributes.reqid ≡ some id
      → m.attributes.commstatus ≡ none
      → let after = on_response pb n m s in
        (after.delivered ≡ s.delivered ++ (n, expected m) ∷ [])
        × ((reason : UStatus) → expire n reason after ≡ after)
        × ((again : UMessage) → on_response pb n again after ≡ after)
  unfolding on_response expire call_once
  response_delivered n id m s waits asked fine =
      let same = (doc.uuid_equals_iff id id).1 refl in
      (
        ground (arith, waits, asked, fine, ==_refl n, same),
        λ reason. ground (arith, waits, asked, fine, ==_refl n, same),
        λ again. ground (arith, waits, asked, fine, ==_refl n, same),
      )

  received :
      (entity method : UUri) (format : Option ℤ) (b : UMessageBuilder) (payload : Payload)
      → SoundClient pb entity format b
      → IsPayloadFor pb heap format payload
      → IsEntity entity
      → IsMethod method
      → (system : Entropy) (reply : Option ℕ) (env : Serving)
      → let m = request_for pb heap b method payload system in
        IsInTime m.attributes.id b.attributes.ttl reply env
        → (is_valid_rpc_request pb env.received m).0 ≡ true
  received entity method format b payload v fits entity_ok method_ok system reply env timely =
      let m = request_for pb heap b method payload system in
      let v : ValidRequest pb env.received m.attributes = record {
        common = record {
          id = timely.received;
          fresh = timely.alive;
          priority = v.common.priority;
          format = payload_known pb heap doc entity format b payload v fits;
        };
        type = v.type;
        source = (entity, v.source, entity_ok);
        sink = (method, refl, method_ok);
        priority = (not_ltb_ℤ_iff b.attributes.priority pb.priority_cs4).0 v.priority;
        ttl = positive_ttl b.attributes.ttl v.ttl v.common.ttl;
        commstatus = v.commstatus;
        reqid = v.reqid;
      } in
      ground (arith, (kinds_iff pb env.received m).0.1 v)

-- The world after the listener for a request's answers is registered.
abbrev pub listened : World → UMessage → World
listened w m =
    let n = w.next_connection in
    record {
      calls =
          w.calls
          ++ listening (n + 1) n (sink_of m.attributes) (some (source_of m.attributes)) ∷ [];
      next_connection = n + 1 + 1;
    }

-- A transport answers OK when the listener is registered and when the request is sent.
abbrev pub Accepts : UTransport → World → UMessage → Type 0
Accepts t w m =
    (is_ok_code
        (t.register_listener_impl w.calls (w.next_connection + 1) (sink_of m.attributes)
          (some (source_of m.attributes))).0.code
      ≡ true)
    × (is_ok_code (t.send_impl (listened w m).calls m).code ≡ true)

module _ (pb : Protobuf) (heap : HeapAlgorithms) (doc : IsDocumented pb) where
  goes_out :
      (client : RpcClient) (env : Calling) (m : UMessage) (w : RpcWorld)
      → Accepts client.transport w.world m
      → let after = requested pb heap client env m w in
        (after.world ≡ logged (listened w.world m) (sent m))
        × (after.rpc.request w.world.next_connection ≡ some (fresh_request m.attributes.id))
  unfolding enqueue
  goes_out client env m w accepts =
      rw (accepts.0, accepts.1) (refl, begun w.world.next_connection m.attributes.id w.rpc)

  -- A call from end to end. The client is made with a transport whose own URI is an entity's, the
  -- method and the payload are good, the transport accepts the listener and the request, and
  -- building and sending read the clock promptly; the server's settings and its callback's answer
  -- are ones a builder takes, and the request's ID stays in time. Then the call returns the
  -- callback's handle, with the request sent, listened for and waiting; the server, given that
  -- request, invokes its callback and sends one answer, from the method to the entity; and that
  -- answer, in any later state in which the request still waits, is what the client's callback is
  -- called with, after which neither an expiry nor another message does anything to the request.
  pub call_answered :
      (t : UTransport) (prio time : ℤ) (format : Option ℤ) (level : Option ℕ)
      (token : Option (List ℕ)) (instance_id : ℕ) (client : RpcClient)
      → new_client pb t prio time format level token instance_id ≡ ok client
      → (env : Calling) (method : UUri) (payload : Payload) (callback : ℕ) (w : RpcWorld)
        (server : RpcServer) (serving : Serving) (there : World) (later : RpcState)
      → IsPrompt env.system env.sending
      → IsEntity t.entity_uri
      → IsMethod method
      → AreFilters method (some t.entity_uri)
      → IsPayloadFor pb heap format payload
      → Accepts client.transport w.world
          (request_for pb heap client.builder method payload env.system)
      → IsTtl server.ttl
      → IsFormat pb server.expected_payload_format
      → Fits pb server.expected_payload_format
          (server.callback (request_for pb heap client.builder method payload env.system))
      → IsPrompt serving.system serving.sending
      → IsInTime
          (request_for pb heap client.builder method payload env.system).attributes.id
          client.builder.attributes.ttl
          (reply_ttl server.ttl)
          serving
      → later.request w.world.next_connection
        ≡ some (
            fresh_request
              (request_for pb heap client.builder method payload env.system).attributes.id)
      → let n = w.world.next_connection in
        let request = request_for pb heap client.builder method payload env.system in
        let response = answer server serving request in
        let (result, after) =
          invoke_method_payload pb heap client env method payload (some callback) w in
        let told = on_response pb n response later in
        (result ≡ ok n)
        × (after.world ≡ logged (listened w.world request) (sent request))
        × (serve pb server serving request there
            ≡ (ok tt, logged (logged there (invoked request)) (sent response)))
        × (after.rpc.request n ≡ some (fresh_request request.attributes.id))
        × (source_of response.attributes ≡ method)
        × (sink_of response.attributes ≡ t.entity_uri)
        × (told.delivered ≡ later.delivered ++ (n, expected response) ∷ [])
        × ((reason : UStatus) → expire n reason told ≡ told)
        × ((again : UMessage) → on_response pb n again told ≡ told)
  call_answered t prio time format level token instance_id client made env method payload callback w
        server serving there later prompt entity_ok method_ok filters fits accepts ttl_ok format_ok
        reply_fits reply_prompt timely waits =
      let n = w.world.next_connection in
      let request = request_for pb heap client.builder method payload env.system in
      let (v, _) = new_client-Sound pb doc t prio time format level token instance_id client made in
      let (client_t, _, _, invoked_as) =
        client_invokes pb heap doc t prio time format level token instance_id client made env method
          payload callback w prompt entity_ok method_ok filters fits in
      let served =
        serve_answers pb doc server serving request there ttl_ok format_ok reply_fits reply_prompt
          (received pb heap doc t.entity_uri method format client.builder payload v fits entity_ok
            method_ok env.system (reply_ttl server.ttl) serving timely)
          timely.answered timely.returned timely.reply_alive in
      let (world_after, waiting) = goes_out client env request w accepts in
      let (once, expired, again) =
        response_delivered pb heap doc n request.attributes.id (answer server serving request) later
          waits refl refl in
      rw invoked_as
        (refl, world_after, served, waiting, refl, rw v.source refl, once, expired, again)
