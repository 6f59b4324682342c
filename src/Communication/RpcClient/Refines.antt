-- ===== src/Communication/RpcClient/Refines.antt =====
-- invokeMethod of src/communication/RpcClient.cpp as steps of the system that the theorems on the
-- once-flags are about.
use mathlib.Core.Path.{subst}
use up_cpp.Common.{
  ℕ, ◌+◌, ◌≡◌, refl, ap, inl, inr, Bool, true, false, not, ◌&&◌, none, some, [], ◌∷◌, ◌++◌, arith,
  ==_refl, Bool-cases, if◌then◌else◌,
}
use up_cpp.Common.Outcome.{ok, throw}
use up_cpp.Proto.{UUri, Uuid, UMessage, UStatus, Protobuf}
use up_cpp.Exception.{Result, empty_function_object}
use up_cpp.Validator.Uri.{is_valid_filter}
use up_cpp.Validator.Message.{is_valid, source_of, sink_of}
use up_cpp.Transport.{establish, drop_handle, is_ok_code}
use up_cpp.Transport.World.{World, listening}
use up_cpp.Transport.Contract.{AreFilters, register_contract, register_refused, send_contract}
use up_cpp.Communication.RpcExpiry.{
  RpcRequest, RpcState, begin_request, disconnect, expire, enqueue,
}
use up_cpp.Communication.RpcExpiry.Heap.{PendingRequest, HeapAlgorithms}
use up_cpp.Communication.RpcExpiry.Steps.{
  System, begin, fail, throw, queue, drop, Reach, here, next, mark,
}
use up_cpp.Communication.RpcClient.{
  RpcClient, Calling, expiry, invoke_message, send_request, sever_request, sever_found,
}
use up_cpp.Communication.RpcClient.Effects.{RpcWorld}

mark_same : (n : ℕ) (b : Bool) (f : ℕ → Bool) → mark n b f n ≡ b
mark_same n b f = rw (==_refl n) refl

abbrev pub fresh_request : Uuid → RpcRequest
fresh_request reqid = record { called = false; connected = true; reqid = reqid }

pub begun :
    (n : ℕ) (reqid : Uuid) (s : RpcState)
    → (begin_request n reqid s).request n ≡ some (fresh_request reqid)
unfolding begin_request
begun n reqid s = rw (==_refl n) refl

-- How a call of invokeMethod with a callback goes: its request fails with a status, waits in the
-- queue, or is given up by an exception.
pub data Fate : Type 0 where
  fails : UStatus → Fate
  waits : PendingRequest → Fate
  given_up : Fate

abbrev pub is_given_up : Fate → Bool
is_given_up given_up = true
is_given_up _ = false

abbrev pub are_filters : UUri → UUri → Bool
are_filters method source = (is_valid_filter method).0 && (is_valid_filter source).0

not_filters :
    (method source : UUri) → ¬ AreFilters method (some source) → are_filters method source ≡ false
not_filters method source bad = elim (Bool-cases (are_filters method source)) [
  | inl good ↦ absurd (bad (ground (arith, good), ground (arith, good)))
  | inr e ↦ e
]

module _ (pb : Protobuf) (heap : HeapAlgorithms) where
  -- The fate by what the transport answers: the registration throws for a bad filter, and may be
  -- answered with a status; so may the send, which throws for a bad message.
  abbrev pub fate : RpcClient → Calling → UMessage → World → Fate
  fate client env m w =
      let n = w.next_connection in
      let method = sink_of m.attributes in
      let source = source_of m.attributes in
      let answer = client.transport.register_listener_impl w.calls (n + 1) method (some source) in
      let calls = w.calls ++ listening (n + 1) n method (some source) ∷ [] in
      let status = client.transport.send_impl calls m in
      if not (are_filters method source)
      then given_up
      else if not (is_ok_code answer.0.code)
      then fails answer.0
      else if not (is_valid pb env.sending m).0
      then given_up
      else if not (is_ok_code status.code)
      then fails status
      else waits (record {
        when_expire = expiry env.steady client.ttl;
        response_listener = n + 1;
        expire = n;
        instance_id = client.instance_id;
      })

  -- The steps of the call: the request begins, and then fails, is queued, or is left by the
  -- exception, which drops the callback's handle.
  module _ (s : System) (n : ℕ) (reqid : Uuid) where
    abbrev pub started : System
    started = record s {
      state = begin_request n reqid s.state;
      in_flight = mark n true s.in_flight;
    }

    abbrev pub ended : Fate → System
    ended (fails status) = record started {
      state = expire n status started.state;
      in_flight = mark n false started.in_flight;
    }
    ended (waits p) = record started {
      state = enqueue heap p started.state;
      in_flight = mark n false started.in_flight;
    }
    ended given_up = record started {
      state = disconnect n (fresh_request reqid) started.state;
      in_flight = mark n false started.in_flight;
      thrown = mark n true s.thrown;
    }

    ended_reached :
        (f : Fate)
        → s.state.request n ≡ none
        → ((p : PendingRequest) → f ≡ waits p → p.expire ≡ n)
        → Reach pb heap s (ended f)
    ended_reached (fails status) new own =
        next (next here (begin s n reqid new))
          (fail started n status (mark_same n true s.in_flight))
    ended_reached (waits p) new own =
        subst
          (λ m. Reach pb heap s (record started {
            state = enqueue heap p started.state;
            in_flight = mark m false started.in_flight;
          }))
          (own p refl)
          (next (next here (begin s n reqid new))
            (queue started p (rw (own p refl) (mark_same n true s.in_flight))))
    ended_reached given_up new own =
        next
          (next (next here (begin s n reqid new)) (throw started n (mark_same n true s.in_flight)))
          (drop
            (record started {
              in_flight = mark n false started.in_flight;
              thrown = mark n true s.thrown;
            })
            n (fresh_request reqid) (begun n reqid s.state))

  severed_begun :
      (n : ℕ) (reqid : Uuid) (s : RpcState)
      → sever_request n (begin_request n reqid s)
        ≡ disconnect n (fresh_request reqid) (begin_request n reqid s)
  unfolding sever_request
  severed_begun n reqid s = ap (sever_found n (begin_request n reqid s)) (begun n reqid s)

  abbrev pub threw : {A : Type 0} → Result A → Bool
  threw (ok a) = false
  threw (throw exception) = true

  own_fate :
      (client : RpcClient) (env : Calling) (m : UMessage) (w : World) (p : PendingRequest)
      → fate client env m w ≡ waits p
      → p.expire ≡ w.next_connection
  own_fate client env m w p e = ground (arith, e)

  accepted_fate :
      (client : RpcClient) (env : Calling) (m : UMessage) (callback : ℕ) (s : System) (w : World)
      → AreFilters (sink_of m.attributes) (some (source_of m.attributes))
      → let (result, after) =
          invoke_message pb heap client env m
            (some callback)
            (record { world = w; rpc = s.state }) in
        let f = fate client env m w in
        (after.rpc ≡ (ended s w.next_connection m.attributes.id f).state)
        × (threw result ≡ is_given_up f)
  unfolding invoke_message establish send_request drop_handle
  accepted_fate client env m callback s w good =
      let n = w.next_connection in
      let method = sink_of m.attributes in
      let source = source_of m.attributes in
      let opened : World = record w { next_connection = n + 1 } in
      let registered = register_contract client.transport n method (some source) opened good in
      let answer = client.transport.register_listener_impl w.calls (n + 1) method (some source) in
      let heard : World = record {
        calls = w.calls ++ listening (n + 1) n method (some source) ∷ [];
        next_connection = n + 1 + 1;
      } in
      let status = client.transport.send_impl heard.calls m in
      let gone = severed_begun n m.attributes.id s.state in
      elim (Bool-cases (is_ok_code answer.0.code)) [
        | inr refused ↦ rw (registered, good.0, good.1, refused) (refl, refl)
        | inl answered ↦ elim (send_contract pb client.transport env.sending m heard) [
          | inr (why, invalid, thrown) ↦
              rw (registered, good.0, good.1, answered, thrown, invalid) (gone, refl)
          | inl (valid, goes) ↦ elim (Bool-cases (is_ok_code status.code)) [
            | inl sent ↦ rw (registered, good.0, good.1, answered, goes, valid, sent) (refl, refl)
            | inr bad ↦ elim (Bool-cases env.held) [
              | inl held ↦
                  rw (registered, good.0, good.1, answered, goes, valid, bad, held) (refl, refl)
              | inr let_go ↦
                  rw (registered, good.0, good.1, answered, goes, valid, bad, let_go) (refl, refl)
            ]
          ]
        ]
      ]

  invoke_fate :
      (client : RpcClient) (env : Calling) (m : UMessage) (callback : ℕ) (s : System) (w : World)
      → let (result, after) =
          invoke_message pb heap client env m
            (some callback)
            (record { world = w; rpc = s.state }) in
        let f = fate client env m w in
        (after.rpc ≡ (ended s w.next_connection m.attributes.id f).state)
        × (threw result ≡ is_given_up f)
  unfolding invoke_message establish send_request drop_handle
  invoke_fate client env m callback s w =
      let n = w.next_connection in
      let method = sink_of m.attributes in
      let source = source_of m.attributes in
      let opened : World = record w { next_connection = n + 1 } in
      let gone = severed_begun n m.attributes.id s.state in
      elim (register_refused client.transport (some n) method (some source) opened) [
        | inl (text, why, bad, refused) ↦ rw (refused, not_filters method source bad) (gone, refl)
        | inr good ↦
            accepted_fate client env m callback s w
              (elim good [ inl (h, _, _) ↦ h | inr (h, _) ↦ h ])
      ]

  -- Every call of invokeMethod with a callback is a run of steps on the shared state: its request
  -- begins, and then fails, is queued, or is left by the exception that the call throws. Which it
  -- is, and with which status, expiry, listener and instance, follows from what the filter check,
  -- the message check and the transport answer: a request is queued just if all accept it. A call
  -- with an empty callback throws, and changes nothing.
  pub invoke_refines :
      (client : RpcClient) (env : Calling) (m : UMessage) (callback : ℕ) (s : System) (w : World)
      → s.state.request w.next_connection ≡ none
      → let before : RpcWorld = record { world = w; rpc = s.state } in
        let (result, after) = invoke_message pb heap client env m (some callback) before in
        let f = fate client env m w in
        Reach pb heap s (ended s w.next_connection m.attributes.id f)
        × (after.rpc ≡ (ended s w.next_connection m.attributes.id f).state)
        × (threw result ≡ is_given_up f)
        × (invoke_message pb heap client env m none before
            ≡ (throw (empty_function_object "Callback function is empty"), before))
  unfolding invoke_message establish
  invoke_refines client env m callback s w new =
      let (state, thrown) = invoke_fate client env m callback s w in
      (
        ended_reached s w.next_connection m.attributes.id (fate client env m w) new
            (own_fate client env m w),
        state,
        thrown,
        refl,
      )
