-- ===== src/Communication/RpcExpiry/Steps.antt =====
-- The threads around src/communication/RpcClient.cpp, as steps between which any of them may go
-- on: callers of invokeMethod, the transport's calls of response listeners, the worker, clients
-- that are destroyed, and callers that drop their handles.
use up_cpp.Common.{
  ℕ, ◌≡◌, Bool, true, false, none, some, List, [], ◌∷◌, ◌++◌, map, ◌==◌, if◌then◌else◌,
}
use up_cpp.Proto.{Uuid, UMessage, UStatus, Protobuf}
use up_cpp.Communication.RpcExpiry.{
  RpcRequest, RpcState, begin_request, disconnect, expire, on_response, cancel_reason,
  expire_reason, enqueue, pop_expired, take_off, erase_requests,
}
use up_cpp.Communication.RpcExpiry.Heap.{PendingRequest, HeapAlgorithms, taken}

-- The shared state; the calls of invokeMethod that have made their request and neither queued it
-- nor failed, and those that left by an exception; and the `expire` functions that the worker or
-- `scrub` has taken out under the lock and not called yet.
pub record System : Type 0 where
  pub state : RpcState
  pub in_flight : ℕ → Bool
  pub thrown : ℕ → Bool
  pub owed : List (ℕ × UStatus)

abbrev pub mark : ℕ → Bool → (ℕ → Bool) → ℕ → Bool
mark n b f m = if m == n then b else f m

module _ (pb : Protobuf) (heap : HeapAlgorithms) where
  pub data Step : System → System → Type 0 where
    begin :
        (s : System) (n : ℕ) (reqid : Uuid)
        → s.state.request n ≡ none
        → Step s (record s {
          state = begin_request n reqid s.state;
          in_flight = mark n true s.in_flight;
        })
    fail :
        (s : System) (n : ℕ) (status : UStatus)
        → s.in_flight n ≡ true
        → Step s
            (record s { state = expire n status s.state; in_flight = mark n false s.in_flight })
    throw :
        (s : System) (n : ℕ)
        → s.in_flight n ≡ true
        → Step s (record s { in_flight = mark n false s.in_flight; thrown = mark n true s.thrown })
    queue :
        (s : System) (p : PendingRequest)
        → s.in_flight p.expire ≡ true
        → Step s (record s {
          state = enqueue heap p s.state;
          in_flight = mark p.expire false s.in_flight;
        })
    respond :
        (s : System) (n : ℕ) (m : UMessage)
        → Step s (record s { state = on_response pb n m s.state })
    take :
        (s : System) (now : ℕ) (p : PendingRequest) (c : List PendingRequest)
        → pop_expired heap now s.state.pending ≡ (some p, c)
        → Step s (record s {
          state = take_off p c s.state;
          owed = s.owed ++ (p.expire, expire_reason) ∷ [];
        })
    scrub :
        (s : System) (instance_id : ℕ)
        → Step s (record s {
          state = erase_requests instance_id s.state;
          owed = s.owed ++ map (λ p. (p.expire, cancel_reason)) (taken instance_id s.state.pending);
        })
    settle :
        (s : System) (before after : List (ℕ × UStatus)) (n : ℕ) (reason : UStatus)
        → s.owed ≡ before ++ (n, reason) ∷ after
        → Step s (record s { state = expire n reason s.state; owed = before ++ after })
    drop :
        (s : System) (n : ℕ) (r : RpcRequest)
        → s.state.request n ≡ some r
        → Step s (record s { state = disconnect n r s.state })

  pub data Reach (s : System) : System → Type 0 where
    here : Reach s s
    next : {t u : System} → Reach s t → Step t u → Reach s u

-- No request has been made.
abbrev pub initial : System
initial = record {
  state = record { request = λ n. none; pending = []; stop = false; delivered = []; dropped = [] };
  in_flight = λ n. false;
  thrown = λ n. false;
  owed = [];
}
