-- ===== src/Communication/RpcExpiry.antt =====
-- The requests that wait for a response and the worker that expires them, of
-- src/communication/RpcClient.cpp. A request is known by a number, under which the state has its
-- std::once_flag, its callback's connection and the ID that the wrapped callback captures; the
-- `expire_` of a pending request is that number. Times are readings of the steady clock, in
-- nanoseconds. Callbacks return; Throwing has those that throw.
pub mod Heap
pub mod Delivered
pub mod Worker
pub mod Steps
pub mod Once
pub mod Answered
pub mod Severed
pub mod Scrub
pub mod Throwing
pub mod Waking
pub mod SortedQueue
pub mod Tests
use up_cpp.Common.{
  ℕ, suc, zero, ◌+◌, String, Bool, true, false, not, ◌||◌, Option, none, some, List, [], ◌∷◌, ◌++◌,
  map, leb, ◌==◌, if◌then◌else◌, value_or,
}
use up_cpp.Proto.{
  Uuid, UMessage, UStatus, UCode, ok_code, cancelled, deadline_exceeded, internal, Protobuf,
}
use up_cpp.Utils.Expected.{Expected, expected, unexpected}
use up_cpp.Validator.Message.{reqid_of}
use up_cpp.Transport.{ListenHandle, is_ok_code}
use Heap.{PendingRequest, HeapAlgorithms, keep, taken, erased}

abbrev pub MessageOrStatus : Type 0
MessageOrStatus = Expected UMessage UStatus

pub record RpcRequest : Type 0 where
  pub called : Bool
  pub connected : Bool
  pub reqid : Uuid

-- The requests made so far, the worker's queue, its `stop_`, what callbacks were called with, and
-- the response listeners whose handles were destroyed with a request that left the queue: each, if
-- the transport still holds it, has its cleanup called.
pub record RpcState : Type 0 where
  pub request : ℕ → Option RpcRequest
  pub pending : List PendingRequest
  pub stop : Bool
  pub delivered : List (ℕ × MessageOrStatus)
  pub dropped : List ℕ

abbrev pub update : ℕ → RpcRequest → (ℕ → Option RpcRequest) → ℕ → Option RpcRequest
update n r f m = if m == n then some r else f m

-- What invokeMethod sets up for a request before it is sent.
unfoldable pub begin_request : ℕ → Uuid → RpcState → RpcState
begin_request n reqid s = record s {
  request = update n (record { called = false; connected = true; reqid = reqid }) s.request;
}

-- The caller drops its handle, which severs the callback's connection.
unfoldable pub disconnect : ℕ → RpcRequest → RpcState → RpcState
disconnect n r s = record s { request = update n (record r { connected = false }) s.request }

-- `std::call_once` around the callable, which calls nothing once the connection is severed. The
-- flag is set when the callable has returned, and who comes meanwhile waits: it is one step here.
abbrev pub call_flagged : ℕ → MessageOrStatus → RpcState → Option RpcRequest → RpcState
call_flagged n answer s none = s
call_flagged n answer s (some r) = if r.called then s else record s {
  request = update n (record r { called = true }) s.request;
  delivered = if r.connected then s.delivered ++ (n, answer) ∷ [] else s.delivered;
}

unfoldable pub call_once : ℕ → MessageOrStatus → RpcState → RpcState
call_once n answer s = call_flagged n answer s (s.request n)

-- `expire`
unfoldable pub expire : ℕ → UStatus → RpcState → RpcState
unfolding call_once
expire n reason s = call_once n (unexpected reason) s

abbrev pub bad_response : UMessage → UStatus
bad_response m = record {
  code = value_or m.attributes.commstatus ok_code;
  message = "Received response with !OK commstatus";
}

abbrev pub filter_response : Protobuf → ℕ → UMessage → RpcState → Option RpcRequest → RpcState
filter_response pb n m s none = s
filter_response pb n m s (some r) =
    if pb.uuid_equals (reqid_of m.attributes) r.reqid
    then (if is_ok_code (value_or m.attributes.commstatus ok_code)
        then call_once n (expected m) s
        else call_once n (unexpected (bad_response m)) s)
    else s

-- `wrapper`, the listener of request `n`.
unfoldable pub on_response : Protobuf → ℕ → UMessage → RpcState → RpcState
unfolding call_once
on_response pb n m s = filter_response pb n m s (s.request n)

abbrev pub cancel_reason : UStatus
cancel_reason = record { code = cancelled; message = "RpcClient for this request was discarded" }

abbrev pub expire_reason : UStatus
expire_reason = record {
  code = deadline_exceeded;
  message = "Request expired before response received";
}

abbrev pub shutdown_reason : UStatus
shutdown_reason = record {
  code = internal;
  message =
      "ERROR: ExpireWorker has shut down while requests are still pending. This should never occur and likely indicates that an RpcClient instance has been leaked somewhere.";
}

-- `for (auto& expire : all_expired) { expire(reason); }`
unfoldable pub expire_each : List PendingRequest → UStatus → RpcState → RpcState
unfolding expire
expire_each [] reason s = s
expire_each (p ∷ ps) reason s = expire_each ps reason (expire p.expire reason s)

-- The container's `erase` with `remove_if`.
abbrev pub erase_requests : ℕ → RpcState → RpcState
erase_requests instance_id s = record s {
  pending = keep instance_id s.pending;
  dropped = s.dropped ++ map (λ p. p.response_listener) (erased instance_id s.pending);
}

-- ExpireWorker::scrub
unfoldable pub scrub : ℕ → RpcState → RpcState
unfolding expire_each
scrub instance_id s =
    expire_each (taken instance_id s.pending) cancel_reason (erase_requests instance_id s)

-- The destructor of the queue, and of its requests.
unfoldable pub destroy_queue : RpcState → RpcState
unfolding expire_each
destroy_queue s =
    let ended = expire_each s.pending shutdown_reason s in
    record ended {
      pending = [];
      dropped = ended.dropped ++ map (λ p. p.response_listener) s.pending;
    }

-- Whether the worker, asleep until `wake_when` or until it is woken, goes on.
unfoldable pub wakes : Option ℕ → ℕ → Bool → List PendingRequest → Bool
wakes none now stop [] = stop
wakes none now stop (p ∷ ps) = true
wakes (some wake_when) now stop [] = true
wakes (some wake_when) now stop (p ∷ ps) =
    stop || not (p.when_expire == wake_when) || leb p.when_expire now

-- What the worker waits for: the expiry of the top, if there is one.
abbrev pub wake_time : List PendingRequest → Option ℕ
wake_time [] = none
wake_time (p ∷ ps) = some p.when_expire

-- A request off the queue: its listener's handle is destroyed at the end of the block.
abbrev pub take_off : PendingRequest → List PendingRequest → RpcState → RpcState
take_off p pending s = record s {
  pending = pending;
  dropped = s.dropped ++ p.response_listener ∷ [];
}

module _ (heap : HeapAlgorithms) where
  -- ExpireWorker::enqueue
  unfoldable pub enqueue : PendingRequest → RpcState → RpcState
  enqueue p s = record s { pending = heap.push s.pending p }

  -- The worker's first critical section: the request taken off the queue, if the top has expired,
  -- and the queue.
  unfoldable pub pop_expired : ℕ → List PendingRequest → Option PendingRequest × List PendingRequest
  pop_expired now [] = (none, [])
  pop_expired now (top ∷ rest) =
      if leb top.when_expire now then (some top, heap.pop (top ∷ rest)) else (none, top ∷ rest)

  -- The rest of a round: an expired request is expired, and the loop goes on; else the worker waits.
  abbrev pub after_pop :
      (RpcState → RpcState)
      → RpcState
      → Bool
      → Option PendingRequest × List PendingRequest
      → RpcState
  after_pop again s true popped = s
  after_pop again s false (none, pending) = s
  after_pop again s false (some p, pending) =
      again (expire p.expire expire_reason (take_off p pending s))

  -- The rounds of doWork by the clock's reading in each, until it waits or is stopped.
  unfoldable pub do_work : List ℕ → RpcState → RpcState
  unfolding pop_expired expire
  do_work [] s = s
  do_work (now ∷ later) s = after_pop (λ t. do_work later t) s s.stop (pop_expired now s.pending)
