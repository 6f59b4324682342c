-- ===== src/Communication/RpcClient/Destroyed.antt =====
-- The destruction of an RpcClient of src/communication/RpcClient.cpp, for every request made so far.
use up_cpp.Common.{
  append-nil, map, ◌++◌, count, ℕ, ◌≡◌, refl, sym, ◌∙◌, Bool, true, false, ◌||◌, some, List, [],
  ◌∷◌, arith, ◌==◌,
}
use up_cpp.Proto.{UStatus, cancelled}
use up_cpp.Communication.RpcExpiry.{
  erase_requests, RpcRequest, RpcState, expire, expire_each, call_once, scrub, cancel_reason,
}
use up_cpp.Communication.RpcExpiry.Heap.{PendingRequest, keep, taken, skip, erased}
use up_cpp.Communication.RpcExpiry.Delivered.{
  ended, told_of, answers, IsEnded, IsEnded-trans, expire_any,
}
use up_cpp.Communication.RpcClient.{RpcClient, destroy_client}
use up_cpp.Communication.RpcClient.Closing.{expire_each-pending, destroy_client-NoneWait}

-- Whether a request is among those taken out.
abbrev pub is_among : ℕ → List PendingRequest → Bool
is_among n [] = false
is_among n (p ∷ ps) = p.expire == n || is_among n ps

expire_each-IsEnded :
    (ps : List PendingRequest) (n : ℕ) (reason : UStatus) (s : RpcState) (r : RpcRequest)
    → s.request n ≡ some r
    → IsEnded n (is_among n ps) reason r s (expire_each ps reason s)
unfolding expire_each
expire_each-IsEnded [] n reason s r found = (found, sym (append-nil (answers n s.delivered)))
expire_each-IsEnded (p ∷ ps) n reason s r found =
    let first = expire_any p.expire n reason s r found in
    IsEnded-trans n (p.expire == n) (is_among n ps) reason r s (expire p.expire reason s)
      (expire_each ps reason (expire p.expire reason s)) first
      (expire_each-IsEnded ps n reason (expire p.expire reason s) _ first.0)

expire_each-dropped :
    (ps : List PendingRequest) (reason : UStatus) (s : RpcState)
    → (expire_each ps reason s).dropped ≡ s.dropped
unfolding expire_each expire call_once
expire_each-dropped [] reason s = refl
expire_each-dropped (p ∷ ps) reason s =
    expire_each-dropped ps reason (expire p.expire reason s) ∙ ground (arith, s.request p.expire)

-- The destruction of a client takes all its requests out of the queue, and no other, and tells each
-- that it is cancelled: the request's flag is set, and its callback is called once, with the status
-- CANCELLED, if it was not called before and is connected. Every other request and its callback are
-- left alone. Of the listeners of the requests taken out, those in the queue at or past the place that
-- counts the requests which stay have their handle destroyed, and no others.
pub destroy_client_lem :
    (client : RpcClient) (s : RpcState) (n : ℕ) (r : RpcRequest)
    → s.request n ≡ some r
    → let after = destroy_client client s in
      let own = is_among n (taken client.instance_id s.pending) in
      (after.pending ≡ keep client.instance_id s.pending)
      × (taken client.instance_id after.pending ≡ [])
      × (after.request n ≡ some (ended own r))
      × (answers n after.delivered
          ≡ answers n s.delivered
            ++ told_of own
                (record { code = cancelled; message = "RpcClient for this request was discarded" })
                r)
      × (after.dropped
          ≡ s.dropped
            ++ map
                (λ p. p.response_listener)
                (taken client.instance_id
                  (skip (count (λ p. true) (keep client.instance_id s.pending)) s.pending)))
unfolding destroy_client scrub erased
destroy_client_lem client s n r found =
    let i = client.instance_id in
    let mine = taken i s.pending in
    let rest = expire_each-IsEnded mine n cancel_reason (erase_requests i s) r found in
    (
      expire_each-pending mine cancel_reason (erase_requests i s),
      destroy_client-NoneWait client s,
      rest.0,
      rest.1,
      expire_each-dropped mine cancel_reason (erase_requests i s),
    )
