-- ===== src/Communication/RpcExpiry/Scrub.antt =====
-- ScrubablePendingQueue::scrub of src/communication/RpcClient.cpp and the order of its heap.
use up_cpp.Common.{ℕ, zero, suc, ◌≤◌, ◌<◌, ◌≡◌, ◌≢◌, false, none, some, [], ◌∷◌, arith}
use up_cpp.Communication.RpcExpiry.{pop_expired, wakes}
use up_cpp.Communication.RpcExpiry.Heap.{PendingRequest, HeapAlgorithms, IsHeap, keep}

three-IsHeap :
    (a b c : PendingRequest)
    → a.when_expire ≤ b.when_expire
    → a.when_expire ≤ c.when_expire
    → IsHeap (a ∷ b ∷ c ∷ [])
three-IsHeap a b c left right zero zero p q e f next = absurd (omega (arith, next))
three-IsHeap a b c left right zero (suc zero) p q e f next = ground (arith, e, f)
three-IsHeap a b c left right zero (suc (suc zero)) p q e f next = ground (arith, e, f)
three-IsHeap a b c left right i (suc (suc (suc j))) p q e f next = absurd (cc f)
three-IsHeap a b c left right (suc i) zero p q e f next = absurd (omega (arith, next))
three-IsHeap a b c left right (suc i) (suc zero) p q e f next = absurd (omega (arith, next))
three-IsHeap a b c left right (suc i) (suc (suc zero)) p q e f next = absurd (omega (arith, next))

kept :
    (i : ℕ) (a b c : PendingRequest)
    → a.instance_id ≡ i
    → b.instance_id ≢ i
    → c.instance_id ≢ i
    → keep i (a ∷ b ∷ c ∷ []) ≡ b ∷ c ∷ []
unfolding keep
kept i a b c mine b_other c_other = ground arith

module _ (heap : HeapAlgorithms) where
  -- Removing a discarded client's requests does not restore the heap. Where its request stood in
  -- front of a later and then an earlier one of other clients, the earlier one is not expired when
  -- it is due: the worker takes nothing off the queue, and sleeps until the later one is due.
  pub scrub_delays :
      (i now : ℕ) (a b c : PendingRequest)
      → a.instance_id ≡ i
      → b.instance_id ≢ i
      → c.instance_id ≢ i
      → a.when_expire ≤ c.when_expire
      → c.when_expire ≤ now
      → now < b.when_expire
      → IsHeap (a ∷ b ∷ c ∷ [])
        × (keep i (a ∷ b ∷ c ∷ []) ≡ b ∷ c ∷ [])
        × (pop_expired heap now (keep i (a ∷ b ∷ c ∷ [])) ≡ (none, b ∷ c ∷ []))
        × (wakes (some b.when_expire) now false (keep i (a ∷ b ∷ c ∷ [])) ≡ false)
  unfolding pop_expired wakes
  scrub_delays i now a b c mine b_other c_other first due late =
      let rest = kept i a b c mine b_other c_other in
      (three-IsHeap a b c (omega arith) first, rest, rw rest (ground arith), rw rest (ground arith))
