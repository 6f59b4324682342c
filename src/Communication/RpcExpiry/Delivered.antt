-- ===== src/Communication/RpcExpiry/Delivered.antt =====
-- What a request and its callback are told when src/communication/RpcClient.cpp expires it.
use mathlib.Core.Path.{subst}
use up_cpp.Common.{
  ℕ, ◌≡◌, ◌≢◌, refl, sym, ◌∙◌, ap, append-nil, inl, inr, Bool, true, false, not, ◌&&◌, ◌||◌, Option,
  none, some, List, [], ◌∷◌, ◌++◌, arith, ◌==◌, Bool-cases, if◌then◌else◌, ==_refl,
}
use up_cpp.Proto.{UStatus}
use up_cpp.Utils.Expected.{unexpected}
use up_cpp.Communication.RpcExpiry.{
  MessageOrStatus, call_flagged, RpcRequest, RpcState, expire, call_once,
}

-- The request after it was told of its end, if it was.
abbrev pub ended : Bool → RpcRequest → RpcRequest
ended true r = record r { called = true }
ended false r = r

-- What the callback of a request is called with then.
abbrev pub told_of : Bool → UStatus → RpcRequest → List MessageOrStatus
told_of told reason r = if told && not r.called && r.connected then unexpected reason ∷ [] else []

-- What a request's callback was called with, in order.
abbrev pub answers : ℕ → List (ℕ × MessageOrStatus) → List MessageOrStatus
answers n [] = []
answers n ((m, answer) ∷ d) = let rest = answers n d in if m == n then answer ∷ rest else rest

answers-snoc :
    (n m : ℕ) (answer : MessageOrStatus) (d : List (ℕ × MessageOrStatus))
    → answers n (d ++ (m, answer) ∷ []) ≡ answers n d ++ (if m == n then answer ∷ [] else [])
answers-snoc n m answer [] = ground arith
answers-snoc n m answer ((k, a) ∷ d) = elim (Bool-cases (k == n)) [
  | inl e ↦ rw e (ap (λ c. a ∷ c) (answers-snoc n m answer d))
  | inr e ↦ rw e (answers-snoc n m answer d)
]

-- The request and its callback's calls between two states.
abbrev pub IsEnded : ℕ → Bool → UStatus → RpcRequest → RpcState → RpcState → Type 0
IsEnded n told reason r s t =
    (t.request n ≡ some (ended told r))
    × (answers n t.delivered ≡ answers n s.delivered ++ told_of told reason r)

flagged_told :
    (n : ℕ) (reason : UStatus) (s : RpcState) (r : RpcRequest)
    → s.request n ≡ some r
    → r.called ≡ false
    → answers n (call_flagged n (unexpected reason) s (s.request n)).delivered
      ≡ answers n s.delivered ++ told_of true reason r
flagged_told n reason s r found e = elim (Bool-cases r.connected) [
  | inl c ↦
      rw (found, e, c) (answers-snoc n n (unexpected reason) s.delivered ∙ rw (==_refl n) refl)
  | inr c ↦ rw (found, e, c) (sym (append-nil (answers n s.delivered)))
]

flagged_other :
    (n m : ℕ) (answer : MessageOrStatus) (s : RpcState) (o : Option RpcRequest)
    → m ≢ n
    → ((call_flagged n answer s o).request m ≡ s.request m)
      × (answers m (call_flagged n answer s o).delivered ≡ answers m s.delivered)
flagged_other n m answer s none other = (refl, refl)
flagged_other n m answer s (some q) other =
    let more = answers-snoc m n answer s.delivered in
    let none_new : answers m (s.delivered ++ (n, answer) ∷ []) ≡ answers m s.delivered =
      more ∙ ground (arith, other, append-nil (answers m s.delivered)) in
    (ground (arith, other), ground (arith, none_new))

expire-IsEnded :
    (n : ℕ) (reason : UStatus) (s : RpcState) (r : RpcRequest)
    → s.request n ≡ some r
    → IsEnded n true reason r s (expire n reason s)
unfolding expire call_once
expire-IsEnded n reason s r found = elim (Bool-cases r.called) [
  | inl e ↦
      rw (found, e)
        (
          found ∙ ap (λ b. some (record r { called = b })) e,
          sym (append-nil (answers n s.delivered)),
        )
  | inr e ↦ (ground (arith, found, e, ==_refl n), flagged_told n reason s r found e)
]

expire_other :
    (n m : ℕ) (reason : UStatus) (s : RpcState) (r : RpcRequest)
    → m ≢ n
    → s.request m ≡ some r
    → IsEnded m false reason r s (expire n reason s)
unfolding expire call_once
expire_other n m reason s r other found =
    let same = flagged_other n m (unexpected reason) s (s.request n) other in
    (same.0 ∙ found, same.1 ∙ sym (append-nil (answers m s.delivered)))

ended_again : (told : Bool) (r : RpcRequest) → ended told (ended true r) ≡ ended true r
ended_again true r = refl
ended_again false r = refl

nothing_more :
    (told : Bool) (reason : UStatus) (r : RpcRequest) → told_of told reason (ended true r) ≡ []
nothing_more true reason r = refl
nothing_more false reason r = refl

-- Two times after one another.
pub IsEnded-trans :
    (n : ℕ) (first second : Bool) (reason : UStatus) (r : RpcRequest) (s t u : RpcState)
    → IsEnded n first reason r s t
    → IsEnded n second reason (ended first r) t u
    → IsEnded n (first || second) reason r s u
IsEnded-trans n true second reason r s t u f g = (
  g.0 ∙ ap some (ended_again second r),
  g.1
      ∙ ap (λ c. answers n t.delivered ++ c) (nothing_more second reason r)
      ∙ append-nil (answers n t.delivered)
      ∙ f.1,
)
IsEnded-trans n false second reason r s t u f g =
    (g.0, g.1 ∙ ap (λ c. c ++ told_of second reason r) (f.1 ∙ append-nil (answers n s.delivered)))

-- An expiry of any request.
pub expire_any :
    (n m : ℕ) (reason : UStatus) (s : RpcState) (r : RpcRequest)
    → s.request m ≡ some r
    → IsEnded m (n == m) reason r s (expire n reason s)
expire_any n m reason s r found = elim (Bool-cases (n == m)) [
  | inl e ↦
      let same : n ≡ m = ground (arith, e) in
      rw e (
        subst (λ k. IsEnded m true reason r s (expire k reason s)) (sym same)
          (expire-IsEnded m reason s r found))
  | inr e ↦ rw e (expire_other n m reason s r (λ q. ground (arith, e, q)) found)
]
