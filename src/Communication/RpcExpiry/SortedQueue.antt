-- ===== src/Communication/RpcExpiry/SortedQueue.antt =====
-- Heap algorithms that keep the queue sorted, which shows that what is assumed of the standard
-- library's can hold.
use mathlib.Core.Path.{subst}
use up_cpp.Common.{
  ℕ, zero, suc, ◌+◌, ◌*◌, ◌≤◌, ◌≡◌, ◌⊎◌, refl, inl, inr, some, List, [], ◌∷◌, arith, leb, leb→le,
  Bool-cases, if◌then◌else◌, All,
}
use up_cpp.Communication.RpcExpiry.Heap.{PendingRequest, HeapAlgorithms, IsHeap, Same, get_elem?}

abbrev pub insert : PendingRequest → List PendingRequest → List PendingRequest
insert p [] = p ∷ []
insert p (q ∷ c) =
    let rest = insert p c in if leb p.when_expire q.when_expire then p ∷ q ∷ c else q ∷ rest

abbrev pub sort : List PendingRequest → List PendingRequest
sort [] = []
sort (p ∷ c) = insert p (sort c)

abbrev pub pop_sorted : List PendingRequest → List PendingRequest
pop_sorted [] = []
pop_sorted (p ∷ c) = sort c

insert-Same : (p : PendingRequest) (c : List PendingRequest) → Same (insert p c) (p ∷ c)
insert-Same p [] f = refl
insert-Same p (q ∷ c) f = ground (arith, insert-Same p c f)

pub sort-Same : (c : List PendingRequest) → Same (sort c) c
sort-Same [] f = refl
sort-Same (p ∷ c) f = ground (arith, insert-Same p (sort c) f, sort-Same c f)

abbrev AllFrom : ℕ → List PendingRequest → Type 0
AllFrom t c = All (λ p. t ≤ p.when_expire) c

abbrev IsSorted : List PendingRequest → Type 0
IsSorted [] = Unit
IsSorted (p ∷ c) = AllFrom p.when_expire c × IsSorted c

AllFrom-le : (s t : ℕ) (c : List PendingRequest) → s ≤ t → AllFrom t c → AllFrom s c
AllFrom-le s t [] le h = tt
AllFrom-le s t (p ∷ c) le h = (omega (arith, le, h.0), AllFrom-le s t c le h.1)

insert-AllFrom :
    (t : ℕ) (p : PendingRequest) (c : List PendingRequest)
    → t ≤ p.when_expire
    → AllFrom t c
    → AllFrom t (insert p c)
insert-AllFrom t p [] le h = (le, tt)
insert-AllFrom t p (q ∷ c) le h = elim (Bool-cases (leb p.when_expire q.when_expire)) [
  | inl e ↦ rw e (le, h)
  | inr e ↦ rw e (h.0, insert-AllFrom t p c le h.1)
]

insert-IsSorted :
    (p : PendingRequest) (c : List PendingRequest) → IsSorted c → IsSorted (insert p c)
insert-IsSorted p [] h = (tt, tt)
insert-IsSorted p (q ∷ c) h = elim (Bool-cases (leb p.when_expire q.when_expire)) [
  | inl e ↦ let le = leb→le p.when_expire q.when_expire e in rw e ((le, AllFrom-le _ _ c le h.0), h)
  | inr e ↦ rw e (insert-AllFrom q.when_expire p c (ground (arith, e)) h.0, insert-IsSorted p c h.1)
]

sort-IsSorted : (c : List PendingRequest) → IsSorted (sort c)
sort-IsSorted [] = tt
sort-IsSorted (p ∷ c) = insert-IsSorted p (sort c) (sort-IsSorted c)

get_from :
    (t : ℕ) (c : List PendingRequest) (j : ℕ) (q : PendingRequest)
    → AllFrom t c
    → get_elem? c j ≡ some q
    → t ≤ q.when_expire
get_from t [] j q h e = absurd (cc e)
get_from t (p ∷ c) zero q h e = ground (arith, e, h.0)
get_from t (p ∷ c) (suc j) q h e = get_from t c j q h.1 e

sorted_get :
    (c : List PendingRequest) (i j : ℕ) (p q : PendingRequest)
    → IsSorted c
    → suc i ≤ j
    → get_elem? c i ≡ some p
    → get_elem? c j ≡ some q
    → p.when_expire ≤ q.when_expire
sorted_get [] i j p q h le e f = absurd (cc e)
sorted_get (x ∷ c) i zero p q h le e f = absurd (omega (arith, le))
sorted_get (x ∷ c) zero (suc j) p q h le e f =
    let same : x ≡ p = ground (arith, e) in
    subst (λ y. y.when_expire ≤ q.when_expire) same (get_from x.when_expire c j q h.0 f)
sorted_get (x ∷ c) (suc i) (suc j) p q h le e f = sorted_get c i j p q h.1 (omega (arith, le)) e f

pub sort-IsHeap : (c : List PendingRequest) → IsHeap (sort c)
sort-IsHeap c i j p q e f child = sorted_get (sort c) i j p q (sort-IsSorted c) (after child) e f
  where
    after : (j ≡ 2 * i + 1) ⊎ (j ≡ 2 * i + 2) → suc i ≤ j
    after h = ground arith

abbrev pub sorted_queue : HeapAlgorithms
sorted_queue = record {
  push = λ c p. sort (p ∷ c);
  pop = pop_sorted;
  push-IsHeap = λ c p h. sort-IsHeap (p ∷ c);
  push-Same = λ c p h. sort-Same (p ∷ c);
  pop-IsHeap = λ p c h. sort-IsHeap c;
  pop-Same = λ p c h. sort-Same c;
}
