-- ===== src/Communication/RpcExpiry/Heap.antt =====
-- ScrubablePendingQueue of src/communication/RpcClient.cpp: a std::priority_queue by std::greater,
-- which keeps its vector a heap with the earliest expiry in front.
use up_cpp.Common.{
  true, count, ◌/◌, ◌&&◌, ℕ, suc, zero, ◌+◌, ◌*◌, ◌≤◌, ◌<◌, ◌≡◌, ◌⊎◌, refl, Bool, false, not,
  Option, none, some, List, [], ◌∷◌, arith, ◌==◌, if◌then◌else◌,
}

pub record PendingRequest : Type 0 where
  pub when_expire : ℕ
  pub response_listener : ℕ
  pub expire : ℕ
  pub instance_id : ℕ

module _ {A : Type 0} where
  -- The same elements, as often.
  abbrev pub Same : List A → List A → Type 0
  Same xs ys = (p : A → Bool) → count p xs ≡ count p ys

  abbrev pub get_elem? : List A → ℕ → Option A
  get_elem? [] i = none
  get_elem? (x ∷ xs) zero = some x
  get_elem? (x ∷ xs) (suc i) = get_elem? xs i

-- No element comes after its children in a binary heap.
abbrev pub IsHeap : List PendingRequest → Type 0
IsHeap c =
    (i j : ℕ) (p q : PendingRequest)
    → get_elem? c i ≡ some p
    → get_elem? c j ≡ some q
    → (j ≡ 2 * i + 1) ⊎ (j ≡ 2 * i + 2)
    → p.when_expire ≤ q.when_expire

-- std::push_heap behind a push_back, and std::pop_heap before a pop_back, as the standard has them:
-- of a heap they make a heap with one element more, and one with its front taken away.
pub record HeapAlgorithms : Type 0 where
  pub push : List PendingRequest → PendingRequest → List PendingRequest
  pub pop : List PendingRequest → List PendingRequest
  pub push-IsHeap : (c : List PendingRequest) (p : PendingRequest) → IsHeap c → IsHeap (push c p)
  pub push-Same :
      (c : List PendingRequest) (p : PendingRequest) → IsHeap c → Same (push c p) (p ∷ c)
  pub pop-IsHeap :
      (p : PendingRequest) (c : List PendingRequest) → IsHeap (p ∷ c) → IsHeap (pop (p ∷ c))
  pub pop-Same :
      (p : PendingRequest) (c : List PendingRequest) → IsHeap (p ∷ c) → Same (pop (p ∷ c)) c

-- `std::remove_if` and `erase`: what stays, and what is collected, in the container's order.
unfoldable pub keep : ℕ → List PendingRequest → List PendingRequest
keep instance_id [] = []
keep instance_id (p ∷ c) =
    let rest = keep instance_id c in if instance_id == p.instance_id then rest else p ∷ rest

unfoldable pub taken : ℕ → List PendingRequest → List PendingRequest
taken instance_id [] = []
taken instance_id (p ∷ c) =
    let rest = taken instance_id c in if instance_id == p.instance_id then p ∷ rest else rest

abbrev pub skip : {A : Type 0} → ℕ → List A → List A
skip zero c = c
skip (suc n) [] = []
skip (suc n) (x ∷ c) = skip n c

-- The removed requests that `erase` destroys. The move assignments of `std::remove_if` write what
-- stays over the front of the container, over the removed requests there too.
unfoldable pub erased : ℕ → List PendingRequest → List PendingRequest
unfolding keep taken
erased instance_id c = taken instance_id (skip (count (λ p. true) (keep instance_id c)) c)

module _ {A : Type 0} where
  get_below :
      (xs : List A) (i j : ℕ) (q : A)
      → get_elem? xs j ≡ some q
      → i ≤ j
      → (p : A) × (get_elem? xs i ≡ some p)
  get_below [] i j q e h = cc
  get_below (x ∷ xs) zero j q e h = (x, refl)
  get_below (x ∷ xs) (suc i) zero q e h = absurd (omega arith)
  get_below (x ∷ xs) (suc i) (suc j) q e h = get_below xs i j q e (omega arith)

  pub count_none :
      (f : A → Bool) (xs : List A)
      → ((j : ℕ) (q : A) → get_elem? xs j ≡ some q → f q ≡ false)
      → count f xs ≡ 0
  count_none f [] h = refl
  count_none f (x ∷ xs) h = rw (h 0 x refl) (count_none f xs (λ j. h (suc j)))

  -- Of the elements that pass one test, those that pass another.
  pub count_and_le : (f g : A → Bool) (xs : List A) → count (λ x. f x && g x) xs ≤ count g xs
  count_and_le f g [] = omega arith
  count_and_le f g (x ∷ xs) = ground (arith, count_and_le f g xs)

  pub count_and_not :
      (f g : A → Bool) (xs : List A)
      → count g xs ≡ 0
      → count (λ x. f x && not (g x)) xs ≡ count f xs
  count_and_not f g [] h = refl
  count_and_not f g (x ∷ xs) h = ground (arith, count_and_not f g xs)

front_le :
    (p : PendingRequest) (c : List PendingRequest) (fuel j : ℕ) (q : PendingRequest)
    → IsHeap (p ∷ c)
    → j < fuel
    → get_elem? (p ∷ c) j ≡ some q
    → p.when_expire ≤ q.when_expire
front_le p c zero j q heap h e = absurd (omega arith)
front_le p c (suc fuel) zero q heap h e = ground (arith, e)
front_le p c (suc fuel) (suc j) q heap h e =
    let i : ℕ = j / 2 in
    let (parent, found) = get_below (p ∷ c) i (suc j) q e (omega arith) in
    omega (
      arith,
      front_le p c fuel i parent heap (omega arith) found,
      heap i (suc j) parent q found e (halves j),
    )
  where
    halves : (j : ℕ) → (suc j ≡ 2 * (j / 2) + 1) ⊎ (suc j ≡ 2 * (j / 2) + 2)
    halves j = ground arith

-- The front of a heap expires first.
pub front_first :
    (p : PendingRequest) (c : List PendingRequest) (j : ℕ) (q : PendingRequest)
    → IsHeap (p ∷ c)
    → get_elem? (p ∷ c) j ≡ some q
    → p.when_expire ≤ q.when_expire
front_first p c j q heap e = front_le p c (suc j) j q heap (omega arith) e
