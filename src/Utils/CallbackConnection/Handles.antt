-- ===== src/Utils/CallbackConnection/Handles.antt =====
-- The handles of include/up-cpp/utils/CallbackConnection.h: what establishes, severs and loses a
-- connection.
use mathlib.Core.Path.{subst}
use up_cpp.Common.{
  count, count-append, String, Bool-cases, ℕ, suc, ◌≡◌, ◌≢◌, ◌<◌, ◌⊎◌, refl, sym, ◌∙◌, ap, inl, inr,
  Bool, true, false, Option, none, some, [], ◌∷◌, ◌++◌, ◌==◌, arith, if◌then◌else◌, ==_refl, lt→ltb,
}
use up_cpp.Common.Outcome.{ok, throw}
use up_cpp.Exception.{empty_function_object}
use up_cpp.Utils.CallbackConnection.{
  Connection, Connections, CalleeHandle, CallerHandle, establish, is_connected, callee_is_connected,
  caller_is_connected, call, call_connection, callee_reset, callee_move_assign, set_connection,
  is_empty_function, optional_function, sever, clean, lock_live, locked_connected, reset_locked,
  drop_callback, release_callback,
}

set_connection_lem :
    (n : ℕ) (c : Connection) (s : Connections)
    → ((set_connection n c s).connection n ≡ c)
      × ((set_connection n c s).cleaned ≡ s.cleaned)
      × ((m : ℕ) → m ≢ n → (set_connection n c s).connection m ≡ s.connection m)
unfolding set_connection
set_connection_lem n c s = (rw (==_refl n) refl, refl, λ m other. ground (arith, other))

lock_live_lem :
    (n : ℕ) (s : Connections) → 0 < (s.connection n).owners → lock_live (some n) s ≡ some n
lock_live_lem n s shared = rw (lt→ltb 0 (s.connection n).owners shared) refl

-- A connection of which both ends are connected, and a call reaches the callback.
abbrev pub Joined : {R : Type 0} → (ℕ → R) → CalleeHandle → CallerHandle → ℕ → Connections → Type 0
Joined f h c cb s =
    (callee_is_connected h s ≡ true)
    × (caller_is_connected c s ≡ true)
    × (call f c s ≡ ok (some (f cb)))

-- establish() joins a callback to a caller if neither the callback nor a cleanup that is given is
-- an empty function: both ends are connected, and a call returns what the callback returns. It
-- throws otherwise, and then there is no connection.
pub establish_lem :
    {R : Type 0} (f : ℕ → R) (callback : Option ℕ) (cleanup : Option (Option ℕ)) (s : Connections)
    → ((cb : ℕ) × (callback ≡ some cb)
        × (is_empty_function cleanup ≡ false)
        × (h : CalleeHandle) × (c : CallerHandle) × (s' : Connections) × (establish callback cleanup
              s
            ≡ (ok (h, c), s'))
        × (h.cleanup ≡ optional_function cleanup)
        × Joined f h c cb s')
      ⊎ (((callback ≡ none) ⊎ (is_empty_function cleanup ≡ true))
          × ((text : String) × (establish callback cleanup s
                ≡ (throw (empty_function_object text), s))))
unfolding establish callee_is_connected caller_is_connected call is_connected call_connection
establish_lem f none cleanup s = inr (inl refl, ("Callback function is empty", refl))
establish_lem f (some cb) cleanup s = elim (Bool-cases (is_empty_function cleanup)) [
  | inl empty ↦ inr (inr empty, ("Cleanup function is empty", rw empty refl))
  | inr good ↦
      let c : Connection = record { sever_requested = false; callback = some cb; owners = 1 } in
      let found = (set_connection_lem s.next c s).0 in
      inl (
        cb,
        refl,
        good,
        record { connection = some s.next; callback = true; cleanup = optional_function cleanup },
        some s.next,
        record (set_connection s.next c s) { next = suc s.next },
        rw good refl,
        refl,
        (
          ap (λ o. locked_connected o (record (set_connection s.next c s) { next = suc s.next }))
                (lock_live_lem s.next (record (set_connection s.next c s) { next = suc s.next })
                  (subst (λ d. 0 < d.owners) (sym found) (omega arith)))
              ∙ ap is_connected found,
          ap is_connected found,
          ap (λ d. ok (call_connection f d)) found,
        ),
      )
]

-- The state of a connection n that reset() leaves.
abbrev after_reset : Option ℕ → ℕ → Connections → Connections
after_reset cleanup n s =
    clean cleanup n (sever n (set_connection n (record (s.connection n) { callback = none }) s))

reset_result :
    (h : CalleeHandle) (n : ℕ) (s : Connections)
    → h.connection ≡ some n
    → h.callback ≡ true
    → 0 < (s.connection n).owners
    → callee_reset h s ≡ (
      record { connection = some n; callback = false; cleanup = none },
      after_reset h.cleanup n s,
    )
unfolding callee_reset
reset_result h n s linked held shared =
    let dropped : Connection = record (s.connection n) { callback = none } in
    let s1 = set_connection n dropped s in
    let alive : 0 < (s1.connection n).owners =
      subst (λ c. 0 < c.owners) (sym (set_connection_lem n dropped s).0) shared in
    rw (linked, held)
      (ap
        (λ o.
          reset_locked o (record { connection = some n; callback = true; cleanup = h.cleanup }) s1)
        (lock_live_lem n s1 alive))

after_reset_lem :
    (cleanup : Option ℕ) (n : ℕ) (s : Connections)
    → ((after_reset cleanup n s).connection n
        ≡ record { sever_requested = true; callback = none; owners = (s.connection n).owners })
      × ((after_reset cleanup n s).cleaned ≡ (clean cleanup n s).cleaned)
after_reset_lem cleanup n s =
    let dropped : Connection = record (s.connection n) { callback = none } in
    let s1 = set_connection n dropped s in
    let (found, same, _) = set_connection_lem n dropped s in
    let (found', same', _) =
      set_connection_lem n (record (s1.connection n) { sever_requested = true }) s1 in
    cleaned_after cleanup (sever n s1) s (found' ∙ rw found refl) (same' ∙ same)
  where
    cleaned_after :
        (cleanup : Option ℕ) (s' s : Connections)
        → s'.connection n
          ≡ record { sever_requested = true; callback = none; owners = (s.connection n).owners }
        → s'.cleaned ≡ s.cleaned
        → ((clean cleanup n s').connection n
            ≡ record { sever_requested = true; callback = none; owners = (s.connection n).owners })
          × ((clean cleanup n s').cleaned ≡ (clean cleanup n s).cleaned)
    cleaned_after none s' s e f = (e, f)
    cleaned_after (some k) s' s e f = (e, ap (λ d. d ++ (k, n) ∷ []) f)

-- reset() of a handle that holds its callback, of a connection that some caller shares: the
-- connection is severed, so that neither end is connected and a call returns nothing; the cleanup
-- is called, once: a second reset calls it no more.
pub reset_severs :
    {R : Type 0} (f : ℕ → R) (h : CalleeHandle) (n : ℕ) (s : Connections)
    → h.connection ≡ some n
    → h.callback ≡ true
    → 0 < (s.connection n).owners
    → let (h', s') = callee_reset h s in
      (callee_is_connected h' s' ≡ false)
      × (caller_is_connected (some n) s' ≡ false)
      × (call f (some n) s' ≡ ok none)
      × (s'.cleaned ≡ (clean h.cleanup n s).cleaned)
      × ((callee_reset h' s').1.cleaned ≡ s'.cleaned)
unfolding callee_reset callee_is_connected caller_is_connected call is_connected call_connection
reset_severs f h n s linked held shared =
    let after = after_reset h.cleanup n s in
    let (gone, told) = after_reset_lem h.cleanup n s in
    let locked = lock_live_lem n after (subst (λ c. 0 < c.owners) (sym gone) shared) in
    rw (reset_result h n s linked held shared) (
      ap (λ o. locked_connected o after) locked ∙ ap is_connected gone,
      ap is_connected gone,
      ap (λ d. ok (call_connection f d)) gone,
      told,
      ap
            (λ o.
              (reset_locked o (record { connection = some n; callback = false; cleanup = none })
                after).1.cleaned)
            locked
          ∙ (set_connection_lem n (record (after.connection n) { sever_requested = true }) after).1,
    )

-- How often a cleanup was called with a connection.
abbrev pub cleaned_of : ℕ → Connections → ℕ
cleaned_of n s = count (λ e. e.1 == n) s.cleaned

cleaned_elsewhere :
    (cleanup : Option ℕ) (n m : ℕ) (s : Connections)
    → m ≢ n
    → cleaned_of n (clean cleanup m s) ≡ cleaned_of n s
cleaned_elsewhere none n m s apart = refl
cleaned_elsewhere (some k) n m s apart =
    ground (arith, count-append (λ e. e.1 == n) s.cleaned ((k, m) ∷ []), apart)

dropped_cleaned :
    (held : Bool) (o : Option ℕ) (s : Connections) → (drop_callback held o s).cleaned ≡ s.cleaned
dropped_cleaned true (some n) s =
    (set_connection_lem n (record (s.connection n) { callback = none }) s).1
dropped_cleaned true none s = refl
dropped_cleaned false (some n) s = refl
dropped_cleaned false none s = refl

locked_elsewhere :
    (n m : ℕ) (h : CalleeHandle) (alive : Bool) (s : Connections)
    → m ≢ n
    → cleaned_of n (reset_locked (if alive then some m else none) h s).1 ≡ cleaned_of n s
locked_elsewhere n m h false s apart = refl
locked_elsewhere n m h true s apart =
    cleaned_elsewhere h.cleanup n m (sever m s) apart
    ∙ ap (count (λ e. e.1 == n))
        (set_connection_lem m (record (s.connection m) { sever_requested = true }) s).1

-- reset() of a handle cleans no other connection.
reset_elsewhere :
    (h : CalleeHandle) (o : Option ℕ) (n : ℕ) (s : Connections)
    → h.connection ≡ o
    → ((m : ℕ) → o ≡ some m → m ≢ n)
    → cleaned_of n (callee_reset h s).1 ≡ cleaned_of n s
unfolding callee_reset
reset_elsewhere h none n s e apart =
    rw e (ap (count (λ e. e.1 == n)) (dropped_cleaned h.callback none s))
reset_elsewhere h (some m) n s e apart = rw e (
    locked_elsewhere n m (record h { connection = some m }) _ (drop_callback h.callback (some m) s)
      (apart m refl)
    ∙ ap (count (λ e. e.1 == n)) (dropped_cleaned h.callback (some m) s))

no_callback :
    (asked : Bool) (owners : ℕ)
    → is_connected (record { sever_requested = asked; callback = none; owners = owners }) ≡ false
unfolding is_connected
no_callback true owners = refl
no_callback false owners = refl

cleaned_here :
    (k n : ℕ) (s : Connections) → cleaned_of n (clean (some k) n s) ≡ suc (cleaned_of n s)
cleaned_here k n s = ground (arith, count-append (λ e. e.1 == n) s.cleaned ((k, n) ∷ []))

-- Move assignment onto a connected handle, from a handle of another connection, disconnects the old
-- connection, but neither asks it to sever nor calls its cleanup; nor does a reset, at once
-- afterwards, of the handle assigned to or of the one moved from. A reset of the old handle instead
-- calls that cleanup once.
pub move_assign_forgets_cleanup :
    (target other : CalleeHandle) (n m k : ℕ) (s : Connections)
    → target.connection ≡ some n
    → target.callback ≡ true
    → target.cleanup ≡ some k
    → 0 < (s.connection n).owners
    → other.connection ≡ some m
    → m ≢ n
    → let (assigned, moved_from, s') = callee_move_assign target other s in
      (caller_is_connected (some n) s' ≡ false)
      × ((s'.connection n).sever_requested ≡ (s.connection n).sever_requested)
      × (s'.cleaned ≡ s.cleaned)
      × (cleaned_of n (callee_reset assigned s').1 ≡ cleaned_of n s)
      × (cleaned_of n (callee_reset moved_from s').1 ≡ cleaned_of n s)
      × (cleaned_of n (callee_reset target s).1 ≡ suc (cleaned_of n s))
unfolding callee_move_assign caller_is_connected
move_assign_forgets_cleanup target other n m k s linked held cleans shared elsewhere apart =
    let dropped : Connection = record (s.connection n) { callback = none } in
    let s1 = set_connection n dropped s in
    let released : release_callback target s ≡ s1 = rw (linked, held) refl in
    let kept = (set_connection_lem n dropped s).1 in
    let still = ap (count (λ e. e.1 == n)) (ap (λ d. d.cleaned) released ∙ kept) in
    (
      ap (λ d. is_connected (d.connection n)) released
          ∙ ap is_connected (set_connection_lem n dropped s).0
          ∙ no_callback (s.connection n).sever_requested (s.connection n).owners,
      ap (λ d. (d.connection n).sever_requested) released
          ∙ ap (λ c. c.sever_requested) (set_connection_lem n dropped s).0,
      ap (λ d. d.cleaned) released ∙ kept,
      reset_elsewhere other (some m) n (release_callback target s) elsewhere
            (λ q e. λ same. apart (ground (arith, e, same)))
          ∙ still,
      reset_elsewhere (record other { connection = none; callback = false }) none n
            (release_callback target s) refl (λ q. cc)
          ∙ still,
      ap (λ r. cleaned_of n r.1) (reset_result target n s linked held shared)
          ∙ ap (count (λ e. e.1 == n)) (after_reset_lem target.cleanup n s).1
          ∙ ap (λ c. cleaned_of n (clean c n s)) cleans
          ∙ cleaned_here k n s,
    )
