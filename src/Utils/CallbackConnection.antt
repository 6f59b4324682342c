-- ===== src/Utils/CallbackConnection.antt =====
-- include/up-cpp/utils/CallbackConnection.h: the handles of connections while no call is in
-- progress. A std::function is a number, or nothing if it is empty; a connection is the number of
-- its `establish`, under which the store has it. A pointer is never null where make_shared returns.
pub mod Calls
pub mod Silence
pub mod LostWakeup
pub mod Handles
pub mod Tests
use up_cpp.Common.{
  ℕ, suc, ◌+◌, ◌-◌, String, Bool, true, false, not, ◌&&◌, Option, none, some, List, [], ◌∷◌, ◌++◌,
  ◌==◌, ltb, if◌then◌else◌, has_value,
}
use up_cpp.Common.Outcome.{Outcome, ok, throw}
use up_cpp.Exception.{Result, empty_function_object}

-- `callback_` is the function while the callee's pointer to it lives; `owners` counts the caller
-- handles that share the connection.
pub record Connection : Type 0 where
  pub sever_requested : Bool
  pub callback : Option ℕ
  pub owners : ℕ

pub record CalleeHandle : Type 0 where
  pub connection : Option ℕ
  pub callback : Bool
  pub cleanup : Option ℕ

abbrev pub CallerHandle : Type 0
CallerHandle = Option ℕ

pub data BadCallerAccess : Type 0 where
  bad_caller_access : String → BadCallerAccess

-- The connections, the number of the next one, and which cleanup was called with which connection.
pub record Connections : Type 0 where
  pub connection : ℕ → Connection
  pub next : ℕ
  pub cleaned : List (ℕ × ℕ)

unfoldable pub set_connection : ℕ → Connection → Connections → Connections
set_connection n c s = record s { connection = λ m. if m == n then c else s.connection m }

-- The handle's check of its arguments.
abbrev pub is_empty_function : Option (Option ℕ) → Bool
is_empty_function none = false
is_empty_function (some f) = not (has_value f)

abbrev pub optional_function : Option (Option ℕ) → Option ℕ
optional_function none = none
optional_function (some f) = f

-- `cb`, and the optional `cleanup`.
unfoldable pub establish :
    Option ℕ → Option (Option ℕ) → Connections → Result (CalleeHandle × CallerHandle) × Connections
establish none cleanup s = (throw (empty_function_object "Callback function is empty"), s)
establish (some cb) cleanup s =
    if is_empty_function cleanup
    then (throw (empty_function_object "Cleanup function is empty"), s)
    else (
      ok (
        record { connection = some s.next; callback = true; cleanup = optional_function cleanup },
        some s.next,
      ),
      record (set_connection s.next
          (record { sever_requested = false; callback = some cb; owners = 1 }) s) {
            next = suc s.next;
          },
    )

-- Connection::isConnected
unfoldable pub is_connected : Connection → Bool
is_connected c = not c.sever_requested && has_value c.callback

-- `connection_.lock()`: the connection lives as long as a caller handle shares it.
abbrev pub lock_live : Option ℕ → Connections → Option ℕ
lock_live none s = none
lock_live (some n) s = if ltb 0 (s.connection n).owners then some n else none

-- CalleeHandle::isConnected
abbrev pub locked_connected : Option ℕ → Connections → Bool
locked_connected none s = false
locked_connected (some n) s = is_connected (s.connection n)

unfoldable pub callee_is_connected : CalleeHandle → Connections → Bool
unfolding is_connected
callee_is_connected h s = locked_connected (lock_live h.connection s) s

-- CallerHandle::isConnected
unfoldable pub caller_is_connected : CallerHandle → Connections → Bool
unfolding is_connected
caller_is_connected h s = locked_connected h s

-- What a callback that lives returns.
abbrev pub call_live : {R : Type 0} → (ℕ → R) → Option ℕ → Option R
call_live f none = none
call_live f (some cb) = some (f cb)

-- Connection::operator()
unfoldable pub call_connection : {R : Type 0} → (ℕ → R) → Connection → Option R
call_connection f c = if not c.sever_requested then call_live f c.callback else none

-- CallerHandle::operator(), where `f` is what a callback returns for the arguments.
unfoldable pub call :
    {R : Type 0} → (ℕ → R) → CallerHandle → Connections → Outcome BadCallerAccess (Option R)
unfolding call_connection
call f none s = throw (bad_caller_access "Cannot call a CallerHandle that is in the reset state")
call f (some n) s = ok (call_connection f (s.connection n))

-- CallerHandle::reset and the destruction of a caller handle.
abbrev pub disown : ℕ → Connections → Connections
disown n s = set_connection n (record (s.connection n) { owners = (s.connection n).owners - 1 }) s

unfoldable pub caller_reset : CallerHandle → Connections → CallerHandle × Connections
caller_reset none s = (none, s)
caller_reset (some n) s = (none, disown n s)

-- A copy of a caller handle.
unfoldable pub caller_copy : CallerHandle → Connections → CallerHandle × Connections
caller_copy none s = (none, s)
caller_copy (some n) s =
    (some n, set_connection n (record (s.connection n) { owners = suc (s.connection n).owners }) s)

-- `connection_ == other.connection_`
unfoldable pub caller_equals : CallerHandle → CallerHandle → Bool
caller_equals none none = true
caller_equals (some m) (some n) = m == n
caller_equals _ _ = false

-- `callback_.reset()`, of the handle's only pointer to the callback.
abbrev pub drop_callback : Bool → Option ℕ → Connections → Connections
drop_callback true (some n) s = set_connection n (record (s.connection n) { callback = none }) s
drop_callback _ _ s = s

abbrev pub release_callback : CalleeHandle → Connections → Connections
release_callback h s = drop_callback h.callback h.connection s

-- Connection::sever, with no call to wait for.
abbrev pub sever : ℕ → Connections → Connections
sever n s = set_connection n (record (s.connection n) { sever_requested = true }) s

-- `(*cleanup_)({locked_connection, ...}); cleanup_.reset();`
abbrev pub clean : Option ℕ → ℕ → Connections → Connections
clean none n s = s
clean (some cleanup) n s = record s { cleaned = s.cleaned ++ (cleanup, n) ∷ [] }

abbrev pub reset_locked : Option ℕ → CalleeHandle → Connections → CalleeHandle × Connections
reset_locked none h s = (record h { callback = false }, s)
reset_locked (some n) h s =
    (record h { callback = false; cleanup = none }, clean h.cleanup n (sever n s))

-- CalleeHandle::reset, and the destructor.
unfoldable pub callee_reset : CalleeHandle → Connections → CalleeHandle × Connections
callee_reset h s =
    let released = release_callback h s in reset_locked (lock_live h.connection released) h released

-- The defaulted move constructor: the new handle, and the one that was moved from, whose optional
-- `cleanup_` stays engaged.
unfoldable pub callee_move : CalleeHandle → CalleeHandle × CalleeHandle
callee_move h = (h, record h { connection = none; callback = false })

-- The defaulted move assignment: the handle assigned to, the one that was moved from, and the store.
unfoldable pub callee_move_assign :
    CalleeHandle → CalleeHandle → Connections → CalleeHandle × CalleeHandle × Connections
callee_move_assign target other s =
    (other, record other { connection = none; callback = false }, release_callback target s)
