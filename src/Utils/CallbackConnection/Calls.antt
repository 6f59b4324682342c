-- ===== src/Utils/CallbackConnection/Calls.antt =====
-- The threads of one connection of include/up-cpp/utils/CallbackConnection.h: callers in
-- Connection::operator() and the callee in CalleeHandle::reset, as steps between which any of them
-- may go on. A caller that copies the weak pointer while the callee holds the mutex waits for it in
-- the source; it may go on here.
use up_cpp.Common.{ℕ, ◌+◌, ◌≡◌, Bool, true, false, not, ◌&&◌, List, [], ◌∷◌, ◌++◌, all_of}

-- Where a call of operator() is: behind the check of `sever_requested_`, in the callback, or behind
-- it with the callback's pointer released.
pub data Phase : Type 0 where
  entered running returned : Phase

-- Where the callee is: before reset(), behind `callback_.reset()`, in sever() before it looks
-- whether the callback has expired, behind a look that found it alive, asleep, and done.
pub data Stage : Type 0 where
  connected released requested found_alive asleep severed : Stage

-- `held` is whether the callee's shared pointer to the callback lives; `started` counts the calls
-- of the callback.
pub record Link : Type 0 where
  pub sever_requested : Bool
  pub held : Bool
  pub calls : List Phase
  pub stage : Stage
  pub started : ℕ

abbrev pub is_idle : Phase → Bool
is_idle running = false
is_idle _ = true

-- `callback_.expired()`
unfoldable pub expired : Link → Bool
expired l = not l.held && all_of is_idle l.calls

-- `sever_cv_.notify_one()`: a sleeper looks again.
abbrev pub woken : Stage → Stage
woken asleep = requested
woken stage = stage

pub data Step : Link → Link → Type 0 where
  enter : (l : Link) → l.sever_requested ≡ false → Step l (record l { calls = entered ∷ l.calls })
  -- `callback.lock()`
  lock :
      (l : Link) (before after : List Phase)
      → l.calls ≡ before ++ entered ∷ after
      → expired l ≡ false
      → Step l (record l { calls = before ++ running ∷ after; started = l.started + 1 })
  lock_fails :
      (l : Link) (before after : List Phase)
      → l.calls ≡ before ++ entered ∷ after
      → expired l ≡ true
      → Step l (record l { calls = before ++ returned ∷ after })
  finish :
      (l : Link) (before after : List Phase)
      → l.calls ≡ before ++ running ∷ after
      → Step l (record l { calls = before ++ returned ∷ after })
  -- The callback throws: the call's pointer is released on the way out, and nothing is notified.
  raise :
      (l : Link) (before after : List Phase)
      → l.calls ≡ before ++ running ∷ after
      → Step l (record l { calls = before ++ after })
  -- `if (callback.expired()) sever_cv_.notify_one();`
  notify :
      (l : Link) (before after : List Phase)
      → l.calls ≡ before ++ returned ∷ after
      → expired l ≡ true
      → Step l (record l { calls = before ++ after; stage = woken l.stage })
  leave :
      (l : Link) (before after : List Phase)
      → l.calls ≡ before ++ returned ∷ after
      → expired l ≡ false
      → Step l (record l { calls = before ++ after })
  release : (l : Link) → l.stage ≡ connected → Step l (record l { held = false; stage = released })
  request :
      (l : Link)
      → l.stage ≡ released
      → Step l (record l { sever_requested = true; stage = requested })
  sever :
      (l : Link) → l.stage ≡ requested → expired l ≡ true → Step l (record l { stage = severed })
  look :
      (l : Link)
      → l.stage ≡ requested
      → expired l ≡ false
      → Step l (record l { stage = found_alive })
  sleep : (l : Link) → l.stage ≡ found_alive → Step l (record l { stage = asleep })

pub data Reach (l : Link) : Link → Type 0 where
  here : Reach l l
  next : {k m : Link} → Reach l k → Step k m → Reach l m

-- After establish().
abbrev pub established : Link
established = record {
  sever_requested = false;
  held = true;
  calls = [];
  stage = connected;
  started = 0;
}
