-- ===== src/Utils/CallbackConnection/LostWakeup.antt =====
-- The condition variable of include/up-cpp/utils/CallbackConnection.h, which operator() notifies
-- without holding the mutex that sever() waits with.
use up_cpp.Common.{◌≡◌, refl, sym, ap, ◌∙◌, true, false, List, [], ◌∷◌, ◌++◌, arith}
use up_cpp.Utils.CallbackConnection.Calls.{
  entered, running, returned, requested, found_alive, asleep, Link, expired, woken, severed, Step,
  enter, lock, lock_fails, finish, raise, notify, leave, release, request, sever, look, sleep,
  Reach, here, next,
}

not_split :
    {A : Type 0} (before after : List A) (x : A) → ◌≡◌ {A = List A} [] (before ++ x ∷ after) → ⊥
not_split [] after x e = cc e
not_split (y ∷ before) after x e = cc e

-- A sleeper with no calls left does nothing.
asleep_stuck :
    (l m : Link) → l.stage ≡ asleep → l.sever_requested ≡ true → l.calls ≡ [] → ¬ Step l m
asleep_stuck l m s asked none_left (enter _ open_) = cc (asked, open_)
asleep_stuck l m s asked none_left (lock _ before after e alive) =
    not_split before after entered (sym none_left ∙ e)
asleep_stuck l m s asked none_left (lock_fails _ before after e dead) =
    not_split before after entered (sym none_left ∙ e)
asleep_stuck l m s asked none_left (finish _ before after e) =
    not_split before after running (sym none_left ∙ e)
asleep_stuck l m s asked none_left (raise _ before after e) =
    not_split before after running (sym none_left ∙ e)
asleep_stuck l m s asked none_left (notify _ before after e dead) =
    not_split before after returned (sym none_left ∙ e)
asleep_stuck l m s asked none_left (leave _ before after e alive) =
    not_split before after returned (sym none_left ∙ e)
asleep_stuck l m s asked none_left (release _ e) = cc (s, e)
asleep_stuck l m s asked none_left (request _ e) = cc (s, e)
asleep_stuck l m s asked none_left (sever _ e dead) = cc (s, e)
asleep_stuck l m s asked none_left (look _ e alive) = cc (s, e)
asleep_stuck l m s asked none_left (sleep _ e) = cc (s, e)

-- If sever() looks while one last call is in the callback, and that call ends before sever() goes
-- to sleep, the notification is lost: the callback has expired and no thread has a step left, but
-- sever() sleeps, unless it wakes spuriously.
pub wakeup_lost :
    (l : Link)
    → l.stage ≡ requested
    → l.sever_requested ≡ true
    → l.held ≡ false
    → l.calls ≡ running ∷ []
    → (m : Link) × Reach l m × (m.stage ≡ asleep) × (expired m ≡ true) × ((k : Link) → ¬ Step m k)
unfolding expired
wakeup_lost l s asked unheld last =
    let looked : Link = record l { stage = found_alive } in
    let ended : Link = record looked { calls = returned ∷ [] } in
    let told : Link = record ended { calls = []; stage = woken ended.stage } in
    let slept : Link = record told { stage = asleep } in
    (
      slept,
      next
          (next
            (next (next here (look l s (rw last (ground (arith, unheld)))))
              (finish looked [] [] last))
            (notify ended [] [] refl (rw unheld refl)))
          (sleep told refl),
      refl,
      rw unheld refl,
      λ k. asleep_stuck slept k refl asked refl,
    )

-- If the last call of the callback throws while sever() sleeps, nothing wakes it: the callback has
-- expired and no thread has a step left, but sever() sleeps, unless it wakes spuriously. If that
-- call returns instead, sever() is woken and can end.
pub exception_strands :
    (l : Link)
    → l.stage ≡ asleep
    → l.sever_requested ≡ true
    → l.held ≡ false
    → l.calls ≡ running ∷ []
    → ((m : Link) × Step l m × (m.stage ≡ asleep) × (expired m ≡ true) × ((k : Link) → ¬ Step m k))
      × ((m : Link) × Reach l m × (m.stage ≡ severed) × (expired m ≡ true))
unfolding expired
exception_strands l s asked unheld last =
    let thrown : Link = record l { calls = [] } in
    let ended : Link = record l { calls = returned ∷ [] } in
    let told : Link = record ended { calls = []; stage = woken ended.stage } in
    let dead : expired told ≡ true = rw unheld refl in
    (
      (thrown, raise l [] [] last, s, rw unheld refl, λ k. asleep_stuck thrown k s asked refl),
      (
        record told { stage = severed },
        next (next (next here (finish l [] [] last)) (notify ended [] [] refl (rw unheld refl)))
            (sever told (ap woken s) dead),
        refl,
        dead,
      ),
    )
