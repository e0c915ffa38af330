-- ===== src/Queue/Claims/Signalling.antt =====
-- The slots for the signals of the backends keep the invariant.
use zephyrftp.Base.{
  ℕ, ◌≡◌, refl, false, ◌&&◌, ◌∷◌, Option, some, inl, inr, arith, if-elim, get_elem?, set,
}
use zephyrftp.Base.Text.{Text}
use zephyrftp.Queue.Item.{TransferItem, is_remote_to_remote, is_downloading}
use zephyrftp.Queue.State.{TransferManager, ActiveTransfer, item_updated}
use zephyrftp.Queue.Lookup.{release_active_transfer}
use zephyrftp.Queue.Dispatch.{is_none}
use zephyrftp.Queue.Signals.{
  progress_entry, on_backend_progress, staged_item, finished_item, finish_entry,
  on_backend_finished, failed_item, fail_entry, on_backend_failed, paused_item, pause_running,
  on_backend_paused,
}
use zephyrftp.Queue.Claims.Dispatching.{Safe}
use zephyrftp.Queue.Claims.Crash.{start_next-KeepsCrash, release-KeepsCrash}
use zephyrftp.Queue.Claims.Adding.{KeepsSafe}
use zephyrftp.Queue.Claims.Cancelling.{Safe-step, finish-KeepsSafe}
use zephyrftp.Queue.Claims.Pending.{dispatch-KeepsSafe}
use zephyrftp.Queue.Claims.Signalled.{
  with_executor-KeepsSafe, progress_entry-Safe, running_item, stage-Inv, finished_item-Sound,
  finished_item-direction, failed_item-Sound, failed_item-direction, paused_item-Sound,
  paused_item-direction,
}

pub on_backend_progress-KeepsSafe :
    (b done total : ℕ) (sample : Option ℕ) → KeepsSafe (on_backend_progress b done total sample)
unfolding on_backend_progress
on_backend_progress-KeepsSafe b done total sample =
    with_executor-KeepsSafe b (progress_entry done total sample)
      (λ k a item s h at x e. progress_entry-Safe done total sample k a item s h at e)

finish_entry-Safe :
    (k : ℕ) (a : ActiveTransfer) (item : TransferItem) (s : TransferManager)
    → Safe s
    → get_elem? s.active k ≡ some a
    → is_none a.current_executor ≡ false
    → get_elem? s.items a.item_index ≡ some item
    → Safe (finish_entry k a item s)
unfolding finish_entry
finish_entry-Safe k a item s h at x e =
    if-elim Safe (is_remote_to_remote item.direction && is_downloading item.phase) _ _
      (λ c.
        dispatch-KeepsSafe a.item_index
          (record s {
            items = set s.items a.item_index (staged_item item);
            log = item_updated (staged_item item) ∷ s.log;
          })
          (Safe-step s (record s { items = set s.items a.item_index (staged_item item) }) refl
            (λ v. stage-Inv s k a item v at x e (ground arith) (ground arith)) h))
      (λ c.
        finish-KeepsSafe k a.item_index item (finished_item item) a _ s h at refl e
          (finished_item-Sound s item) (finished_item-direction item))

pub on_backend_finished-KeepsSafe : (b : ℕ) → KeepsSafe (on_backend_finished b)
unfolding on_backend_finished
on_backend_finished-KeepsSafe b = with_executor-KeepsSafe b finish_entry finish_entry-Safe

pub on_backend_failed-KeepsSafe : (b : ℕ) (reason : Text) → KeepsSafe (on_backend_failed b reason)
unfolding on_backend_failed fail_entry
on_backend_failed-KeepsSafe b reason =
    with_executor-KeepsSafe b (fail_entry reason) (λ k a item s h at x e.
      finish-KeepsSafe k a.item_index item (failed_item a.cancelled reason item) a _ s h at refl e
        (failed_item-Sound s a.cancelled reason item)
        (failed_item-direction a.cancelled reason item))

pause_running-Safe :
    (done k : ℕ) (a : ActiveTransfer) (item : TransferItem) (s : TransferManager)
    → Safe s
    → get_elem? s.active k ≡ some a
    → is_none a.current_executor ≡ false
    → get_elem? s.items a.item_index ≡ some item
    → Safe (pause_running done k a item s)
unfolding pause_running
pause_running-Safe done k a item s (inl c) at x e = inl (
    start_next-KeepsCrash
      (release_active_transfer k (record s {
        items = set s.items a.item_index (paused_item done item);
        log = item_updated (paused_item done item) ∷ s.log;
      }))
      (release-KeepsCrash k
        (record s {
          items = set s.items a.item_index (paused_item done item);
          log = item_updated (paused_item done item) ∷ s.log;
        })
        c))
pause_running-Safe done k a item s (inr v) at x e =
    finish-KeepsSafe k a.item_index item (paused_item done item) a _ s (inr v) at refl e
      (paused_item-Sound s done item (running_item s k a item v at x e).1.unmoved)
      (paused_item-direction done item)

pub on_backend_paused-KeepsSafe : (b done : ℕ) → KeepsSafe (on_backend_paused b done)
unfolding on_backend_paused
on_backend_paused-KeepsSafe b done =
    with_executor-KeepsSafe b (pause_running done) (pause_running-Safe done)
