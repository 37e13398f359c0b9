-- ===== src/Controller/Requeue.antt =====
-- controller/src/constants.rs: when an object is reconciled again.
use bottlerocket_test_system.Base.{ℕ}

-- `Action` of kube-runtime: after some seconds, or only on a change
pub data RequeueAction : Type 0 where
  requeue_after : ℕ → RequeueAction
  await_change : RequeueAction

abbrev pub requeue : RequeueAction
requeue = requeue_after 5

abbrev pub requeue_slow : RequeueAction
requeue_slow = requeue_after 30

abbrev pub no_requeue : RequeueAction
no_requeue = await_change
