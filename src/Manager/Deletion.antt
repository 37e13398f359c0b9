-- ===== src/Manager/Deletion.antt =====
-- model/src/test_manager/delete.rs: the deletion of objects in the order of their dependencies. The
-- sort is the crate `topological_sort`, whose operations are parameters.
pub mod Polls
pub mod Waves
use bottlerocket_test_system.Base.{
  ℕ, zero, suc, String, Bool, true, false, Option, none, some, List, [], ◌∷◌, ◌++◌, is_empty,
  is_some, unwrap_or, if◌then◌else◌,
}
use Prim.Native.String.{◌++◌ as concat}
use bottlerocket_test_system.Base.Result.{Result, ok, err, map_err}
use bottlerocket_test_system.Base.Exec.{Exec, ◌>>=◌, ◌>>◌, pure, read}
use bottlerocket_test_system.Model.Agent.{TaskState}
use bottlerocket_test_system.Model.Crd.{Crd, CrdName, crd_name, crd_name_eq}
use bottlerocket_test_system.Model.Meta.{name_any}
use bottlerocket_test_system.Model.Resource.{Resource, destruction_task_state}
use bottlerocket_test_system.Model.Test.{Test}
use bottlerocket_test_system.Clients.Error.{ClientError, client_error_status}
use bottlerocket_test_system.Clients.HttpStatusCode.{allow_not_found}
use bottlerocket_test_system.Clients.CrdClient.{get, get_all, delete}
use bottlerocket_test_system.Manager.Dependencies.{needs}
use bottlerocket_test_system.Manager.{TestManager, Error, client, sender}

pub data DeleteEvent : Type 0 where
  starting deleted failed : CrdName → DeleteEvent

-- `TopologicalSort<CrdName>`
pub record TopologicalSort (T : Type 0) : Type 0 where
  pub new : T
  pub insert : CrdName → T → T
  pub add_dependency : CrdName → CrdName → T → T
  pub is_empty : T → Bool
  pub pop_all : T → List CrdName × T

-- `contains` of a list of names
has_name : List CrdName → CrdName → Bool
has_name [] n = false
has_name (x ∷ xs) n = if crd_name_eq x n then true else has_name xs n

-- `Into<CrdName>` of each object
unfoldable pub names_of : List Crd → List CrdName
unfolding crd_name
names_of [] = []
names_of (c ∷ cs) = crd_name c ∷ names_of cs

module _ {T : Type 0} (s : TopologicalSort T) where
  -- dependencies of one object, those that are wanted
  link : List CrdName → CrdName → List String → T → T
  unfolding has_name
  link wanted n [] order = order
  link wanted n (d ∷ ds) order = link wanted n ds (
      if has_name wanted (CrdName.resource d)
      then s.add_dependency n (CrdName.resource d) order
      else order)

  link_all : List CrdName → List Crd → T → T
  unfolding link crd_name
  link_all wanted [] order = order
  link_all wanted (c ∷ cs) order =
      link_all wanted cs (link wanted (crd_name c) (needs c) (s.insert (crd_name c) order))

  unfoldable pub vec_to_deletion_order : List Crd → T
  unfolding link_all names_of
  vec_to_deletion_order objects = link_all (names_of objects) objects s.new

  -- dependencies of one object, all of them
  link_every : CrdName → List String → T → T
  link_every n [] order = order
  link_every n (d ∷ ds) order = link_every n ds (s.add_dependency n (CrdName.resource d) order)

  link_resources : List Resource → T → T
  unfolding link_every
  link_resources [] order = order
  link_resources (r ∷ rs) order =
      let n = CrdName.resource (name_any r.metadata) in
      link_resources rs (link_every n (unwrap_or [] r.spec.depends_on) (s.insert n order))

  link_tests : List Test → T → T
  unfolding link_every
  link_tests [] order = order
  link_tests (t ∷ ts) order =
      let n = CrdName.test (name_any t.metadata) in
      link_tests ts (
        if is_empty t.spec.resources then s.insert n order else link_every n t.spec.resources order)

  unfoldable pub all_objects_deletion_order : {W : Type 0} → TestManager W → W → Result Error T
  unfolding link_resources link_tests
  all_objects_deletion_order m w = elim (get_all m.resource_client w) [
    | err e ↦ err (client "get all resources" e)
    | ok rs ↦ elim (get_all m.test_client w) [
      | err e ↦ err (client "get all tests" e)
      | ok ts ↦ ok (link_tests ts (link_resources rs s.new))
    ]
  ]

-- what a poll finds of an object whose deletion was asked for
pub data Poll : Type 0 where
  present gone broken : Poll

abbrev quoted : String → String → String
quoted before n = concat before (concat "'" (concat n "'"))

-- a resource whose destruction ended with an error
abbrev pub errored : Resource → Bool
errored r = elim (destruction_task_state r) [ TaskState.error ↦ true | _ ↦ false ]

-- The world with the events that were sent so far.
pub record Channel (W : Type 0) : Type 0 where
  pub world : W
  pub events : List DeleteEvent

-- the variables of the loop
pub record Progress (T : Type 0) : Type 0 where
  pub awaiting : List CrdName
  pub order : T

module _ {W : Type 0} (m : TestManager W) where
  -- `tx.send`, which fails when nobody listens
  pub send : DeleteEvent → Exec (Channel W) Error (Unit {0})
  send e c =
      if m.listening c.world
      then (ok tt, record { world = c.world; events = c.events ++ e ∷ [] })
      else (err (sender "send failed because receiver is gone"), c)

  pub poll : CrdName → W → Result Error Poll
  poll (CrdName.test n) w = elim (allow_not_found (get m.test_client n w)) [
    | err e ↦ err (client (quoted "get " n) e)
    | ok none ↦ ok gone
    | ok (some t) ↦ ok present
  ]
  poll (CrdName.resource n) w = elim (allow_not_found (get m.resource_client n w)) [
    | err e ↦ err (client (quoted "get " n) e)
    | ok none ↦ ok gone
    | ok (some r) ↦ ok (if errored r then broken else present)
  ]

  -- what is sent, and which objects stay awaited, after a poll
  unfoldable pub report : CrdName → Poll → Exec (Channel W) Error (List CrdName)
  unfolding send
  report n present = pure (n ∷ [])
  report n gone = do send (deleted n); pure []
  report n broken = do send (failed n); pure []

  -- The polls of one round, which answer the objects that are still awaited.
  pub poll_all : List CrdName → Exec (Channel W) Error (List CrdName)
  unfolding poll report
  poll_all [] = pure []
  poll_all (n ∷ ns) = do
    p ← read (λ c. poll n c.world)
    kept ← report n p
    rest ← poll_all ns
    pure (kept ++ rest)

  -- `delete(..).allow_not_found(..)`
  unfoldable pub remove : CrdName → Exec (Channel W) Error (Unit {0})
  remove (CrdName.test n) c =
      let r = delete m.test_client n c.world in
      let c' : Channel W = record c { world = r.1 } in
      elim (allow_not_found r.0) [
        | err e ↦ (err (client (quoted "delete " n) e), c')
        | ok o ↦ (ok tt, c')
      ]
  remove (CrdName.resource n) c =
      let r = delete m.resource_client n c.world in
      let c' : Channel W = record c { world = r.1 } in
      elim (allow_not_found r.0) [
        | err e ↦ (err (client (quoted "delete " n) e), c')
        | ok o ↦ (ok tt, c')
      ]

  -- The deletions of one wave; an error ends them.
  pub remove_all : List CrdName → Exec (Channel W) Error (Unit {0})
  unfolding remove send
  remove_all [] = pure tt
  remove_all (n ∷ ns) = do send (starting n); remove n; remove_all ns

  -- time in milliseconds
  pub pass : ℕ → Exec (Channel W) Error (Unit {0})
  pass time c = (ok tt, record c { world = m.sleep time c.world })

  module _ {T : Type 0} (s : TopologicalSort T) where
    -- the next wave, or the end
    pub next_wave : T → Exec (Channel W) Error (Option (Progress T))
    unfolding remove_all
    next_wave order = if s.is_empty order then pure none else do
      let wave = s.pop_all order
      remove_all wave.0
      pure (some (record { awaiting = wave.0; order = wave.1 }))

    pub after_polls : T → List CrdName → Exec (Channel W) Error (Option (Progress T))
    unfolding next_wave
    after_polls order still =
        if is_empty still
        then next_wave order
        else pure (some (record { awaiting = still; order = order }))

    -- One round of the loop without its sleep; `none` is its end.
    unfoldable pub round : Progress T → Exec (Channel W) Error (Option (Progress T))
    unfolding poll_all after_polls
    round p = do still ← poll_all p.awaiting; after_polls p.order still

    -- `none`: the rounds were not enough.
    unfoldable pub rounds : ℕ → Progress T → Exec (Channel W) Error (Option (Unit {0}))
    unfolding round pass
    rounds zero p = pure none
    rounds (suc fuel) p = do
      next ← round p
      elim next [ none ↦ pure (some tt) | some q ↦ do pass 10_000; rounds fuel q ]

    unfoldable pub async_deletion : ℕ → T → Exec (Channel W) Error (Option (Unit {0}))
    unfolding rounds
    async_deletion fuel order = rounds fuel (record { awaiting = []; order = order })
