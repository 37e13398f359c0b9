-- ===== src/Bottlerocket/Ec2/Create/Cleared.antt =====
-- EC2 instances that do not run in time.
use bottlerocket_test_system.Base.{
  ℕ, zero, suc, String, none, some, List, [], ◌∷◌, ◌≡◌, ◌∙◌, refl, sym, ap, arith,
}
use bottlerocket_test_system.Base.Result.{ok, err, ok-injective}
use bottlerocket_test_system.Base.Exec.Runs.{Yields, Ensures-bind, Ensures-pure, chain-ok}
use bottlerocket_test_system.Base.Exec.{◌>>=◌, pure, attempt, context}
use bottlerocket_test_system.Agents.ResourceAgent.ProviderError.{
  unknown, clear, new_with_source_and_context,
}
use bottlerocket_test_system.Bottlerocket.AgentConfig.{Ec2Config}
use bottlerocket_test_system.Bottlerocket.Provider.{Spec, InfoClient, tried, needed, in_time}
use bottlerocket_test_system.Bottlerocket.Provider.Keeps.{tried-ok}
use bottlerocket_test_system.Agents.Utils.Aws.{SdkConfig}
use bottlerocket_test_system.Bottlerocket.Ec2.Launch.{RunInstancesOutput, run_instances}
use bottlerocket_test_system.Bottlerocket.Ec2.Launch.Memos.{run_instances-Holds}
use bottlerocket_test_system.Bottlerocket.Ec2.{
  ProductionMemo, Ec2Client, Cloud, Instance, resources_situation,
}
use bottlerocket_test_system.Bottlerocket.Ec2.Instances.{
  running, non_conforming_instances, wait_for_conforming_instances,
}
use bottlerocket_test_system.Bottlerocket.Ec2.Create.{
  Limits, status, prepare, checked_ids, finish, create,
}

module _ {W : Type 0} (c : Cloud W) (client : InfoClient W ProductionMemo)
    (ec2_client : Ec2Client W) (ids : List String) (memo : ProductionMemo) where
  -- Each request of the states shows an instance that does not run.
  pub record IsPending : Type 0 where
    pub shown :
        (w : W)
        → (i : String) × (is : List String) × ((non_conforming_instances ec2_client ids running
              (status memo "Waiting for instance(s)")
              w).0
            ≡ ok (i ∷ is))

  -- The info client stores the message about the wait.
  pub record IsStoring : Type 0 where
    pub stored : (w : W) → (client.send_info (status memo "Waiting for instance(s)") w).0 ≡ ok tt

  wait-none :
      (rounds : ℕ) (w : W)
      → IsPending
      → (wait_for_conforming_instances ec2_client c.sleep ids running
          (status memo "Waiting for instance(s)")
          rounds
          w).0
        ≡ ok none
  unfolding wait_for_conforming_instances ◌>>=◌ attempt pure
  wait-none zero w p = refl
  wait-none (suc rounds) w p =
      let m = status memo "Waiting for instance(s)" in
      let s = p.shown w in
      ground (
        arith,
        s.2,
        wait-none rounds (c.sleep 1_000 (non_conforming_instances ec2_client ids running m w).1) p,
      )

  -- the rest of a creation, with a memo that holds no ids
  finish-clear :
      (limits : Limits) (spec : Spec Ec2Config) (w : W)
      → memo.instance_ids ≡ []
      → IsStoring
      → IsPending
      → (finish c client limits spec ec2_client ids memo w).0
        ≡ err (
            new_with_source_and_context clear
              "Timed-out waiting for instances to reach the `running` state." "Elapsed")
  unfolding finish tried in_time context resources_situation ◌>>=◌
  finish-clear limits spec w e s p =
      let told = client.send_info (status memo "Waiting for instance(s)") w in
      ground (arith, e, s.stored w, wait-none limits.running told.1 p)

module _ {W : Type 0} (c : Cloud W) (client : InfoClient W ProductionMemo) (limits : Limits)
    (spec : Spec Ec2Config) where
  HasIds : List String → ProductionMemo → Type 0
  HasIds ids m = m.instance_ids ≡ ids

  -- the ids of the memo that was read at the start
  prepare-ids :
      (w : W) (stored : ProductionMemo) (p : ProductionMemo × (String × SdkConfig))
      → (client.get_info w).0 ≡ ok stored
      → (prepare c client limits spec w).0 ≡ ok p
      → HasIds stored.instance_ids p.0
  unfolding prepare HasIds
  prepare-ids w stored p g h =
      let s =
        chain-ok (tried unknown "Unable to get info from info client" client.get_info) _ w p h in
      let read = ok-injective (sym (tried-ok _ _ client.get_info w s.1) ∙ g) in
      let v = (tried unknown "Unable to get info from info client" client.get_info w).1 in
      let rest : Yields (λ q. q.0.instance_ids ≡ ProductionMemo.instance_ids (s.0)) _ =
        Ensures-bind _ _ λ u. Ensures-bind _ _ λ _. Ensures-bind _ _ λ _.
          Ensures-bind _ _
            λ _. Ensures-bind _ _ λ config. Ensures-bind _ _ λ _. Ensures-pure _ λ w. refl in
      rest.at v p s.3 ∙ ap (λ m. ProductionMemo.instance_ids m) read

  -- A creation that has launched instances: what each of its steps up to there has answered.
  pub record HasLaunched (w : W) : Type 0 where
    pub prepared : ProductionMemo × (String × SdkConfig)
    pub launched : RunInstancesOutput × ProductionMemo
    pub instances : List Instance
    pub ids : List String
    pub prepares : (prepare c client limits spec w).0 ≡ ok prepared
    pub launches :
        (run_instances c
          (c.ec2 prepared.1.1)
          client
          spec.configuration
          prepared.1.0
          limits.launch
          prepared.0
          (prepare c client limits spec w).1).0
        ≡ ok launched
    pub has_instances : launched.0 ≡ some instances
    pub has_ids : checked_ids [] instances ≡ ok ids

  -- Let the info client hold a memo without ids when a creation starts, and let the creation launch
  -- instances, of which each has an id. If the info client takes the message about the wait, and each
  -- request of the states shows an instance that does not run, then the creation ends with an error
  -- that says that no resources were left.
  pub create-clear :
      (w : W) (stored : ProductionMemo) (l : HasLaunched w)
      → (client.get_info w).0 ≡ ok stored
      → stored.instance_ids ≡ []
      → IsStoring c client (c.ec2 l.prepared.1.1) l.ids l.launched.1
      → IsPending c client (c.ec2 l.prepared.1.1) l.ids l.launched.1
      → (create c client limits spec w).0
        ≡ err (
            new_with_source_and_context clear
              "Timed-out waiting for instances to reach the `running` state." "Elapsed")
  unfolding create needed ◌>>=◌ pure HasIds
  create-clear w stored l g e s p =
      let v = (prepare c client limits spec w).1 in
      let run =
        run_instances c (c.ec2 l.prepared.1.1) client spec.configuration l.prepared.1.0
          limits.launch l.prepared.0 in
      let first : l.prepared.0.instance_ids ≡ [] =
        prepare-ids w stored l.prepared g l.prepares ∙ e in
      let memo : HasIds [] l.launched.1 =
        (run_instances-Holds c client (HasIds []) (λ m text h. h) (c.ec2 l.prepared.1.1)
            spec.configuration l.prepared.1.0 limits.launch l.prepared.0 first).at
          v l.launched l.launches in
      let last =
        finish-clear c client (c.ec2 l.prepared.1.1) l.ids l.launched.1 limits spec (run v).1 memo s
          p in
      ground (arith, l.prepares, l.launches, l.has_instances, l.has_ids, last)
