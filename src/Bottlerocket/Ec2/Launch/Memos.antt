-- ===== src/Bottlerocket/Ec2/Launch/Memos.antt =====
-- What the launch of EC2 instances keeps of the memo: all but its status.
use bottlerocket_test_system.Base.{ℕ, String, none, some, List, [], ◌∷◌}
use bottlerocket_test_system.Base.Exec.{Exec}
use bottlerocket_test_system.Base.Exec.Runs.{
  Yields, Ensures-after, Ensures-bind, Ensures-pure, Ensures-match_result,
}
use bottlerocket_test_system.Agents.ResourceAgent.ProviderError.{ProviderError}
use bottlerocket_test_system.Bottlerocket.AgentConfig.{Ec2Config}
use bottlerocket_test_system.Bottlerocket.Provider.{InfoClient}
use bottlerocket_test_system.Bottlerocket.Ec2.{ProductionMemo, Ec2Client, Cloud}
use bottlerocket_test_system.Bottlerocket.Ec2.Launch.{
  Launched, launch, or_else, launch_in, launch_types, run_instances,
}

-- a property of the memo that does not look at its status
module _ {W : Type 0} (c : Cloud W) (client : InfoClient W ProductionMemo)
    (P : ProductionMemo → Type 0)
    (same : (m : ProductionMemo) (text : String)
      → P m
      → P (record m { current_status = text })) where
  -- the memo of a loop
  Holds : Launched → Type 0
  Holds l = P l.1

  or_else-Holds :
      (l : Launched) (rest : ProductionMemo → Exec W ProviderError Launched)
      → Holds l
      → ((m : ProductionMemo) → P m → Yields Holds (rest m))
      → Yields Holds (or_else l rest)
  unfolding or_else Holds
  or_else-Holds (none, m) rest h p = p m h
  or_else-Holds (some o, m) rest h p = Ensures-pure _ λ w. h

  module _ (ec2_client : Ec2Client W) (config : Ec2Config) (uuid : String) (count rounds : ℕ) where
    launch-Holds :
        (type subnet : String) (m : ProductionMemo)
        → P m
        → Yields Holds (launch c ec2_client client config uuid count rounds type subnet m)
    unfolding launch Holds
    launch-Holds type subnet m h = Ensures-bind _ _ λ _. Ensures-bind _ _ λ u. Ensures-bind _ _ λ r.
        Ensures-match_result _ _ r (λ o. Ensures-bind _ _ λ _. Ensures-pure _ λ w. same m _ h)
          (λ e. Ensures-pure _ λ w. same m _ h)

    launch_in-Holds :
        (type : String) (subnets : List String) (m : ProductionMemo)
        → P m
        → Yields Holds (launch_in c ec2_client client config uuid count rounds type subnets m)
    unfolding launch_in Holds
    launch_in-Holds type [] m h = Ensures-pure _ λ w. h
    launch_in-Holds type (s ∷ ss) m h =
        Ensures-after _ _ Holds (launch-Holds type s m h)
          λ l e. or_else-Holds l _ e λ n f. launch_in-Holds type ss n f

    launch_types-Holds :
        (types : List String) (m : ProductionMemo)
        → P m
        → Yields Holds (launch_types c ec2_client client config uuid count rounds types m)
    unfolding launch_types Holds
    launch_types-Holds [] m h = Ensures-pure _ λ w. h
    launch_types-Holds (t ∷ ts) m h =
        Ensures-after _ _ Holds (launch_in-Holds t config.subnet_ids m h)
          λ l e. or_else-Holds l _ e λ n f. launch_types-Holds ts n f

  pub run_instances-Holds :
      (ec2_client : Ec2Client W) (config : Ec2Config) (uuid : String) (rounds : ℕ)
      (m : ProductionMemo)
      → P m
      → Yields (λ r. P r.1) (run_instances c ec2_client client config uuid rounds m)
  unfolding run_instances Holds
  run_instances-Holds ec2_client config uuid rounds m h = Ensures-bind _ _ λ types.
      Ensures-after _ _ Holds (launch_types-Holds ec2_client config uuid _ rounds types m h)
        λ l e. Ensures-bind _ _ λ o. Ensures-pure _ λ w. e
