-- ===== src/Bottlerocket/Ec2/Launch/Order.antt =====
-- In which order instances are launched.
use bottlerocket_test_system.Base.{
  ℕ, String, none, some, List, [], ◌∷◌, ◌++◌, map, ◌≡◌, refl, arith, ◌∙◌, sym,
}
use bottlerocket_test_system.Base.Result.{ok, err, Result}
use bottlerocket_test_system.Base.Exec.{Exec, ◌>>=◌, pure}
use bottlerocket_test_system.Agents.ResourceAgent.ProviderError.{ProviderError}
use bottlerocket_test_system.Bottlerocket.AgentConfig.{Ec2Config}
use bottlerocket_test_system.Bottlerocket.Provider.{InfoClient}
use bottlerocket_test_system.Bottlerocket.Ec2.{ProductionMemo, Ec2Client, Cloud}
use bottlerocket_test_system.Bottlerocket.Ec2.Launch.{
  Launched, launch, or_else, launch_in, launch_types,
}

-- each type with each subnet, in the order in which they are tried
pub pairs : List String → List String → List (String × String)
pairs [] subnets = []
pairs (t ∷ ts) subnets = map (λ s. (t, s)) subnets ++ pairs ts subnets

module _ {W : Type 0} where
  -- What follows a call: the end after a success or an error, and else the rest.
  abbrev pub after_launch :
      Result ProviderError Launched × W
      → (ProductionMemo → Exec W ProviderError Launched)
      → Result ProviderError Launched × W
  after_launch (ok (some output, n), v) rest = (ok (some output, n), v)
  after_launch (ok (none, n), v) rest = rest n v
  after_launch (err e, v) rest = (err e, v)

  -- calls in turn, up to the first that succeeds or that fails with an error
  abbrev pub first_launch :
      {A : Type 0}
      → (A → ProductionMemo → Exec W ProviderError Launched)
      → List A
      → ProductionMemo
      → Exec W ProviderError Launched
  first_launch f [] m w = (ok (none, m), w)
  first_launch f (x ∷ xs) m w = after_launch (f x m w) (first_launch f xs)

  -- the same calls, chained as the loops chain them
  abbrev chain :
      {A : Type 0}
      → (A → ProductionMemo → Exec W ProviderError Launched)
      → List A
      → ProductionMemo
      → Exec W ProviderError Launched
  unfolding or_else
  chain f [] m = pure (none, m)
  chain f (x ∷ xs) m = f x m >>= λ l. or_else l (chain f xs)

  after_launch_same :
      (r : Result ProviderError Launched × W) (g h : ProductionMemo → Exec W ProviderError Launched)
      (m : Exec W ProviderError Launched) (w : W)
      → ((n : ProductionMemo) (v : W) → g n v ≡ h n v)
      → m w ≡ r
      → (m >>= λ l. or_else l g) w ≡ after_launch r h
  unfolding ◌>>=◌ or_else pure
  after_launch_same (ok (none, n), v) g h m w same e = ground (arith, e, same n v)
  after_launch_same (ok (some o, n), v) g h m w same e = ground (arith, e)
  after_launch_same (err x, v) g h m w same e = ground (arith, e)

  chain-first :
      {A : Type 0} (f : A → ProductionMemo → Exec W ProviderError Launched) (xs : List A)
      (m : ProductionMemo) (w : W)
      → chain f xs m w ≡ first_launch f xs m w
  unfolding pure chain
  chain-first f [] m w = refl
  chain-first f (x ∷ xs) m w =
      after_launch_same (f x m w) (chain f xs) (first_launch f xs) (f x m) w
        (λ n v. chain-first f xs n v) refl

  -- A chain goes on as another from the same answer, if the rests agree on it.
  go_on :
      (r : Result ProviderError Launched × W) (f g : Launched → Exec W ProviderError Launched)
      → ((l : Launched) (w : W) → f l w ≡ g l w)
      → (m : Exec W ProviderError Launched) (w : W) → m w ≡ r
      → (m >>= f) w ≡ (m >>= g) w
  unfolding ◌>>=◌
  go_on (ok l, v) f g same m w e = ground (arith, e, same l v)
  go_on (err x, v) f g same m w e = ground (arith, e)

  bind-same :
      (m n : Exec W ProviderError Launched) (f : Launched → Exec W ProviderError Launched) (w : W)
      → m w ≡ n w
      → (m >>= f) w ≡ (n >>= f) w
  unfolding ◌>>=◌
  bind-same m n f w e = ground (arith, e)

  or_else_same :
      (l : Launched) (g h : ProductionMemo → Exec W ProviderError Launched)
      → ((n : ProductionMemo) (w : W) → g n w ≡ h n w)
      → (w : W) → or_else l g w ≡ or_else l h w
  unfolding or_else
  or_else_same (none, n) g h same w = same n w
  or_else_same (some o, n) g h same w = refl

  -- the rest of one chain within another
  reassociate :
      (r : Result ProviderError Launched × W) (g h : ProductionMemo → Exec W ProviderError Launched)
      (m : Exec W ProviderError Launched) (w : W)
      → m w ≡ r
      → (m >>= λ l. or_else l λ n. g n >>= λ k. or_else k h) w
        ≡ ((m >>= λ l. or_else l g) >>= λ k. or_else k h) w
  unfolding ◌>>=◌ or_else pure
  reassociate (ok (none, n), v) g h m w e = ground (arith, e)
  reassociate (ok (some o, n), v) g h m w e = ground (arith, e)
  reassociate (err x, v) g h m w e = ground (arith, e)

  chain-append :
      {A : Type 0} (f : A → ProductionMemo → Exec W ProviderError Launched) (xs ys : List A)
      (m : ProductionMemo) (w : W)
      → chain f (xs ++ ys) m w ≡ (chain f xs m >>= λ l. or_else l (chain f ys)) w
  unfolding or_else pure ◌>>=◌
  chain-append f [] ys m w = refl
  chain-append f (x ∷ xs) ys m w =
      go_on (f x m w) (λ l. or_else l (chain f (xs ++ ys)))
        (λ l. or_else l λ n. chain f xs n >>= λ k. or_else k (chain f ys))
        (λ l v.
          or_else_same l (chain f (xs ++ ys)) (λ n. chain f xs n >>= λ k. or_else k (chain f ys))
            (λ n u. chain-append f xs ys n u) v)
        (f x m) w refl
      ∙ reassociate (f x m w) (chain f xs) (chain f ys) (f x m) w refl

module _ {W : Type 0} (c : Cloud W) (ec2_client : Ec2Client W)
    (client : InfoClient W ProductionMemo) (config : Ec2Config) (instance_uuid : String)
    (count rounds : ℕ) where
  launch_pair : String × String → ProductionMemo → Exec W ProviderError Launched
  launch_pair p m = launch c ec2_client client config instance_uuid count rounds p.0 p.1 m

  launch_in-chain :
      (t : String) (ss : List String) (m : ProductionMemo) (w : W)
      → launch_in c ec2_client client config instance_uuid count rounds t ss m w
        ≡ chain launch_pair (map (λ s. (t, s)) ss) m w
  unfolding launch_in launch_pair
  launch_in-chain t [] m w = refl
  launch_in-chain t (s ∷ ss) m w =
      go_on (launch_pair (t, s) m w) _ _
        (λ l v. or_else_same l _ _ (λ n u. launch_in-chain t ss n u) v) (launch_pair (t, s) m) w
        refl

  launch_types-chain :
      (ts : List String) (m : ProductionMemo) (w : W)
      → launch_types c ec2_client client config instance_uuid count rounds ts m w
        ≡ chain
            (λ p n. launch c ec2_client client config instance_uuid count rounds p.0 p.1 n)
            (pairs ts config.subnet_ids)
            m
            w
  unfolding launch_types pairs launch_pair
  launch_types-chain [] m w = refl
  launch_types-chain (t ∷ ts) m w =
      let rest = λ (n : ProductionMemo). chain launch_pair (pairs ts config.subnet_ids) n in
      let one =
        launch_in c ec2_client client config instance_uuid count rounds t config.subnet_ids m in
      let each = chain launch_pair (map (λ s. (t, s)) config.subnet_ids) m in
      go_on (one w) _ (λ l. or_else l rest)
        (λ l v. or_else_same l _ rest (λ n u. launch_types-chain ts n u) v) one w refl
      ∙ (bind-same one each (λ l. or_else l rest) w (launch_in-chain t config.subnet_ids m w)
          ∙ sym (chain-append launch_pair _ (pairs ts config.subnet_ids) m w))

  -- The loops over the types and the subnets are one loop over their pairs, which tries every subnet
  -- with a type before the next type: it ends with the first launch that succeeds or that fails with
  -- an error, and has changed the world and the memo by the launches up to there only.
  pub launch_types-first :
      (ts : List String) (m : ProductionMemo) (w : W)
      → launch_types c ec2_client client config instance_uuid count rounds ts m w
        ≡ first_launch
            (λ p n. launch c ec2_client client config instance_uuid count rounds p.0 p.1 n)
            (pairs ts config.subnet_ids)
            m
            w
  launch_types-first ts m w =
      launch_types-chain ts m w
      ∙ chain-first (λ p n. launch c ec2_client client config instance_uuid count rounds p.0 p.1 n)
          (pairs ts config.subnet_ids) m w
