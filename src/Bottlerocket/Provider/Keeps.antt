-- ===== src/Bottlerocket/Provider/Keeps.antt =====
-- What the info client promises a provider, and what a provider that stores its memo last has stored.
use bottlerocket_test_system.Base.{String, ◌≡◌}
use bottlerocket_test_system.Base.Result.{ok, ok-injective, map_err-ok}
use bottlerocket_test_system.Base.Exec.{Exec, ◌>>◌, pure, context}
use bottlerocket_test_system.Base.Exec.Runs.{Ensures, chain-ok}
use bottlerocket_test_system.Agents.ResourceAgent.ProviderError.{Resources, ProviderError}
use bottlerocket_test_system.Bottlerocket.Provider.{InfoClient, tried}

-- What was sent is what is read next.
pub record Keeps {W Info : Type 0} (client : InfoClient W Info) : Type 0 where
  pub kept :
      (memo : Info) (w : W)
      → (client.send_info memo w).0 ≡ ok tt
      → (client.get_info (client.send_info memo w).1).0 ≡ ok memo

-- a call with a context succeeds as the call does
pub tried-ok :
    {W A : Type 0} (r : Resources) (text : String) (m : Exec W String A) (w : W) {a : A}
    → (tried r text m w).0 ≡ ok a
    → (m w).0 ≡ ok a
unfolding tried context
tried-ok r text m w h = map_err-ok _ (m w).0 h

module _ {W Info : Type 0} (client : InfoClient W Info) (k : Keeps client) where
  tried-kept :
      (r : Resources) (text : String) (memo : Info) (w : W)
      → (tried r text (client.send_info memo) w).0 ≡ ok tt
      → (client.get_info (tried r text (client.send_info memo) w).1).0 ≡ ok memo
  unfolding tried context
  tried-kept r text memo w h = k.kept memo w (map_err-ok _ (client.send_info memo w).0 h)

  pub Ensures-sent :
      {A : Type 0} {P : A → W → Type 0} (r : Resources) (text : String) (memo : Info) (a : A)
      → ((w : W) → (client.get_info w).0 ≡ ok memo → P a w)
      → Ensures P (tried r text (client.send_info memo) >> pure a)
  unfolding pure
  Ensures-sent {A} {P} r text memo a p = record {
    at = λ w b h.
        let s =
          chain-ok (tried r text (client.send_info memo)) (λ _. pure {E = ProviderError} a) w b h in
        let e = s.2 in
        let same = ok-injective s.3 in
        let done = p (tried r text (client.send_info memo) w).1 (tried-kept r text memo w s.1) in
        rw (e, ← same) done;
  }

-- The memo that the info client holds has a property.
pub record Stored {W Info : Type 0} (P : Info → Type 0) (client : InfoClient W Info) (w : W)
    : Type 0 where
  pub holds : (m : Info) → (client.get_info w).0 ≡ ok m → P m
