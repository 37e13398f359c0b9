-- ===== src/Manager/Objects/Restarted.antt =====
-- What a restart of a test does.
use bottlerocket_test_system.Base.{
  ℕ, String, true, Option, none, some, ◌≡◌, ◌≢◌, ◌∙◌, inl, inr, Option-cases, refl, sym, ap, arith,
}
use bottlerocket_test_system.Base.Result.{ok, map_err, map_err-ok}
use bottlerocket_test_system.Base.Exec.{pure, read, context}
use bottlerocket_test_system.Base.Exec.Runs.{chain-ok}
use bottlerocket_test_system.Model.Test.{Test}
use bottlerocket_test_system.Clients.CrdClient.{get, create, delete}
use bottlerocket_test_system.Clients.Waiting.{is_gone, wait_for_deletion}
use bottlerocket_test_system.Clients.Waiting.Returns.{wait_for_deletion-is_gone}
use bottlerocket_test_system.Manager.{TestManager, client}
use bottlerocket_test_system.Manager.Objects.{fresh, wait_for_test, create_again, restart_test}

-- In the end the test that was found was deleted, a read found it gone, and only then it was created
-- again.
pub record Restarted {W : Type 0} (m : TestManager W) (name : String) (first last : W)
    : Type 0 where
  pub test : Test
  pub between : W
  pub deleted : Option Test
  pub again : Test
  pub created : Test
  pub found : get m.test_client name first ≡ ok test
  pub asked : (delete m.test_client name first).0 ≡ ok deleted
  pub gone : is_gone (m.test_client.api.get name between) ≡ true
  pub same_spec : again.spec ≡ test.spec
  pub no_status : again.status ≡ none
  pub same_metadata : again.metadata ≡ record (test.metadata) { resource_version = none }
  pub taken : (create m.test_client again between).0 ≡ ok created
  pub ends : (create m.test_client again between).1 ≡ last

module _ {W : Type 0} (m : TestManager W) (name : String) where
  waited :
      (rounds : ℕ) (w : W) (o : Option (Unit {0}))
      → (wait_for_test m rounds name w).0 ≡ ok o
      → o ≢ none
      → is_gone (m.test_client.api.get name (wait_for_test m rounds name w).1) ≡ true
  unfolding wait_for_test
  waited rounds w o h ne =
      elim (Option-cases (wait_for_deletion m.test_client m.sleep rounds name w)) [
        | inl e ↦ absurd (ne (ground arith))
        | inr (last, e) ↦
            rw (e, wait_for_test)
              (wait_for_deletion-is_gone m.test_client m.sleep name rounds w last e)
      ]

  again :
      (t : Test) (o : Option (Unit {0})) (w : W)
      → (create_again m t o w).0 ≡ ok (some tt)
      → (o ≢ none)
        × (created : Test) × ((create m.test_client (fresh t) w).0 ≡ ok created)
        × ((create_again m t o w).1 ≡ (create m.test_client (fresh t) w).1)
  unfolding create_again pure context
  again t none w h = absurd (ground arith)
  again t (some u) w h =
      let s =
        chain-ok (context (client "create new test") (create m.test_client (fresh t))) _ w _ h in
      (λ e. absurd (cc), s.0, map_err-ok _ _ s.1, ap (λ x. x.1) s.2)

  -- A restart that succeeds, with enough rounds to wait, has found the test, asked for its deletion,
  -- then seen it gone, and then created it again: with the same specification and metadata, but without
  -- a status and a resource version. The creation is its last call.
  pub restart_test-Restarted :
      (rounds : ℕ) (w : W)
      → (restart_test m rounds name w).0 ≡ ok (some tt)
      → Restarted m name w (restart_test m rounds name w).1
  unfolding restart_test read context
  restart_test-Restarted rounds w h =
      let s =
        chain-ok (read (λ w. map_err (client "get test") (get m.test_client name w))) _ w (some tt)
          h in
      let d =
        chain-ok (context (client "delete test") (delete m.test_client name)) _ w (some tt) s.3 in
      let after = (delete m.test_client name w).1 in
      let g = chain-ok (wait_for_test m rounds name) _ after (some tt) d.3 in
      let n = again s.0 g.0 (wait_for_test m rounds name after).1 g.3 in
      record {
        test = s.0;
        again = fresh s.0;
        between = (wait_for_test m rounds name after).1;
        deleted = d.0;
        created = n.1;
        found = map_err-ok _ _ s.1;
        asked = map_err-ok _ _ d.1;
        gone = waited rounds after g.0 g.1 n.0;
        same_spec = refl;
        no_status = refl;
        same_metadata = refl;
        taken = n.2;
        ends = sym n.3 ∙ sym (ap (λ x. x.1) (s.2 ∙ d.2 ∙ g.2));
      }
