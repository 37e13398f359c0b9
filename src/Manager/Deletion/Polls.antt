-- ===== src/Manager/Deletion/Polls.antt =====
-- What one round of a deletion reads and tells of the objects that are awaited.
use bottlerocket_test_system.Base.{
  All, ◌⊎◌, inl, inr, List, [], ◌∷◌, ◌++◌, ◌≡◌, ◌∙◌, sym, ap, arith,
}
use mathlib.Core.Path.{subst}
use mathlib.Core.List.{append_assoc, append-nil}
use bottlerocket_test_system.Base.Result.{Result, ok, err, Result-cases}
use bottlerocket_test_system.Base.Exec.{◌>>=◌, pure, read}
use bottlerocket_test_system.Base.Exec.Runs.{chain-ok}
use bottlerocket_test_system.Model.Agent.{TaskState}
use bottlerocket_test_system.Model.Resource.{Resource, destruction_task_state}
use bottlerocket_test_system.Kube.{KubeError}
use bottlerocket_test_system.Clients.CrdClient.{get}
use bottlerocket_test_system.Clients.HttpStatusCode.{allow_not_found, is_status_code}
use bottlerocket_test_system.Model.Crd.{CrdName}
use bottlerocket_test_system.Manager.{TestManager}
use bottlerocket_test_system.Manager.Deletion.{
  DeleteEvent, deleted, failed, Poll, present, gone, broken, Channel, send, poll, report, poll_all,
}

-- An object that is there is awaited on, unless it is a resource whose destruction failed.
abbrev pub kept_resource : CrdName → TaskState → List CrdName
kept_resource n TaskState.error = []
kept_resource n _ = n ∷ []

abbrev pub kept_test : {A : Type 0} → CrdName → Result KubeError A → List CrdName
kept_test n (ok t) = n ∷ []
kept_test n (err e) = []

abbrev pub kept_found : CrdName → Result KubeError Resource → List CrdName
kept_found n (ok r) = kept_resource n (destruction_task_state r)
kept_found n (err e) = []

-- What is told of an object that is awaited no longer: that it failed, if it is there, and else that it
-- was deleted.
abbrev pub told_resource : CrdName → TaskState → List DeleteEvent
told_resource n TaskState.error = failed n ∷ []
told_resource n _ = []

abbrev pub told_test : {A : Type 0} → CrdName → Result KubeError A → List DeleteEvent
told_test n (ok t) = []
told_test n (err e) = deleted n ∷ []

abbrev pub told_found : CrdName → Result KubeError Resource → List DeleteEvent
told_found n (ok r) = told_resource n (destruction_task_state r)
told_found n (err e) = deleted n ∷ []

abbrev pub Answers : {A : Type 0} → Result KubeError A → Type 0
Answers {A} r = ((a : A) × (r ≡ ok a)) ⊎ (r ≡ err (KubeError.api 404))

module _ {W : Type 0} (m : TestManager W) where
  abbrev pub kept_by : W → CrdName → List CrdName
  kept_by w (CrdName.test n) = kept_test (CrdName.test n) (m.test_client.api.get n w)
  kept_by w (CrdName.resource n) = kept_found (CrdName.resource n) (m.resource_client.api.get n w)

  abbrev pub told_by : W → CrdName → List DeleteEvent
  told_by w (CrdName.test n) = told_test (CrdName.test n) (m.test_client.api.get n w)
  told_by w (CrdName.resource n) = told_found (CrdName.resource n) (m.resource_client.api.get n w)

  abbrev pub still : W → List CrdName → List CrdName
  still w [] = []
  still w (n ∷ ns) = kept_by w n ++ still w ns

  abbrev pub news : W → List CrdName → List DeleteEvent
  news w [] = []
  news w (n ∷ ns) = told_by w n ++ news w ns

  -- The server has the object, or says that it has not.
  abbrev pub IsAnswered : W → CrdName → Type 0
  IsAnswered w (CrdName.test n) = Answers (m.test_client.api.get n w)
  IsAnswered w (CrdName.resource n) = Answers (m.resource_client.api.get n w)

  -- the world after the server was asked to delete objects, one after the other
  abbrev pub deletes : List CrdName → W → W
  deletes [] w = w
  deletes (CrdName.test n ∷ ns) w = deletes ns (m.test_client.api.delete n w).1
  deletes (CrdName.resource n ∷ ns) w = deletes ns (m.resource_client.api.delete n w).1

  pub send_lem :
      (e : DeleteEvent) (c : Channel W) (u : Unit {0})
      → (send m e c).0 ≡ ok u
      → (send m e c).1 ≡ record { world = c.world; events = c.events ++ e ∷ [] }
  unfolding send
  send_lem e c u h = ground arith

  -- a world and its events after a part of a round that changes no object
  abbrev pub Told : Channel W → List DeleteEvent → Channel W → Type 0
  Told c es c' = c' ≡ record { world = c.world; events = c.events ++ es }

  send_only :
      (e : DeleteEvent) (c : Channel W) (r : List CrdName)
      → ((send m e >>= λ _. pure {A = List CrdName} []) c).0 ≡ ok r
      → (r ≡ []) × Told c (e ∷ []) ((send m e >>= λ _. pure {A = List CrdName} []) c).1
  unfolding pure
  send_only e c r h =
      let s = chain-ok (send m e) (λ _. pure []) c r h in
      (cc, ap (λ x. x.1) s.2 ∙ send_lem e c s.0 s.1)

  -- what a report of a poll keeps and tells
  abbrev Reported : CrdName → W → (p : Poll) → Type 0
  Reported n w present = (kept_by w n ≡ n ∷ []) × (told_by w n ≡ [])
  Reported n w gone = (kept_by w n ≡ []) × (told_by w n ≡ deleted n ∷ [])
  Reported n w broken = (kept_by w n ≡ []) × (told_by w n ≡ failed n ∷ [])

  poll-Reported : (n : CrdName) (w : W) (p : Poll) → poll m n w ≡ ok p → Reported n w p
  unfolding poll get allow_not_found
  poll-Reported (CrdName.test n) w present h = ground arith
  poll-Reported (CrdName.test n) w gone h = ground arith
  poll-Reported (CrdName.test n) w broken h = ground arith
  poll-Reported (CrdName.resource n) w present h = ground arith
  poll-Reported (CrdName.resource n) w gone h = ground arith
  poll-Reported (CrdName.resource n) w broken h = ground arith

  report_lem :
      (n : CrdName) (w : W) (p : Poll) (c : Channel W) (r : List CrdName)
      → Reported n w p
      → (report m n p c).0 ≡ ok r
      → (r ≡ kept_by w n) × Told c (told_by w n) (report m n p c).1
  unfolding report
  report_lem n w present c r q h = unfold pure in ground (arith, q, append-nil c.events)
  report_lem n w gone c r q h = let s = send_only (deleted n) c r h in (s.0 ∙ sym q.0, rw q.1 s.1)
  report_lem n w broken c r q h = let s = send_only (failed n) c r h in (s.0 ∙ sym q.0, rw q.1 s.1)

  pub poll_all_lem :
      (ns : List CrdName) (c : Channel W) (r : List CrdName)
      → (poll_all m ns c).0 ≡ ok r
      → (r ≡ still c.world ns) × Told c (news c.world ns) (poll_all m ns c).1
  unfolding poll_all pure read
  poll_all_lem [] c r h = ground (arith, append-nil c.events)
  poll_all_lem (n ∷ ns) c r h =
      let s = chain-ok (read (λ c. poll m n c.world)) _ c r h in
      let t = chain-ok (report m n s.0) _ c r s.3 in
      let found = poll-Reported n c.world s.0 s.1 in
      let told = report_lem n c.world s.0 c t.0 found t.1 in
      let v = (report m n s.0 c).1 in
      let u = chain-ok (poll_all m ns) _ v r t.3 in
      let later = poll_all_lem ns v u.0 u.1 in
      let same : v.world ≡ c.world = ap (λ x. Channel.world x) told.1 in
      let path = s.2 ∙ t.2 ∙ u.2 in
      ground (
        arith,
        s.1,
        told,
        later,
        u.3,
        same,
        ap (λ x. x.1) path,
        append_assoc c.events (told_by c.world n) (news c.world ns),
      )

  poll-IsAnswered : (n : CrdName) (w : W) (p : Poll) → poll m n w ≡ ok p → IsAnswered w n
  unfolding poll get allow_not_found is_status_code
  poll-IsAnswered (CrdName.test n) w p h = elim (Result-cases (m.test_client.api.get n w)) [
    | inl (e, q) ↦ inr (ground (arith, q))
    | inr (t, q) ↦ inl (t, q)
  ]
  poll-IsAnswered (CrdName.resource n) w p h = elim (Result-cases (m.resource_client.api.get n w)) [
    | inl (e, q) ↦ inr (ground (arith, q))
    | inr (r, q) ↦ inl (r, q)
  ]

  pub poll_all-IsAnswered :
      (ns : List CrdName) (c : Channel W) (r : List CrdName)
      → (poll_all m ns c).0 ≡ ok r
      → All (IsAnswered c.world) ns
  unfolding poll_all read
  poll_all-IsAnswered [] c r h = tt
  poll_all-IsAnswered (n ∷ ns) c r h =
      let s = chain-ok (read (λ c. poll m n c.world)) _ c r h in
      let t = chain-ok (report m n s.0) _ c r s.3 in
      let told = report_lem n c.world s.0 c t.0 (poll-Reported n c.world s.0 s.1) t.1 in
      let v = (report m n s.0 c).1 in
      let u = chain-ok (poll_all m ns) _ v r t.3 in
      let later = poll_all-IsAnswered ns v u.0 u.1 in
      let same : v.world ≡ c.world = ap (λ x. Channel.world x) told.1 in
      (poll-IsAnswered n c.world s.0 s.1, subst (λ w. All (IsAnswered w) ns) same later)
