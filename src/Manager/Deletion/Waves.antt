-- ===== src/Manager/Deletion/Waves.antt =====
-- The waves of a deletion: what one round of the loop does.
use bottlerocket_test_system.Base.{
  All, Bool, true, false, Option, none, some, List, [], ◌∷◌, ◌++◌, ◌≡◌, ◌≢◌, ◌∙◌, refl, sym, ap,
  map, arith,
}
use mathlib.Core.List.{append_assoc, append-nil}
use bottlerocket_test_system.Base.Result.{ok}
use bottlerocket_test_system.Base.Exec.{context, pure}
use bottlerocket_test_system.Base.Exec.Runs.{chain-ok}
use bottlerocket_test_system.Clients.CrdClient.{delete}
use bottlerocket_test_system.Model.Crd.{CrdName}
use bottlerocket_test_system.Manager.{TestManager}
use bottlerocket_test_system.Manager.Deletion.{
  starting, TopologicalSort, Channel, Progress, send, poll_all, remove, remove_all, next_wave,
  after_polls, round,
}
use bottlerocket_test_system.Manager.Deletion.Polls.{
  still, news, deletes, IsAnswered, send_lem, Told, poll_all_lem, poll_all-IsAnswered,
}

module _ {W : Type 0} (m : TestManager W) where
  remove-events : (n : CrdName) (c : Channel W) → (remove m n c).1.events ≡ c.events
  unfolding remove
  remove-events (CrdName.test n) c = ground arith
  remove-events (CrdName.resource n) c = ground arith

  remove-world : (n : CrdName) (c : Channel W) → (remove m n c).1.world ≡ deletes m (n ∷ []) c.world
  unfolding remove delete context
  remove-world (CrdName.test n) c = ground arith
  remove-world (CrdName.resource n) c = ground arith

  deletes-first :
      (n : CrdName) (ns : List CrdName) (w : W)
      → deletes m (n ∷ ns) w ≡ deletes m ns (deletes m (n ∷ []) w)
  deletes-first (CrdName.test n) ns w = refl
  deletes-first (CrdName.resource n) ns w = refl

  -- the world after a wave
  remove_all-world :
      (ns : List CrdName) (c : Channel W) (u : Unit {0})
      → (remove_all m ns c).0 ≡ ok u
      → (remove_all m ns c).1.world ≡ deletes m ns c.world
  unfolding remove_all pure
  remove_all-world [] c u h = refl
  remove_all-world (n ∷ ns) c u h =
      let s = chain-ok (send m (starting n)) _ c u h in
      let sent = send_lem m (starting n) c s.0 s.1 in
      let v = (send m (starting n) c).1 in
      let t = chain-ok (remove m n) _ v u s.3 in
      let later = remove_all-world ns (remove m n v).1 t.0 t.3 in
      let same : v.world ≡ c.world = ap (λ x. Channel.world x) sent in
      ap (λ x. Channel.world x.1) (s.2 ∙ t.2)
      ∙ (later
          ∙ (ap (λ w. deletes m ns w) (remove-world n v ∙ ap (λ w. deletes m (n ∷ []) w) same)
              ∙ sym (deletes-first n ns c.world)))

  -- the events of a wave
  remove_all_lem :
      (ns : List CrdName) (c : Channel W) (u : Unit {0})
      → (remove_all m ns c).0 ≡ ok u
      → (remove_all m ns c).1.events ≡ c.events ++ map starting ns
  unfolding remove_all pure
  remove_all_lem [] c u h = ground (arith, append-nil c.events)
  remove_all_lem (n ∷ ns) c u h =
      let s = chain-ok (send m (starting n)) _ c u h in
      let sent = send_lem m (starting n) c s.0 s.1 in
      let v = (send m (starting n) c).1 in
      let t = chain-ok (remove m n) _ v u s.3 in
      let later = remove_all_lem ns (remove m n v).1 t.0 t.3 in
      ground (
        arith,
        sent,
        later,
        remove-events n v,
        ap (λ x. x.1) (s.2 ∙ t.2),
        append_assoc c.events (starting n ∷ []) (map starting ns),
      )

  module _ {T : Type 0} (s : TopologicalSort T) where
    -- What a round did that started in a world `c` and ended in `d`.
    pub record IsRound (p : Progress T) (c : Channel W) (r : Option (Progress T)) (d : Channel W)
        : Type 0 where
      pub waits :
          still m c.world p.awaiting ≢ []
          → (r ≡ some (record { awaiting = still m c.world p.awaiting; order = p.order }))
            × Told m c (news m c.world p.awaiting) d
      pub ends :
          still m c.world p.awaiting ≡ []
          → s.is_empty p.order ≡ true
          → (r ≡ none) × Told m c (news m c.world p.awaiting) d
      pub starts :
          still m c.world p.awaiting ≡ []
          → s.is_empty p.order ≡ false
          → (r ≡ some (record { awaiting = (s.pop_all p.order).0; order = (s.pop_all p.order).1 }))
            × (d.events
                ≡ (c.events ++ news m c.world p.awaiting) ++ map starting (s.pop_all p.order).0)
            × (d.world ≡ deletes m (s.pop_all p.order).0 c.world)
      pub answered : All (IsAnswered m c.world) p.awaiting

    AfterPolls :
        (order : T) (kept : List CrdName) (c d : Channel W) (r : Option (Progress T)) → Type 0
    AfterPolls order kept c d r =
        (kept ≢ [] → (r ≡ some (record { awaiting = kept; order = order })) × (d ≡ c))
        × (kept ≡ [] → s.is_empty order ≡ true → (r ≡ none) × (d ≡ c))
        × (kept ≡ []
            → s.is_empty order ≡ false
            → (r ≡ some (record { awaiting = (s.pop_all order).0; order = (s.pop_all order).1 }))
              × (d.events ≡ c.events ++ map starting (s.pop_all order).0)
              × (d.world ≡ deletes m (s.pop_all order).0 c.world))

    next_wave_lem :
        (order : T) (c : Channel W) (r : Option (Progress T)) (b : Bool)
        → s.is_empty order ≡ b
        → (next_wave m s order c).0 ≡ ok r
        → AfterPolls order [] c (next_wave m s order c).1 r
    unfolding next_wave pure AfterPolls
    next_wave_lem order c r true e h =
        (λ ne. absurd (ne refl), λ _ _. ground arith, λ _ more. absurd (cc))
    next_wave_lem order c r false e h =
        let started = rw e at h in
        let t = chain-ok (remove_all m (s.pop_all order).0) (λ _. pure _) c r started in
        let sent = remove_all_lem (s.pop_all order).0 c t.0 t.1 in
        let deleted = remove_all-world (s.pop_all order).0 c t.0 t.1 in
        rw e (
          λ ne. absurd (ne refl),
          λ _ over. absurd (cc),
          λ _ _. ground (arith, t.2, t.3, sent, deleted),
        )

    after_polls_lem :
        (order : T) (kept : List CrdName) (c : Channel W) (r : Option (Progress T))
        → (after_polls m s order kept c).0 ≡ ok r
        → AfterPolls order kept c (after_polls m s order kept c).1 r
    unfolding after_polls pure
    after_polls_lem order [] c r h = next_wave_lem order c r (s.is_empty order) refl h
    after_polls_lem order (k ∷ ks) c r h =
        unfold AfterPolls in (λ _. (cc, refl), λ e. absurd (cc), λ e. absurd (cc))

    -- Of a round of the deletion that ends without an error. For each awaited object the server has it,
    -- or says that it has not. While an object is there, and is no resource whose destruction failed, it
    -- is awaited on, no object changes and the next wave does not start. Of the others it is told
    -- whether they were deleted or have failed, and they are awaited no longer. When none is awaited any
    -- longer and no wave is left, the loop ends and no object changes. When one is left, all its objects
    -- are announced in order, after what was told of the last ones; the server was asked to delete each
    -- of them, in this order; and they are awaited next.
    pub round-IsRound :
        (p : Progress T) (c : Channel W) {r : Option (Progress T)}
        → (round m s p c).0 ≡ ok r
        → IsRound p c r (round m s p c).1
    unfolding round AfterPolls
    round-IsRound p c {r} h =
        let t = chain-ok (poll_all m p.awaiting) _ c r h in
        let polled = poll_all_lem m p.awaiting c t.0 t.1 in
        let v = (poll_all m p.awaiting c).1 in
        let after = after_polls_lem p.order t.0 v r t.3 in
        let whole = ap (λ x. x.1) t.2 in
        record {
          waits =
              λ ne. let a = after.0 (rw polled.0 ne) in (a.0 ∙ rw polled.0, whole ∙ a.1 ∙ polled.1);
          ends = λ e over. let a = after.1 (polled.0 ∙ e) over in (a.0, whole ∙ a.1 ∙ polled.1);
          starts = λ e more.
              let a = after.2 (polled.0 ∙ e) more in
              (
                a.0,
                ap (λ x. Channel.events x) whole ∙ ground (arith, a.1, polled.1),
                ap (λ x. Channel.world x) whole ∙ ground (arith, a.2, polled.1),
              );
          answered = poll_all-IsAnswered m p.awaiting c t.0 t.1;
        }
