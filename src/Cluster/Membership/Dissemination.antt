-- ===== src/Cluster/Membership/Dissemination.antt =====
-- internal/cluster/membership.go: how long an update waits in the queue for its messages.
use distributed_cache_system.Prelude.{
  ℕ, zero, suc, ◌+◌, ◌-◌, ◌*◌, ◌≤◌, ◌≡◌, refl, ◌⊎◌, inl, inr, Bool-cases, List, [], ◌∷◌, ◌++◌, map,
  ltb, length, take, drop, arith, Has, Has-append_left, Has-append_right,
}
use mathlib.Core.Path.{subst}
use distributed_cache_system.Cluster.Membership.{
  Membership, MembershipUpdate, QueuedUpdate, drain_updates,
}
use distributed_cache_system.Cluster.Membership.Queue.{
  IsValid, sent_again, update_at, drain_updates_lem, drain_updates-IsValid,
}

-- The updates that go out with `n` messages in a row, and what is left of the state.
abbrev pub drain_times : ℕ → Membership → List MembershipUpdate × Membership
drain_times zero m = ([], m)
drain_times (suc n) m =
    let first = drain_updates m in let rest = drain_times n first.1 in (first.0 ++ rest.0, rest.1)

-- How often the updates of a queue are still to be sent.
abbrev weight : List QueuedUpdate → ℕ
weight [] = 0
weight (q ∷ qs) = (3 - q.sent_count) + weight qs

weight-le : (qs : List QueuedUpdate) → weight qs ≤ 3 * length qs
weight-le [] = omega arith
weight-le (q ∷ qs) = omega (arith, weight-le qs)

weight-drop :
    (n : ℕ) (qs : List QueuedUpdate)
    → IsValid qs
    → weight (sent_again (take n qs) ++ drop n qs) + length (take n qs) ≡ weight qs
weight-drop zero qs v = omega arith
weight-drop (suc n) [] v = refl
weight-drop (suc n) (q ∷ qs) v = elim (Bool-cases (ltb (q.sent_count + 1) 3)) [
  | inl low ↦ ground (arith, weight-drop n qs v.2, v.1)
  | inr last ↦ ground (arith, weight-drop n qs v.2, v.1)
]

-- An update of the queue goes out now or stays in it.
split_at :
    (n : ℕ) (u : MembershipUpdate) (qs : List QueuedUpdate)
    → Has u (map update_at qs)
    → Has u (take n (map update_at qs)) ⊎ Has u (map update_at (drop n qs))
split_at zero u qs h = inr h
split_at (suc n) u [] h = elim h [ ]
split_at (suc n) u (q ∷ qs) (inl e) = inl (inl e)
split_at (suc n) u (q ∷ qs) (inr h) = elim (split_at n u qs h) [
  | inl now ↦ inl (inr now)
  | inr later ↦ inr later
]

Has-map_append :
    (u : MembershipUpdate) (ps qs : List QueuedUpdate)
    → Has u (map update_at qs)
    → Has u (map update_at (ps ++ qs))
Has-map_append u [] qs h = h
Has-map_append u (p ∷ ps) qs h = inr (Has-map_append u ps qs h)

-- What a drain does to the weight of the queue.
weight-drain_updates :
    (n : ℕ) (m : Membership)
    → IsValid m.update_queue
    → weight m.update_queue ≤ suc n
    → weight (drain_updates m).1.update_queue ≤ n
weight-drain_updates n m v h = rw (drain_updates_lem m v) (lighter m.update_queue v h)
  where
    lighter :
        (qs : List QueuedUpdate)
        → IsValid qs
        → weight qs ≤ suc n
        → weight (sent_again (take 10 qs) ++ drop 10 qs) ≤ n
    lighter [] v h = omega arith
    lighter (q ∷ qs) v h = omega (arith, weight-drop 10 (q ∷ qs) v)

still_queued :
    (u : MembershipUpdate) (m : Membership)
    → IsValid m.update_queue
    → Has u (map update_at m.update_queue)
    → Has u (drain_updates m).0 ⊎ Has u (map update_at (drain_updates m).1.update_queue)
still_queued u m v h = rw (drain_updates_lem m v) (elim (split_at 10 u m.update_queue h) [
  | inl now ↦ inl now
  | inr later ↦
      inr (Has-map_append u (sent_again (take 10 m.update_queue)) (drop 10 m.update_queue) later)
])

empty_queue : (qs : List QueuedUpdate) → IsValid qs → weight qs ≤ 0 → qs ≡ []
empty_queue [] v h = refl
empty_queue (q ∷ qs) v h = absurd (omega (arith, v.1))

drained :
    (n : ℕ) (m : Membership)
    → IsValid m.update_queue
    → weight m.update_queue ≤ n
    → ((drain_times n m).1.update_queue ≡ [])
      × ((u : MembershipUpdate) → Has u (map update_at m.update_queue) → Has u (drain_times n m).0)
drained zero m v h =
    let none_left = empty_queue m.update_queue v h in
    (none_left, λ u there. subst (λ qs. Has u (map update_at qs)) none_left there)
drained (suc n) m v h =
    let m' = (drain_updates m).1 in
    let (done, all) = drained n m' (drain_updates-IsValid m v) (weight-drain_updates n m v h) in
    (
      done,
      λ u there. elim (still_queued u m v there) [
        | inl now ↦ Has-append_left u (drain_updates m).0 (drain_times n m').0 now
        | inr later ↦ Has-append_right u (drain_updates m).0 (drain_times n m').0 (all u later)
      ],
    )

-- From a queue with one update a node, none sent three times, three messages for each queued update
-- are enough to empty the queue, if nothing is queued meanwhile, and each of its updates goes out
-- with one of them.
pub drain_times-Has :
    (n : ℕ) (m : Membership)
    → IsValid m.update_queue
    → 3 * length m.update_queue ≤ n
    → ((drain_times n m).1.update_queue ≡ [])
      × ((u : MembershipUpdate) → Has u (map update_at m.update_queue) → Has u (drain_times n m).0)
drain_times-Has n m v h = drained n m v (omega (arith, weight-le m.update_queue))
