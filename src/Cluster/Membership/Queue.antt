-- ===== src/Cluster/Membership/Queue.antt =====
-- The queue of updates that ride on pings and acks.
use distributed_cache_system.Prelude.{
  ℕ, zero, suc, ◌+◌, ◌<◌, ◌≡◌, refl, ap, true, false, Bool-cases, Option, none, some, List, [], ◌∷◌,
  ◌++◌, map, Str, str_eq, str_eq_iff, if◌then◌else◌, ltb, leb, length, take, drop, arith, inl, inr,
  length-append,
}
use distributed_cache_system.Cluster.Membership.{
  Membership, MembershipUpdate, QueuedUpdate, enqueue, drain_loop, drain_updates,
  max_piggyback_updates,
}

-- The queued update about a node.
abbrev pub queued : Str → List QueuedUpdate → Option MembershipUpdate
queued id [] = none
queued id (q ∷ qs) = if str_eq q.update.node_id id then some q.update else queued id qs

-- One update a node, none of which has been sent three times.
abbrev pub IsValid : List QueuedUpdate → Type 0
IsValid [] = Unit {0}
IsValid (q ∷ qs) = (queued q.update.node_id qs ≡ none) × (q.sent_count < 3) × IsValid qs

-- The newer of a queued update and a further one.
abbrev pub newer : Option MembershipUpdate → MembershipUpdate → MembershipUpdate
newer none u = u
newer (some v) u = if leb v.incarnation u.incarnation then u else v

-- After an update is queued, its node has the newer of the two, and no other node's changes.
pub enqueue-queued :
    (u : MembershipUpdate) (qs : List QueuedUpdate) (id : Str)
    → queued id (enqueue u qs)
      ≡ (if str_eq u.node_id id then some (newer (queued u.node_id qs) u) else queued id qs)
unfolding enqueue
enqueue-queued u [] id = refl
enqueue-queued u (q ∷ qs) id = ground (
  arith,
  enqueue-queued u qs id,
  str_eq_iff q.update.node_id u.node_id,
  str_eq_iff q.update.node_id id,
  str_eq_iff u.node_id id,
)

-- Queueing keeps one update a node.
enqueue-IsValid :
    (u : MembershipUpdate) (qs : List QueuedUpdate) → IsValid qs → IsValid (enqueue u qs)
unfolding enqueue
enqueue-IsValid u [] v = (refl, omega arith, tt)
enqueue-IsValid u (q ∷ qs) v = ground (
  arith,
  enqueue-IsValid u qs v.2,
  enqueue-queued u qs q.update.node_id,
  str_eq_iff q.update.node_id u.node_id,
  str_eq_iff u.node_id q.update.node_id,
)

-- What stays of the updates that were sent once more.
abbrev pub sent_again : List QueuedUpdate → List QueuedUpdate
sent_again [] = []
sent_again (q ∷ qs) =
    if ltb (q.sent_count + 1) 3
    then record q { sent_count = q.sent_count + 1 } ∷ sent_again qs
    else sent_again qs

abbrev pub update_at : QueuedUpdate → MembershipUpdate
update_at q = q.update

append_nil : {A : Type 0} (xs : List A) → xs ++ [] ≡ xs
append_nil [] = refl
append_nil (x ∷ xs) = ap (λ r. x ∷ r) (append_nil xs)

append_assoc : {A : Type 0} (xs ys zs : List A) → (xs ++ ys) ++ zs ≡ xs ++ (ys ++ zs)
append_assoc [] ys zs = refl
append_assoc (x ∷ xs) ys zs = ap (λ r. x ∷ r) (append_assoc xs ys zs)

-- The loop takes `n` updates more.
drain_loop_lem :
    (n : ℕ) (us : List MembershipUpdate) (active qs : List QueuedUpdate)
    → IsValid qs
    → length us + n ≡ 10
    → drain_loop us active qs
      ≡ (us ++ take n (map update_at qs), active ++ (sent_again (take n qs) ++ drop n qs))
unfolding drain_loop
drain_loop_lem zero us active [] v h = rw (append_nil us, append_nil active) refl
drain_loop_lem (suc n) us active [] v h = rw (append_nil us, append_nil active) refl
drain_loop_lem zero us active (q ∷ qs) v h =
    let full : ltb (length us) max_piggyback_updates ≡ false = ground arith in
    let low : ltb q.sent_count 3 ≡ true = ground arith in
    rw
      (
        full,
        low,
        drain_loop_lem zero us (active ++ q ∷ []) qs v.2 h,
        append_assoc active (q ∷ []) qs,
      )
      refl
drain_loop_lem (suc n) us active (q ∷ qs) v h =
    let room : ltb (length us) max_piggyback_updates ≡ true = ground arith in
    let q' : QueuedUpdate = record q { sent_count = q.sent_count + 1 } in
    let us' = us ++ q.update ∷ [] in
    let longer : length us' + n ≡ 10 = omega (arith, length-append us (q.update ∷ [])) in
    let rest = sent_again (take n qs) ++ drop n qs in
    elim (Bool-cases (ltb (q.sent_count + 1) 3)) [
      | inl low ↦
          rw
            (
              room,
              low,
              drain_loop_lem n us' (active ++ q' ∷ []) qs v.2 longer,
              append_assoc us (q.update ∷ []) (take n (map update_at qs)),
              append_assoc active (q' ∷ []) rest,
            )
            refl
      | inr done ↦
          rw
            (
              room,
              done,
              drain_loop_lem n us' active qs v.2 longer,
              append_assoc us (q.update ∷ []) (take n (map update_at qs)),
            )
            refl
    ]

-- Draining takes the first ten queued updates and keeps them until they have been sent three
-- times; the others wait their turn unchanged.
pub drain_updates_lem :
    (m : Membership)
    → IsValid m.update_queue
    → drain_updates m ≡ (
      take 10 (map update_at m.update_queue),
      record m { update_queue = sent_again (take 10 m.update_queue) ++ drop 10 m.update_queue },
    )
unfolding drain_updates
drain_updates_lem m v = rw (drain_loop_lem 10 [] [] m.update_queue v refl) refl

sent_again-queued :
    (n : ℕ) (qs : List QueuedUpdate) (id : Str)
    → queued id qs ≡ none
    → queued id (sent_again (take n qs) ++ drop n qs) ≡ none
sent_again-queued zero qs id h = h
sent_again-queued (suc n) [] id h = refl
sent_again-queued (suc n) (q ∷ qs) id h = ground (arith, sent_again-queued n qs id)

sent_again-IsValid :
    (n : ℕ) (qs : List QueuedUpdate) → IsValid qs → IsValid (sent_again (take n qs) ++ drop n qs)
sent_again-IsValid zero qs v = v
sent_again-IsValid (suc n) [] v = tt
sent_again-IsValid (suc n) (q ∷ qs) v =
    ground (arith, sent_again-IsValid n qs v.2, sent_again-queued n qs q.update.node_id)

-- Draining keeps one update a node and drops what was sent three times.
pub drain_updates-IsValid :
    (m : Membership) → IsValid m.update_queue → IsValid (drain_updates m).1.update_queue
drain_updates-IsValid m v = rw (drain_updates_lem m v) (sent_again-IsValid 10 m.update_queue v)
