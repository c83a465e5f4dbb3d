-- ===== src/Taskqueue/Broker/Busy.antt =====
-- broker/server.py: which handlers leave a worker busy.
use container_platform.Prelude.{
  ℕ, zero, suc, String, ◌≡◌, refl, sym, ◌∙◌, subst, ◌⊎◌, inl, inr, Bool, true, false, Option, none,
  some, List, [], ◌∷◌, ◌++◌, ◌==◌, arith, get_elem?, get_elem?-append_left, get_elem?-lt,
}
use container_platform.Taskqueue.Queue.{Task}
use container_platform.Taskqueue.Broker.{
  WorkerConnection, PendingDelivery, BrokerServer, Peer, Message, update_at, find_pending,
  pop_pending, nack_found, handle_nack, handle_result, pop_listeners, revoke_found, handle_revoke,
  handle_subscribe, handle_ack, task_of,
}
use container_platform.Taskqueue.Broker.Connection.{
  Event, with_ping, handle_event, handle_message, handle_publish, update_conn, forget_worker,
}
use container_platform.Taskqueue.Broker.Steps.{Move}

abbrev is_conn : ℕ → Option ℕ → Bool
is_conn i none = false
is_conn i (some j) = i == j

get_elem?-update_at :
    {A : Type 0} (f : A → A) (i j : ℕ) (xs : List A) (x : A)
    → get_elem? xs i ≡ some x
    → (get_elem? (update_at j f xs) i ≡ some x)
      ⊎ ((i == j) ≡ true) × (get_elem? (update_at j f xs) i ≡ some (f x))
unfolding update_at
get_elem?-update_at f i j [] x e = cc
get_elem?-update_at f zero zero (y ∷ ys) x e = inr (refl, ground (arith, e))
get_elem?-update_at f zero (suc j) (y ∷ ys) x e = inl e
get_elem?-update_at f (suc i) zero (y ∷ ys) x e = inl e
get_elem?-update_at f (suc i) (suc j) (y ∷ ys) x e = elim (get_elem?-update_at f i j ys x e) [
  | inl same ↦ inl same
  | inr (k, there) ↦ inr (ground (arith, k), there)
]

abbrev pub IsBusyIn : ℕ → List WorkerConnection → Type 0
IsBusyIn i cs = (w : WorkerConnection) × (get_elem? cs i ≡ some w) × (w.busy ≡ true)

-- A change at one index that makes nobody idle, or happens elsewhere.
pub update_at-IsBusyIn :
    (i j : ℕ) (f : WorkerConnection → WorkerConnection) (cs : List WorkerConnection)
    → ((i == j) ≡ true → (w : WorkerConnection) → w.busy ≡ true → (f w).busy ≡ true)
    → IsBusyIn i cs
    → IsBusyIn i (update_at j f cs)
update_at-IsBusyIn i j f cs keeps (w, e, busy) = elim (get_elem?-update_at f i j cs w e) [
  | inl same ↦ (w, same, busy)
  | inr (here, there) ↦ (f w, there, keeps here w busy)
]

append-IsBusyIn : (i : ℕ) (cs ds : List WorkerConnection) → IsBusyIn i cs → IsBusyIn i (cs ++ ds)
append-IsBusyIn i cs ds (w, e, busy) =
    (w, get_elem?-append_left cs ds i (get_elem?-lt cs i e) ∙ e, busy)

abbrev pub stay : (i : ℕ) {cs ds : List WorkerConnection} → ds ≡ cs → IsBusyIn i cs → IsBusyIn i ds
stay i e busy = subst (IsBusyIn i) (sym e) busy

module _ {V : Type 0} where
  abbrev pub IsBusy : ℕ → BrokerServer V → Type 0
  IsBusy i b = IsBusyIn i b.connections

  -- A RESULT from the connection of the worker.
  abbrev pub is_result_of : ℕ → Move V → Bool
  is_result_of i (Move.handles reachable now peer (Event.received (Message.result id x))) =
      is_conn i peer.worker_conn
  is_result_of i m = false

  update_conn-IsBusy :
      (i : ℕ) (c : Option ℕ) (f : WorkerConnection → WorkerConnection) (b : BrokerServer V)
      → (is_conn i c ≡ true → (w : WorkerConnection) → w.busy ≡ true → (f w).busy ≡ true)
      → IsBusy i b
      → IsBusy i (update_conn c f b)
  unfolding update_conn
  update_conn-IsBusy i none f b keeps busy = busy
  update_conn-IsBusy i (some j) f b keeps busy = update_at-IsBusyIn i j f b.connections keeps busy

  pop_pending_connections :
      (id : Option String) (b : BrokerServer V) → (pop_pending id b).connections ≡ b.connections
  unfolding pop_pending
  pop_pending_connections none b = refl
  pop_pending_connections (some id) b = refl

  pop_listeners_connections :
      (id : Option String) (b : BrokerServer V) → (pop_listeners id b).connections ≡ b.connections
  unfolding pop_listeners
  pop_listeners_connections none b = refl
  pop_listeners_connections (some id) b = refl

  nack_found_connections :
      (now : ℕ) (again : Bool) (p : Option (PendingDelivery V)) (b : BrokerServer V)
      → (nack_found now again p b).connections ≡ b.connections
  unfolding nack_found
  nack_found_connections now again none b = refl
  nack_found_connections now true (some p) b = refl
  nack_found_connections now false (some p) b = refl

  revoke_found_connections :
      (id : Option String) (p : Option (PendingDelivery V)) (b : BrokerServer V)
      → (revoke_found id p b).connections ≡ b.connections
  unfolding revoke_found
  revoke_found_connections none p b = refl
  revoke_found_connections (some id) none b = refl
  revoke_found_connections (some id) (some p) b = refl

  handle_publish_connections :
      (reachable : ℕ → Bool) (peer : Peer) (t : Option (Task V)) (b : BrokerServer V)
      → (handle_publish reachable peer t b).broker.connections ≡ b.connections
  unfolding handle_publish
  handle_publish_connections reachable peer none b = refl
  handle_publish_connections reachable peer (some t) b = refl

  pub forget_worker_connections :
      (w : Option WorkerConnection) (b : BrokerServer V)
      → (forget_worker w b).connections ≡ b.connections
  unfolding forget_worker
  forget_worker_connections none b = refl
  forget_worker_connections (some w) b = refl

  pub handle_event-IsBusy :
      (i : ℕ) (reachable : ℕ → Bool) (now : ℕ) (peer : Peer) (e : Event V) (b : BrokerServer V)
      → is_result_of i (Move.handles reachable now peer e) ≡ false
      → IsBusy i b
      → IsBusy i (handle_event reachable now peer e b).broker
  unfolding with_ping handle_event handle_message handle_subscribe handle_ack handle_nack
      handle_result handle_revoke
  handle_event-IsBusy i reachable now peer (Event.received (Message.subscribe id queues)) b others
        busy =
      append-IsBusyIn i b.connections _ busy
  handle_event-IsBusy i reachable now peer (Event.received (Message.publish p)) b others busy =
      stay i (handle_publish_connections reachable peer (task_of now p) b) busy
  handle_event-IsBusy i reachable now peer (Event.received (Message.ack id)) b others busy =
      stay i (pop_pending_connections id b) busy
  handle_event-IsBusy i reachable now peer (Event.received (Message.nack id again)) b others busy =
      stay i
        (nack_found_connections now _ (find_pending id b) (pop_pending id b)
          ∙ pop_pending_connections id b)
        busy
  handle_event-IsBusy i reachable now peer (Event.received (Message.result id payload)) b others
        busy =
      update_conn-IsBusy i peer.worker_conn _ _
        (λ yes w h. let n : false ≡ true = sym others ∙ yes in cc)
        (stay i (pop_listeners_connections id (pop_pending id b) ∙ pop_pending_connections id b)
          busy)
  handle_event-IsBusy i reachable now peer (Event.received (Message.revoke id)) b others busy =
      stay i (revoke_found_connections id (find_pending id b) b) busy
  handle_event-IsBusy i reachable now peer (Event.received Message.stats) b others busy = busy
  handle_event-IsBusy i reachable now peer (Event.received Message.ping) b others busy = busy
  handle_event-IsBusy i reachable now peer (Event.received Message.pong) b others busy =
      update_conn-IsBusy i peer.worker_conn (with_ping now) b (λ here w h. h) busy
  handle_event-IsBusy i reachable now peer (Event.received Message.other) b others busy = busy
  handle_event-IsBusy i reachable now peer Event.timed_out b others busy = busy
  handle_event-IsBusy i reachable now peer Event.closed b others busy = busy
