-- ===== src/OrderInput/Replacement/Latest.antt =====
-- The state of a key after any notifications (order_replacement_manager.rs): the notification with
-- the highest sequence number, in whatever order they arrive.
use constraints_builder.Shared.{
  ℕ, ◌≡◌, ◌≢◌, refl, ap, sym, ◌∙◌, Option, none, some, List, [], ◌∷◌, leb, arith, if◌then◌else◌,
  ◌==◌,
}
use constraints_builder.Shared.Map.{lookup, lookup-insert}
use constraints_builder.Primitives.Orders
use constraints_builder.Primitives.Orders.{
  Order, OrderReplacementKey, ReplacementKey, ReplacementData, order_replacement_key_eq,
  replacement_key_and_sequence_number,
}
use constraints_builder.OrderInput.Sink.{OrderSink}
use constraints_builder.OrderInput.Replacement.{
  BundleReplacementState, OrderReplacementManager, Event, sequence_number, sbundle_sequence_number,
  insert_at, cancel_at, insert_replaceable, cancel, handle, run,
}

abbrev ordered :
    Option (OrderReplacementKey × ℕ) → Order → Option (OrderReplacementKey × BundleReplacementState)
ordered none order = none
ordered (some (k, n)) order =
    some
      (k, BundleReplacementState.valid (record { sequence_number = n; order_id = Orders.id order }))

-- The key that a notification is about, and the state that it announces.
abbrev pub announced : Event → Option (OrderReplacementKey × BundleReplacementState)
announced (Event.insert_order order) = ordered (replacement_key_and_sequence_number order) order
announced (Event.remove_bundle r) =
    some (OrderReplacementKey.bundle r.key, BundleReplacementState.cancelled r.sequence_number)
announced (Event.remove_sbundle key) =
    some (
      OrderReplacementKey.share_bundle key,
      BundleReplacementState.cancelled sbundle_sequence_number,
    )

-- The newer of what is known and what is announced.
abbrev pub newer : Option BundleReplacementState → BundleReplacementState → BundleReplacementState
newer none s = s
newer (some old) s = if leb (sequence_number s) (sequence_number old) then old else s

abbrev pub heard :
    OrderReplacementKey
    → Option BundleReplacementState
    → Option (OrderReplacementKey × BundleReplacementState)
    → Option BundleReplacementState
heard k x none = x
heard k x (some (j, s)) = if j == k then some (newer x s) else x

-- The specification: what one key has heard.
abbrev pub latest :
    OrderReplacementKey → Option BundleReplacementState → List Event → Option BundleReplacementState
latest k x [] = x
latest k x (e ∷ events) = latest k (heard k x (announced e)) events

module _ (S : OrderSink) where
  open S use {Sink}

  insert_at-newer :
      (x : Option BundleReplacementState) (order : Order) (n : ℕ) (sink : Sink)
      → (insert_at S x order n sink).0
        ≡ newer x (
            BundleReplacementState.valid
              (record { sequence_number = n; order_id = Orders.id order }))
  unfolding insert_at sequence_number
  insert_at-newer none order n sink = refl
  insert_at-newer (some s) order n sink = ground arith

  cancel_at-newer :
      (x : Option BundleReplacementState) (n : ℕ) (sink : Sink)
      → (cancel_at S x n sink).0 ≡ newer x (BundleReplacementState.cancelled n)
  unfolding cancel_at sequence_number
  cancel_at-newer none n sink = refl
  cancel_at-newer (some s) n sink = ground arith

  lookup-cancel :
      (k j : OrderReplacementKey) (n : ℕ) (m : OrderReplacementManager Sink)
      → lookup k (cancel S j n m).0.replacement_states
        ≡ heard k (lookup k m.replacement_states) (some (j, BundleReplacementState.cancelled n))
  unfolding cancel
  lookup-cancel k j n m = ground (
    arith,
    lookup-insert j k (cancel_at S (lookup j m.replacement_states) n m.sink).0 m.replacement_states,
    cancel_at-newer (lookup j m.replacement_states) n m.sink,
    order_replacement_key_eq.same_iff j k,
  )

  lookup-insert_replaceable :
      (k : OrderReplacementKey) (r : Option (OrderReplacementKey × ℕ)) (order : Order)
      (m : OrderReplacementManager Sink)
      → lookup k (insert_replaceable S r order m).0.replacement_states
        ≡ heard k (lookup k m.replacement_states) (ordered r order)
  unfolding insert_replaceable
  lookup-insert_replaceable k none order m = refl
  lookup-insert_replaceable k (some (j, n)) order m = ground (
    arith,
    lookup-insert j k (insert_at S (lookup j m.replacement_states) order n m.sink).0
        m.replacement_states,
    insert_at-newer (lookup j m.replacement_states) order n m.sink,
    order_replacement_key_eq.same_iff j k,
  )

  pub lookup-handle :
      (k : OrderReplacementKey) (e : Event) (m : OrderReplacementManager Sink)
      → lookup k (handle S e m).0.replacement_states
        ≡ heard k (lookup k m.replacement_states) (announced e)
  unfolding handle
  lookup-handle k (Event.insert_order order) m =
      lookup-insert_replaceable k (replacement_key_and_sequence_number order) order m
  lookup-handle k (Event.remove_bundle r) m =
      lookup-cancel k (OrderReplacementKey.bundle r.key) r.sequence_number m
  lookup-handle k (Event.remove_sbundle key) m =
      lookup-cancel k (OrderReplacementKey.share_bundle key) sbundle_sequence_number m

  -- Over any sink, whatever it answers, and from any state, the state that the manager keeps for a
  -- key after a list of notifications is the first of those with the highest sequence number among
  -- the state before and the notifications about that key.
  pub lookup-run :
      (k : OrderReplacementKey) (events : List Event) (m : OrderReplacementManager Sink)
      → lookup k (run S events m).replacement_states
        ≡ latest k (lookup k m.replacement_states) events
  unfolding run
  lookup-run k [] m = refl
  lookup-run k (e ∷ events) m =
      lookup-run k events (handle S e m).0 ∙ ap (λ x. latest k x events) (lookup-handle k e m)

-- Two notifications that may arrive in either order: they are not about one key under one sequence
-- number.
abbrev Differ :
    Option (OrderReplacementKey × BundleReplacementState)
    → Option (OrderReplacementKey × BundleReplacementState)
    → Type 0
Differ (some (j, s)) (some (k, t)) = j ≡ k → sequence_number s ≢ sequence_number t
Differ _ _ = Unit

abbrev pub Independent : Event → Event → Type 0
Independent d e = Differ (announced d) (announced e)

-- Lists that differ by swaps of independent neighbours.
pub data Reordered : List Event → List Event → Type 0 where
  same : (events : List Event) → Reordered events events
  swap :
      (d e : Event) (events : List Event)
      → Independent d e
      → Reordered (d ∷ e ∷ events) (e ∷ d ∷ events)
  keep : (e : Event) {xs ys : List Event} → Reordered xs ys → Reordered (e ∷ xs) (e ∷ ys)
  trans : {xs ys zs : List Event} → Reordered xs ys → Reordered ys zs → Reordered xs zs

heard_swap :
    (k : OrderReplacementKey) (x : Option BundleReplacementState)
    (a b : Option (OrderReplacementKey × BundleReplacementState))
    → Differ a b
    → heard k (heard k x a) b ≡ heard k (heard k x b) a
heard_swap k x none none h = refl
heard_swap k x none (some b) h = refl
heard_swap k x (some a) none h = refl
heard_swap k x (some (i, s)) (some (j, t)) h =
    ground (arith, order_replacement_key_eq.same_iff i k, order_replacement_key_eq.same_iff j k, h)

latest-Reordered :
    {xs ys : List Event} (k : OrderReplacementKey) (x : Option BundleReplacementState)
    → Reordered xs ys
    → latest k x xs ≡ latest k x ys
latest-Reordered k x (same events) = refl
latest-Reordered k x (swap d e events h) =
    ap (λ y. latest k y events) (heard_swap k x (announced d) (announced e) h)
latest-Reordered k x (keep e r) = latest-Reordered k (heard k x (announced e)) r
latest-Reordered k x (trans r s) = latest-Reordered k x r ∙ latest-Reordered k x s

-- Over any sink: if two lists of notifications differ only by swaps of neighbours that are not
-- about one key under one sequence number, then they leave every key in the same state.
pub run-Reordered :
    (S : OrderSink) (m : OrderReplacementManager S.Sink) (xs ys : List Event)
    → Reordered xs ys
    → (k : OrderReplacementKey)
    → lookup k (run S xs m).replacement_states ≡ lookup k (run S ys m).replacement_states
run-Reordered S m xs ys r k =
    lookup-run S k xs m
    ∙ (latest-Reordered k (lookup k m.replacement_states) r ∙ sym (lookup-run S k ys m))
