-- ===== src/Bap/Orchestrator/Settled.antt =====
-- What callbacks and the ends of windows do to the collectors of others, and to settled ones.
use mathlib.Core.Option.{some-injective}
use beckn_data_commons.Base.{
  ℕ, String, ◌||◌, ◌==◌, ◌≡◌, ◌≢◌, inl, inr, refl, sym, ◌∙◌, ap, leb, length, none, some, List, [],
  ◌∷◌, get_elem?, update, get_elem?-update_others, get_elem?-append, Bool-cases, Option-cases,
  eq_refl,
}
use beckn_data_commons.Js.Map.{map_get, map_delete}
use beckn_data_commons.Js.Map.Laws.{map_get-map_delete}
use beckn_data_commons.Bap.Orchestrator.{
  CallbackResponse, Pending, Registry, empty, fan_out, resolve, push, collect, deliver_to,
  deliver_callback, route, time_out, Event, fanning, callback, window_end, step, steps,
}
use beckn_data_commons.Bap.Orchestrator.Collectors.{
  IsWellFormed, empty-IsWellFormed, step-IsWellFormed, steps-IsWellFormed, same_key,
}

-- A collector stays what it was, or its promise was open and has a value now.
abbrev pub IsSettled : ℕ → List CallbackResponse → Registry → Type 0
IsSettled n rs s = (p : Pending) × (get_elem? n s.collectors ≡ some p) × (p.result ≡ some rs)

module _ (n : ℕ) (rs : List CallbackResponse) where
  -- A change of another collector leaves a settled one.
  update-IsSettled :
      (f : Pending → Pending) (m : ℕ) (q : Pending) (s : Registry) (pending : List (String × ℕ))
      → get_elem? m s.collectors ≡ some q
      → q.result ≡ none
      → IsSettled n rs s
      → IsSettled n rs (record { collectors = update f m s.collectors; pending = pending })
  update-IsSettled f m q s pending there open_ (p, here, done) =
      (p, get_elem?-update_others f m n s.collectors apart ∙ here, done)
    where
      apart : m ≢ n
      apart e =
          let here' : get_elem? m s.collectors ≡ some p = rw e here in
          let same = some-injective q p (sym there ∙ here') in
          cc (ap (λ (c : Pending). c.result) same, open_, done)

  deliver_to-IsSettled :
      (r : CallbackResponse) (k : String) (s : Registry)
      → IsWellFormed s
      → IsSettled n rs s
      → IsSettled n rs (deliver_to r k s)
  unfolding deliver_to collect
  deliver_to-IsSettled r k s inv settled = elim (Option-cases (map_get k s.pending)) [
    | inl unknown ↦ rw (unknown, deliver_to) settled
    | inr (m, known) ↦
        let (q, there, _, open_) = inv.open_entry k m known in
        rw (known, deliver_to)
          (rw there (elim (Bool-cases (leb q.expected (length (push r q).responses))) [
            | inl last ↦
                rw (last, collect)
                  (update-IsSettled (λ c. resolve (push r c)) m q s (map_delete q.key s.pending)
                    there open_ settled)
            | inr more ↦
                rw (more, collect) (update-IsSettled (push r) m q s s.pending there open_ settled)
          ]))
  ]

  route-IsSettled :
      (base_action transaction_id : String) (r : CallbackResponse) (s : Registry)
      → IsWellFormed s
      → IsSettled n rs s
      → IsSettled n rs (route base_action transaction_id r s)
  unfolding route
  route-IsSettled base_action transaction_id r s inv settled =
      elim (Bool-cases (base_action == "" || transaction_id == "")) [
        | inl ignored ↦ rw (ignored, route) settled
        | inr routed ↦ rw (routed, route) (deliver_to-IsSettled r _ s inv settled)
      ]

  step-IsSettled :
      (e : Event) (s : Registry) → IsWellFormed s → IsSettled n rs s → IsSettled n rs (step e s)
  unfolding step fan_out deliver_callback time_out
  step-IsSettled (fanning action transaction_id expected) s inv (p, here, done) =
      (p, get_elem?-append n s.collectors _ p here, done)
  step-IsSettled (callback envelope) s inv settled = route-IsSettled _ _ _ s inv settled
  step-IsSettled (window_end m) s inv settled = elim (Option-cases (get_elem? m s.collectors)) [
    | inl missing ↦ rw (missing, time_out) settled
    | inr (q, there) ↦ elim (Option-cases q.result) [
      | inl open_ ↦
          rw (there, time_out)
            (rw open_
              (update-IsSettled resolve m q s (map_delete q.key s.pending) there open_ settled))
      | inr (qs, done) ↦ rw (there, time_out) (rw done settled)
    ]
  ]

  pub steps-IsSettled_from :
      (es : List Event) (s : Registry)
      → IsWellFormed s
      → IsSettled n rs s
      → IsSettled n rs (steps es s)
  unfolding steps
  steps-IsSettled_from [] s inv settled = settled
  steps-IsSettled_from (e ∷ es) s inv settled =
      steps-IsSettled_from es (step e s) (step-IsWellFormed e s inv)
        (step-IsSettled e s inv settled)

-- A fan-out settles once: from the empty registry, what the promise of a fan-out was resolved with
-- after some events it holds after any further events, whatever callbacks arrive and windows end.
pub steps-IsSettled :
    (before later : List Event) (n : ℕ) (rs : List CallbackResponse)
    → IsSettled n rs (steps before empty)
    → IsSettled n rs (steps later (steps before empty))
steps-IsSettled before later n rs settled =
    steps-IsSettled_from n rs later _ (steps-IsWellFormed before empty empty-IsWellFormed) settled

deliver_to-untouched :
    (r : CallbackResponse) (k : String) (j : ℕ) (p : Pending) (s : Registry)
    → IsWellFormed s
    → get_elem? j s.collectors ≡ some p
    → p.key ≢ k
    → get_elem? j (deliver_to r k s).collectors ≡ some p
unfolding deliver_to collect
deliver_to-untouched r k j p s inv here other = elim (Option-cases (map_get k s.pending)) [
  | inl unknown ↦ rw (unknown, deliver_to) here
  | inr (m, known) ↦
      let (q, there, mine, _) = inv.open_entry k m known in
      let apart : m ≢ j = λ e. other (sym (same_key m j q p s.collectors there here e) ∙ mine) in
      rw (known, deliver_to)
        (rw there (elim (Bool-cases (leb q.expected (length (push r q).responses))) [
          | inl last ↦
              rw (last, collect)
                (get_elem?-update_others (λ c. resolve (push r c)) m j s.collectors apart ∙ here)
          | inr more ↦
              rw (more, collect) (get_elem?-update_others (push r) m j s.collectors apart ∙ here)
        ]))
]

-- A callback reaches no fan-out but that of its transaction and action: from the empty registry,
-- after any events, a collector with another key is left as it is.
pub deliver_to-others :
    (es : List Event) (r : CallbackResponse) (k : String) (j : ℕ) (p : Pending)
    → get_elem? j (steps es empty).collectors ≡ some p
    → p.key ≢ k
    → get_elem? j (deliver_to r k (steps es empty)).collectors ≡ some p
deliver_to-others es r k j p here other =
    deliver_to-untouched r k j p (steps es empty) (steps-IsWellFormed es empty empty-IsWellFormed)
      here other

-- After the window of an open collector has ended, a callback with its key is ignored, even when a
-- later fan-out with the same key stands in the map and waits for it: the timer takes out the key and
-- not the collector that it belongs to.
pub time_out-forgets :
    (r : CallbackResponse) (n : ℕ) (p : Pending) (s : Registry)
    → get_elem? n s.collectors ≡ some p
    → p.result ≡ none
    → deliver_to r p.key (time_out n s) ≡ time_out n s
unfolding deliver_to time_out
time_out-forgets r n p s here open_ =
    let gone : map_get p.key (map_delete p.key s.pending) ≡ none =
      rw (map_get-map_delete, eq_refl p.key) refl in
    rw (here, time_out) (rw open_ (rw (gone, deliver_to) refl))
