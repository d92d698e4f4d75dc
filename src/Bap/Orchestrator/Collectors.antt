-- ===== src/Bap/Orchestrator/Collectors.antt =====
-- The collectors over any series of events.
use mathlib.Core.Option.{some-injective}
use beckn_data_commons.Base.{
  ℕ, String, ◌||◌, ◌==◌, ◌≡◌, ◌≢◌, ◌⊎◌, inl, inr, refl, sym, ◌∙◌, ap, arith, leb, eqb, length, none,
  some, List, [], ◌∷◌, ◌++◌, get_elem?, update, get_elem?-update, get_elem?-update_others,
  get_elem?-append, get_elem?-last, Bool-cases, Option-cases, eq_iff,
}
use beckn_data_commons.Js.Map.{map_get, map_set, map_delete}
use beckn_data_commons.Js.Map.Laws.{map_get-map_set, map_get-map_delete}
use beckn_data_commons.Json.{Json}
use beckn_data_commons.Bap.Orchestrator.{
  CallbackResponse, Pending, Registry, empty, key_of, collector, fan_out, resolve, push, collect,
  deliver_to, deliver_callback, route, time_out, Event, fanning, callback, window_end, step, steps,
}

-- What the map says of its collectors: they have its key, and their promises are open.
pub record IsWellFormed (s : Registry) : Type 0 where
  pub open_entry :
      (k : String) (n : ℕ)
      → map_get k s.pending ≡ some n
      → (p : Pending) × (get_elem? n s.collectors ≡ some p) × (p.key ≡ k) × (p.result ≡ none)

pub empty-IsWellFormed : IsWellFormed empty
unfolding map_get
empty-IsWellFormed = record { open_entry = λ k n h. cc }

fan_out-IsWellFormed :
    (action transaction_id : String) (expected : ℕ) (s : Registry)
    → IsWellFormed s
    → IsWellFormed (fan_out action transaction_id expected s)
unfolding fan_out
fan_out-IsWellFormed action transaction_id expected s inv = record { open_entry = go }
  where
    go :
        (k : String) (n : ℕ)
        → map_get k (map_set (key_of transaction_id action) (length s.collectors) s.pending)
          ≡ some n
        → (p : Pending) × (get_elem? n
              (s.collectors ++ collector (key_of transaction_id action) expected ∷ [])
            ≡ some p)
          × (p.key ≡ k)
          × (p.result ≡ none)
    go k n h = elim (Bool-cases (key_of transaction_id action == k)) [
      | inl same ↦ (
        collector (key_of transaction_id action) expected,
        rw (some-injective _ _ (sym (rw (map_get-map_set, same) at h)))
            (get_elem?-last s.collectors _),
        (eq_iff (key_of transaction_id action) k).0 same,
        refl,
      )
      | inr other ↦
          let (p, found, mine, open_) = inv.open_entry k n (rw (map_get-map_set, other) at h) in
          (p, get_elem?-append n s.collectors _ p found, mine, open_)
    ]

pub same_key :
    (n m : ℕ) (p q : Pending) (cs : List Pending)
    → get_elem? n cs ≡ some p
    → get_elem? m cs ≡ some q
    → n ≡ m
    → p.key ≡ q.key
same_key n m p q cs here there e =
    let there' : get_elem? n cs ≡ some q = rw e there in
    ap (λ (c : Pending). c.key) (some-injective p q (sym here ∙ there'))

-- A change of one collector, with its key taken out of the map, keeps the others.
without-IsWellFormed :
    (f : Pending → Pending) (n : ℕ) (p : Pending) (s : Registry)
    → IsWellFormed s
    → get_elem? n s.collectors ≡ some p
    → IsWellFormed
        (record { collectors = update f n s.collectors; pending = map_delete p.key s.pending })
without-IsWellFormed f n p s inv here = record { open_entry = go }
  where
    go :
        (k : String) (m : ℕ)
        → map_get k (map_delete p.key s.pending) ≡ some m
        → (q : Pending) × (get_elem? m (update f n s.collectors) ≡ some q)
          × (q.key ≡ k)
          × (q.result ≡ none)
    go k m h = elim (Bool-cases (p.key == k)) [
      | inl gone ↦ cc (rw (map_get-map_delete, gone) at h)
      | inr other ↦
          let (q, found, mine, open_) = inv.open_entry k m (rw (map_get-map_delete, other) at h) in
          (
            q,
            get_elem?-update_others f n m s.collectors (λ e.
                  ground (arith, eq_iff p.key k, same_key n m p q s.collectors here found e, mine))
                ∙ found,
            mine,
            open_,
          )
    ]

eqb-cases : (n m : ℕ) → (n ≡ m) ⊎ (n ≢ m)
eqb-cases n m = elim (Bool-cases (eqb n m)) [
  | inl same ↦ inl (ground arith)
  | inr other ↦ inr (λ e. ground arith)
]

-- A callback that is not the last keeps its collector open.
push-IsWellFormed :
    (r : CallbackResponse) (n : ℕ) (p : Pending) (s : Registry)
    → IsWellFormed s
    → get_elem? n s.collectors ≡ some p
    → IsWellFormed (record s { collectors = update (push r) n s.collectors })
push-IsWellFormed r n p s inv here = record { open_entry = go }
  where
    go :
        (k : String) (m : ℕ)
        → map_get k s.pending ≡ some m
        → (q : Pending) × (get_elem? m (update (push r) n s.collectors) ≡ some q)
          × (q.key ≡ k)
          × (q.result ≡ none)
    go k m h =
        let (q, found, mine, open_) = inv.open_entry k m h in
        elim (eqb-cases n m) [
          | inl same ↦ (
            push r q,
            rw (← same) (get_elem?-update (push r) n s.collectors q (rw same found)),
            mine,
            open_,
          )
          | inr other ↦
              (q, get_elem?-update_others (push r) n m s.collectors other ∙ found, mine, open_)
        ]

deliver_to-IsWellFormed :
    (r : CallbackResponse) (k : String) (s : Registry)
    → IsWellFormed s
    → IsWellFormed (deliver_to r k s)
unfolding deliver_to collect
deliver_to-IsWellFormed r k s inv = elim (Option-cases (map_get k s.pending)) [
  | inl unknown ↦ rw (unknown, deliver_to) inv
  | inr (n, known) ↦ elim (Option-cases (get_elem? n s.collectors)) [
    | inl missing ↦ rw (known, deliver_to) (rw missing inv)
    | inr (p, here) ↦
        rw (known, deliver_to)
          (rw here (elim (Bool-cases (leb p.expected (length (push r p).responses))) [
            | inl last ↦
                rw (last, collect) (without-IsWellFormed (λ q. resolve (push r q)) n p s inv here)
            | inr more ↦ rw (more, collect) (push-IsWellFormed r n p s inv here)
          ]))
  ]
]

pub route-IsWellFormed :
    (base_action transaction_id : String) (r : CallbackResponse) (s : Registry)
    → IsWellFormed s
    → IsWellFormed (route base_action transaction_id r s)
unfolding route
route-IsWellFormed base_action transaction_id r s inv =
    elim (Bool-cases (base_action == "" || transaction_id == "")) [
      | inl ignored ↦ rw (ignored, route) inv
      | inr routed ↦
          rw (routed, route) (deliver_to-IsWellFormed r (key_of transaction_id base_action) s inv)
    ]

deliver_callback-IsWellFormed :
    (envelope : Json) (s : Registry) → IsWellFormed s → IsWellFormed (deliver_callback envelope s)
unfolding deliver_callback
deliver_callback-IsWellFormed envelope s inv = route-IsWellFormed _ _ _ s inv

time_out-IsWellFormed : (n : ℕ) (s : Registry) → IsWellFormed s → IsWellFormed (time_out n s)
unfolding time_out
time_out-IsWellFormed n s inv = elim (Option-cases (get_elem? n s.collectors)) [
  | inl missing ↦ rw (missing, time_out) inv
  | inr (p, here) ↦ elim (Option-cases p.result) [
    | inl open_ ↦ rw (here, time_out) (rw open_ (without-IsWellFormed resolve n p s inv here))
    | inr (rs, done) ↦ rw (here, time_out) (rw done inv)
  ]
]

pub step-IsWellFormed : (e : Event) (s : Registry) → IsWellFormed s → IsWellFormed (step e s)
unfolding step
step-IsWellFormed (fanning action transaction_id expected) s inv =
    fan_out-IsWellFormed action transaction_id expected s inv
step-IsWellFormed (callback envelope) s inv = deliver_callback-IsWellFormed envelope s inv
step-IsWellFormed (window_end n) s inv = time_out-IsWellFormed n s inv

pub steps-IsWellFormed :
    (es : List Event) (s : Registry) → IsWellFormed s → IsWellFormed (steps es s)
unfolding steps
steps-IsWellFormed [] s inv = inv
steps-IsWellFormed (e ∷ es) s inv = steps-IsWellFormed es (step e s) (step-IsWellFormed e s inv)
