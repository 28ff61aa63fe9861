-- ===== src/Transport/Routing.antt =====
-- pkg/transport/writer.go: a record goes to one output of every group, chosen by its key alone, and
-- everything else goes to every output.
use native.Mathlib.Nat.{mod-lt}
use mathlib.Core.Path.{fun_ext}
use tidemark.Prelude.{
  ℕ, zero, suc, ◌+◌, ◌≡◌, ◌≢◌, ◌<◌, ◌%◌, refl, sym, ap, ◌∙◌, Option, none, some, List, [], ◌∷◌,
  ◌++◌, length, get_elem?, Option-cases, inl, inr, arith,
}
use tidemark.Core.{Record, StreamElement, record_element}
use tidemark.Transport.{
  and_then, fnv1a, Outputs, Writer, new_writer, count_outputs, emit_groups, wrap_error, emit_keyed,
  emit_record, broadcast_group, broadcast_groups, close_group, close_groups,
}

-- An output: its group and its place.
abbrev pub Output : Type 0
Output = ℕ × ℕ

-- The output that a hash selects in each group, from group `i` on.
unfoldable pub routes : ℕ → ℕ → List ℕ → List Output
routes h i [] = []
routes h i (n ∷ ns) = (i, h % n) ∷ routes h (suc i) ns

unfoldable pub outputs_of : ℕ → ℕ → ℕ → List Output
outputs_of i j zero = []
outputs_of i j (suc n) = (i, j) ∷ outputs_of i (suc j) n

-- Every output of every group, from group `i` on.
unfoldable pub every_output : ℕ → List ℕ → List Output
unfolding outputs_of
every_output i [] = []
every_output i (n ∷ ns) = outputs_of i 0 n ++ every_output (suc i) ns

and_then_assoc {ℓ κ} :
    {E : Type ℓ} {S : Type κ} (o : Option E × S) (f g : S → Option E × S)
    → and_then o (λ s. and_then (f s) g) ≡ and_then (and_then o f) g
and_then_assoc (none, s) f g = refl
and_then_assoc (some x, s) f g = refl

module _ (O : Outputs) where
  open O use {State, SendError, send, close}

  -- Sends one element to outputs in order, up to the first error.
  unfoldable pub send_to : List Output → StreamElement → State → Option SendError × State
  send_to [] e s = (none, s)
  send_to ((i, j) ∷ os) e s = and_then (send i j e s) (λ t. send_to os e t)

  unfoldable pub close_each : List Output → State → State
  close_each [] s = s
  close_each ((i, j) ∷ os) s = close_each os (close i j s)

  -- What follows a list of outputs is sent to if none of the list fails.
  send_to-append :
      (os ps : List Output) (e : StreamElement) (s : State)
      → send_to (os ++ ps) e s ≡ and_then (send_to os e s) (λ t. send_to ps e t)
  unfolding send_to
  send_to-append [] ps e s = refl
  send_to-append ((i, j) ∷ os) ps e s =
      ap (and_then (send i j e s)) (fun_ext (λ t. send_to-append os ps e t))
      ∙ and_then_assoc (send i j e s) (λ t. send_to os e t) (λ t. send_to ps e t)

  emit_groups-send_to :
      (i : ℕ) (ns : List ℕ) (h : ℕ) (e : StreamElement) (s : State)
      → emit_groups O i ns h e s ≡ send_to (routes h i ns) e s
  unfolding emit_groups send_to routes
  emit_groups-send_to i [] h e s = refl
  emit_groups-send_to i (n ∷ ns) h e s =
      ap (and_then (send i (h % n) e s)) (fun_ext (λ t. emit_groups-send_to (suc i) ns h e t))

  broadcast_group-send_to :
      (i j n : ℕ) (e : StreamElement) (s : State)
      → broadcast_group O i j n e s ≡ send_to (outputs_of i j n) e s
  unfolding broadcast_group send_to outputs_of
  broadcast_group-send_to i j zero e s = refl
  broadcast_group-send_to i j (suc n) e s =
      ap (and_then (send i j e s)) (fun_ext (λ t. broadcast_group-send_to i (suc j) n e t))

  pub broadcast_groups-send_to :
      (i : ℕ) (ns : List ℕ) (e : StreamElement) (s : State)
      → broadcast_groups O i ns e s ≡ send_to (every_output i ns) e s
  unfolding broadcast_groups every_output send_to
  broadcast_groups-send_to i [] e s = refl
  broadcast_groups-send_to i (n ∷ ns) e s =
      ap (and_then (broadcast_group O i 0 n e s))
        (fun_ext (λ t. broadcast_groups-send_to (suc i) ns e t))
      ∙ ap (λ o. and_then o (λ t. send_to (every_output (suc i) ns) e t))
          (broadcast_group-send_to i 0 n e s)
      ∙ sym (send_to-append (outputs_of i 0 n) (every_output (suc i) ns) e s)

  close_each-append :
      (os ps : List Output) (s : State) → close_each (os ++ ps) s ≡ close_each ps (close_each os s)
  unfolding close_each
  close_each-append [] ps s = refl
  close_each-append ((i, j) ∷ os) ps s = close_each-append os ps (close i j s)

  close_group-close_each :
      (i j n : ℕ) (s : State) → close_group O i j n s ≡ close_each (outputs_of i j n) s
  unfolding close_group close_each outputs_of
  close_group-close_each i j zero s = refl
  close_group-close_each i j (suc n) s = close_group-close_each i (suc j) n (close i j s)

  pub close_groups-close_each :
      (i : ℕ) (ns : List ℕ) (s : State) → close_groups O i ns s ≡ close_each (every_output i ns) s
  unfolding close_groups every_output close_each
  close_groups-close_each i [] s = refl
  close_groups-close_each i (n ∷ ns) s =
      close_groups-close_each (suc i) ns (close_group O i 0 n s)
      ∙ ap (close_each (every_output (suc i) ns)) (close_group-close_each i 0 n s)
      ∙ sym (close_each-append (outputs_of i 0 n) (every_output (suc i) ns) s)

new_writer-groups : (gs : List ℕ) (w : Writer) → new_writer gs ≡ some w → w.groups ≡ gs
unfolding new_writer
new_writer-groups gs w h = elim (Option-cases (count_outputs gs)) [
  | inl e ↦ absurd (ground (arith, rw (e, new_writer) at h))
  | inr (k, e) ↦ ground (arith, rw (e, new_writer) at h)
]

-- No group of a writer is empty.
count_outputs_pos :
    (gs : List ℕ) (k i n : ℕ) → count_outputs gs ≡ some k → get_elem? gs i ≡ some n → 0 < n
unfolding count_outputs
count_outputs_pos [] k i n h g = absurd (ground arith)
count_outputs_pos (m ∷ ms) k zero n h g = elim (Option-cases (count_outputs ms)) [
  | inl e ↦ absurd (ground (arith, rw e at h))
  | inr (x, e) ↦ ground (arith, rw e at h)
]
count_outputs_pos (m ∷ ms) k (suc i) n h g = elim (Option-cases (count_outputs ms)) [
  | inl e ↦ absurd (ground (arith, rw e at h))
  | inr (x, e) ↦ count_outputs_pos ms x i n e g
]

new_writer_pos :
    (gs : List ℕ) (w : Writer) (i n : ℕ) → new_writer gs ≡ some w → get_elem? gs i ≡ some n → 0 < n
unfolding new_writer
new_writer_pos gs w i n h g = elim (Option-cases (count_outputs gs)) [
  | inl e ↦ absurd (ground (arith, rw (e, new_writer) at h))
  | inr (k, e) ↦ count_outputs_pos gs k i n e g
]

length-routes : (h a : ℕ) (gs : List ℕ) → length (routes h a gs) ≡ length gs
unfolding routes
length-routes h a [] = refl
length-routes h a (n ∷ ns) = ap suc (length-routes h (suc a) ns)

get_elem?-routes :
    (h a : ℕ) (gs : List ℕ) (i n : ℕ)
    → get_elem? gs i ≡ some n
    → get_elem? (routes h a gs) i ≡ some (a + i, h % n)
unfolding routes
get_elem?-routes h a [] i n g = absurd (ground arith)
get_elem?-routes h a (m ∷ ms) zero n g = ground (arith, g)
get_elem?-routes h a (m ∷ ms) (suc i) n g =
    get_elem?-routes h (suc a) ms i n g ∙ ap (λ x. some (x, h % n)) (omega arith)

emit_keyed-send_to :
    (O : Outputs) (w : Writer) (r : Record) (s : O.State) (gs k : List ℕ)
    → k ≢ []
    → emit_keyed O w r s gs k
      ≡ wrap_error O (send_to O (routes (fnv1a r.key) 0 gs) (record_element r) s)
unfolding emit_keyed
emit_keyed-send_to O w r s [] k ne = unfold wrap_error send_to routes in refl
emit_keyed-send_to O w r s (n ∷ ns) [] ne = absurd (ne refl)
emit_keyed-send_to O w r s (n ∷ ns) (c ∷ cs) ne =
    ap (wrap_error O) (emit_groups-send_to O 0 (n ∷ ns) (fnv1a r.key) (record_element r) s)

-- A record with a key is sent to outputs in the order of the groups, up to the first error: of each
-- group to exactly one, that of the key's hash modulo the size of the group, which is in it.
pub emit_record_lem :
    (O : Outputs) (gs : List ℕ) (w : Writer) (r : Record) (s : O.State)
    → new_writer gs ≡ some w
    → r.key ≢ []
    → let h = fnv1a r.key in
      (emit_record O w r s ≡ wrap_error O (send_to O (routes h 0 gs) (record_element r) s))
      × (length (routes h 0 gs) ≡ length gs)
      × ((i n : ℕ)
          → get_elem? gs i ≡ some n
          → (get_elem? (routes h 0 gs) i ≡ some (i, h % n)) × (h % n < n))
unfolding emit_record
emit_record_lem O gs w r s made ne =
    let h = fnv1a r.key in
    (
      emit_keyed-send_to O w r s w.groups r.key ne
          ∙ ap (λ ns. wrap_error O (send_to O (routes h 0 ns) (record_element r) s))
              (new_writer-groups gs w made),
      length-routes h 0 gs,
      λ i n g. (
        get_elem?-routes h 0 gs i n g ∙ ap (λ x. some (x, h % n)) (omega arith),
        mod-lt h (new_writer_pos gs w i n made g),
      ),
    )
