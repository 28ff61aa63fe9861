-- ===== src/Runtime/Source/Barriers.antt =====
-- pkg/runtime/source_task.go: after which records a barrier generator asks for a checkpoint.
use native.Mathlib.Nat.{mul-le-mul_right}
use tidemark.Prelude.{
  ℕ, zero, suc, ◌+◌, ◌*◌, ◌≤◌, ◌<◌, ◌≡◌, refl, sym, ap, ◌∙◌, subst, ℤ, pos, ltb, false, Bool-cases,
  inl, inr, arith, Option, none, some, List, [], ◌∷◌, ◌++◌, append-nil, increment-pos, ltb_ℤ, leb_ℤ,
  eqb_ℤ,
}
use tidemark.Runtime.Source.{unbounded_barriers, BarrierGenerator, new_barrier_generator, on_record}

-- The generator after `n` records.
unfoldable pub after_records : ℕ → BarrierGenerator → BarrierGenerator
after_records zero g = g
after_records (suc n) g = (on_record (after_records n g)).1

abbrev pub got_id : Option ℤ → List ℤ
got_id none = []
got_id (some id) = id ∷ []

-- The checkpoint IDs that it asks for over `n` records.
unfoldable pub checkpoint_ids : ℕ → BarrierGenerator → List ℤ
checkpoint_ids zero g = []
checkpoint_ids (suc n) g = checkpoint_ids n g ++ got_id (on_record (after_records n g)).0

-- The IDs 1 to `n`.
unfoldable pub numbered : ℕ → List ℤ
numbered zero = []
numbered (suc n) = numbered n ++ pos (suc n) ∷ []

abbrev pub counting : ℕ → ℕ → ℕ → ℕ → BarrierGenerator
counting k m s j = record {
  interval_elements = pos k;
  max_barriers = pos m;
  since_last = pos s;
  injected = pos j;
}

-- How a generator with a budget counts a record: it is spent, in an interval, or at its end.
on_record_cases {ℓ} :
    (P : Option ℤ × BarrierGenerator → Type ℓ)
    → (k m s j : ℕ) → 0 < k
    → s < 9223372036854775807
    → m ≤ 9223372036854775807
    → (m ≤ j → P (none, counting k m s j))
    → (j < m → suc s < k → P (none, counting k m (suc s) j))
    → (j < m → k ≤ suc s → P (some (pos (suc j)), counting k m 0 (suc j)))
    → P (on_record (counting k m s j))
unfolding on_record
on_record_cases P k m s j kp sl ml spent within due =
    let positive : leb_ℤ (pos k) (pos 0) ≡ false = ground arith in
    let budgeted : eqb_ℤ (pos m) unbounded_barriers ≡ false = ground arith in
    let is = increment-pos s sl in
    elim (Bool-cases (leb_ℤ (pos m) (pos j))) [
      | inl e ↦ rw (positive, budgeted, e) (spent (ground (arith, e)))
      | inr e ↦ elim (Bool-cases (ltb_ℤ (pos (suc s)) (pos k))) [
        | inl f ↦ rw (positive, budgeted, e, is, f) (within (ground (arith, e)) (ground (arith, f)))
        | inr f ↦
            let lt : j < m = ground (arith, e) in
            rw (positive, budgeted, e, is, f, increment-pos j (omega arith))
              (due lt (ground (arith, f)))
      ]
    ]

-- The generator after `n` records and what it has asked for: every `k` records, `m` times at most.
pub record Counted (k m n : ℕ) (g : BarrierGenerator) (ids : List ℤ) : Type 0 where
  pub since : ℕ
  pub asked : ℕ
  pub state : g ≡ counting k m since asked
  pub named : ids ≡ numbered asked
  pub within : asked ≤ m
  pub partial : since < k
  pub running : asked < m → n ≡ asked * k + since
  pub spent : asked ≡ m → m * k ≤ n
  pub rested : asked ≡ m → since ≡ 0

pub after-Counted :
    (k m n : ℕ)
    → 0 < k
    → k ≤ 9223372036854775807
    → m ≤ 9223372036854775807
    → Counted k m n
        (after_records n (new_barrier_generator (pos k) (pos m)))
        (checkpoint_ids n (new_barrier_generator (pos k) (pos m)))
unfolding after_records checkpoint_ids numbered new_barrier_generator
after-Counted k m zero kp kl ml = record {
  since = 0;
  asked = 0;
  state = refl;
  named = refl;
  within = omega arith;
  partial = kp;
  running = λ _. omega arith;
  spent = λ e. omega (arith, ap (λ x. x * k) e);
  rested = λ _. refl;
}
after-Counted k m (suc n) kp kl ml =
    let v = after-Counted k m n kp kl ml in
    let ids = checkpoint_ids n (new_barrier_generator (pos k) (pos m)) in
    subst (λ g. Counted k m (suc n) (on_record g).1 (ids ++ got_id (on_record g).0)) (sym v.state)
      (on_record_cases (λ o. Counted k m (suc n) o.1 (ids ++ got_id o.0)) k m v.since v.asked kp
        (omega (arith, v.partial)) ml
        (λ over. record {
          since = v.since;
          asked = v.asked;
          state = refl;
          named = append-nil ids ∙ v.named;
          within = v.within;
          partial = v.partial;
          running = λ lt. absurd (omega arith);
          spent = λ e. omega (arith, v.spent e);
          rested = v.rested;
        })
        (λ lt more. record {
          since = suc v.since;
          asked = v.asked;
          state = refl;
          named = append-nil ids ∙ v.named;
          within = v.within;
          partial = more;
          running = λ _. omega (arith, v.running lt);
          spent = λ e. absurd (omega arith);
          rested = λ e. absurd (omega arith);
        })
        (λ lt due. record {
          since = 0;
          asked = suc v.asked;
          state = refl;
          named = ap (λ x. x ++ pos (suc v.asked) ∷ []) v.named;
          within = lt;
          partial = kp;
          running = λ _. omega (arith, v.running lt, v.partial);
          spent = λ e. omega (arith, v.running lt, v.partial, ap (λ x. x * k) e);
          rested = λ _. refl;
        }))

ltb-false : (a b : ℕ) → ltb a b ≡ false → b ≤ a
ltb-false a b e = ground (arith, e)

-- A generator that has counted enough records has spent its budget.
pub Counted-spent :
    (k m n : ℕ) (g : BarrierGenerator) (ids : List ℤ)
    → m * k ≤ n
    → Counted k m n g ids
    → ids ≡ numbered m
Counted-spent k m n g ids h v = elim (Bool-cases (ltb v.asked m)) [
  | inl e ↦
      let lt : v.asked < m = ground (arith, e) in
      absurd (omega (arith, h, v.partial, v.running lt, mul-le-mul_right k lt))
  | inr e ↦ v.named ∙ ap numbered (omega (arith, v.within, ltb-false v.asked m e))
]

above_multiple : (k a b : ℕ) → a < b → a * k + k ≤ b * k
above_multiple k a b h = omega (arith, mul-le-mul_right k h)

-- Of `a` intervals and `s` records more, `j` whole intervals leave nothing over.
whole_intervals :
    (k m j a s : ℕ)
    → 0 < k
    → j ≤ m
    → a ≤ m
    → s < k
    → (a < m → j * k ≡ a * k + s)
    → (a ≡ m → m * k ≤ j * k)
    → (a ≡ m → s ≡ 0)
    → (a ≡ j) × (s ≡ 0)
whole_intervals k m j a s kp jm am sk run spent rest = elim (Bool-cases (ltb a j)) [
  | inl e ↦
      let lt : a < j = ground (arith, e) in
      absurd (omega (arith, above_multiple k a j lt, run (omega arith)))
  | inr e ↦ elim (Bool-cases (ltb j a)) [
    | inl f ↦
        let lt : j < a = ground (arith, f) in
        absurd (elim (Bool-cases (ltb a m)) [
          | inl g ↦ omega (arith, above_multiple k j a lt, run (ground (arith, g)))
          | inr g ↦
              let eq : a ≡ m = omega (arith, ltb-false a m g) in
              omega (arith, above_multiple k j a lt, spent eq, ap (λ x. x * k) eq)
        ])
    | inr f ↦
        let eq : a ≡ j = omega (arith, ltb-false a j e, ltb-false j a f) in
        (
          eq,
          elim (Bool-cases (ltb a m)) [
            | inl g ↦ omega (arith, run (ground (arith, g)), ap (λ x. x * k) eq)
            | inr g ↦ rest (omega (arith, ltb-false a m g))
          ],
        )
  ]
]

-- A generator that has counted `j` whole intervals stands right behind its `j`-th barrier.
pub after_records_whole :
    (k m j : ℕ)
    → 0 < k
    → k ≤ 9223372036854775807
    → m ≤ 9223372036854775807
    → j ≤ m
    → after_records (j * k) (new_barrier_generator (pos k) (pos m)) ≡ counting k m 0 j
after_records_whole k m j kp kl ml le =
    let v = after-Counted k m (j * k) kp kl ml in
    let (a, b) =
      whole_intervals k m j v.asked v.since kp le v.within v.partial v.running v.spent v.rested in
    v.state ∙ ap (λ x. counting k m x v.asked) b ∙ ap (counting k m 0) a
