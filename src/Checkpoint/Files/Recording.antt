-- ===== src/Checkpoint/Files/Recording.antt =====
-- pkg/checkpoint/storage.go: what `Complete` does to a file system. `recorder` is one that passes
-- every call on and keeps a log of it, with whether it succeeded.
use mathlib.Core.Option
use tidemark.Prelude.{
  ◌≡◌, refl, sym, subst, ◌∙◌, Bool, true, false, Option, none, some, List, [], ◌∷◌, ◌++◌,
  if◌then◌else◌, Bool-cases, append_assoc, inl, inr, Option-cases,
}
use tidemark.Checkpoint.Files.{
  complete_name, FilePath, Op, rename, FileSystem, Outcome, and_then, on_error,
}

abbrev pub Log : Type 0
Log = List (Op × Bool)

succeeded : {E : Type 0} → Option E → Bool
succeeded none = true
succeeded (some e) = false

unfoldable pub logged : {E D : Type 0} → Op → Log → Outcome E D → Outcome E (D × Log)
unfolding succeeded
logged op log (none, d) = (none, (d, log ++ ((op, true) ∷ [])))
logged op log (some e, d) = (some e, (d, log ++ ((op, false) ∷ [])))

abbrev pub recorder : FileSystem → FileSystem
recorder F = record {
  Disk = F.Disk × Log;
  FsError = F.FsError;
  perform = λ op s. logged op s.1 (F.perform op s.0);
  read_file = λ s p. F.read_file s.0 p;
}

unfoldable pub is_marker : FilePath → Bool
is_marker p = elim p.name [ complete_name ↦ true | _ ↦ false ]

-- Whether a call puts the marker in place.
unfoldable pub puts_marker : Op → Bool
unfolding is_marker
puts_marker (rename a b) = is_marker b
puts_marker op = false

-- What stood in the log before the first call that puts the marker in place.
unfoldable pub before_marker : Log → Option Log
before_marker [] = none
before_marker ((op, b) ∷ log) =
    let rest = Option.map (λ l. (op, b) ∷ l) (before_marker log) in
    if puts_marker op then some [] else rest

map-none : (f : Log → Log) (o : Option Log) → Option.map f o ≡ none → o ≡ none
map-none f none h = refl
map-none f (some l) h = absurd (cc)

map-map :
    (x : Op × Bool) (log : Log) (o : Option Log)
    → Option.map (λ l. x ∷ l) (Option.map (λ l. log ++ l) o) ≡ Option.map (λ l. x ∷ (log ++ l)) o
map-map x log none = refl
map-map x log (some l) = refl

pub before_marker-append :
    (log l : Log)
    → before_marker log ≡ none
    → before_marker (log ++ l) ≡ Option.map (λ x. log ++ x) (before_marker l)
unfolding before_marker
before_marker-append [] l h = elim (Option-cases (before_marker l)) [
  | inl e ↦ rw e refl
  | inr (x, e) ↦ rw e refl
]
before_marker-append ((op, b) ∷ log) l h = elim (Bool-cases (puts_marker op)) [
  | inl e ↦ absurd (cc (rw e at h))
  | inr e ↦
      let quiet : before_marker log ≡ none = map-none _ (before_marker log) (rw e at h) in
      rw (e, before_marker-append log l quiet) (map-map (op, b) log (before_marker l))
]

pub still_quiet :
    (op : Op) (b : Bool) (l : Log)
    → puts_marker op ≡ false
    → before_marker l ≡ none
    → before_marker (l ++ ((op, b) ∷ [])) ≡ none
unfolding before_marker
still_quiet op b l h quiet = before_marker-append l ((op, b) ∷ []) quiet ∙ rw h refl

-- The first call of a sequence, with what follows it.
pub first_cases {ℓ} :
    {E D : Type 0} (P : Outcome E (D × Log) → Type ℓ) (op : Op) (log : Log) (x : Outcome E D)
    (k : D × Log → Outcome E (D × Log))
    → ((d : D) → P (k (d, log ++ ((op, true) ∷ []))))
    → ((e : E) (d : D) → P (some e, (d, log ++ ((op, false) ∷ []))))
    → P (and_then (logged op log x) k)
unfolding logged
first_cases P op log (none, d) k good bad = good d
first_cases P op log (some e, d) k good bad = bad e d

-- A later one, which cleans up if it fails.
pub later_cases {ℓ} :
    {E D : Type 0} (P : Outcome E (D × Log) → Type ℓ) (op : Op) (log l : Log) (x : Outcome E D)
    (undo : D × Log → D × Log) (k : D × Log → Outcome E (D × Log))
    → ((d : D) → P (k (d, log ++ (l ++ ((op, true) ∷ [])))))
    → ((e : E) (d : D) → P (some e, undo (d, log ++ (l ++ ((op, false) ∷ [])))))
    → P (and_then (on_error (logged op (log ++ l) x) undo) k)
unfolding logged
later_cases P op log l (none, d) undo k good bad =
    subst (λ c. P (k (d, c))) (sym (append_assoc log l ((op, true) ∷ []))) (good d)
later_cases P op log l (some e, d) undo k good bad =
    subst (λ c. P (some e, undo (d, c))) (sym (append_assoc log l ((op, false) ∷ []))) (bad e d)

-- A later one that cleans up nothing.
pub last_cases {ℓ} :
    {E D : Type 0} (P : Outcome E (D × Log) → Type ℓ) (op : Op) (log l : Log) (x : Outcome E D)
    (k : D × Log → Outcome E (D × Log))
    → ((d : D) → P (k (d, log ++ (l ++ ((op, true) ∷ [])))))
    → ((e : E) (d : D) → P (some e, (d, log ++ (l ++ ((op, false) ∷ [])))))
    → P (and_then (logged op (log ++ l) x) k)
unfolding logged
last_cases P op log l (none, d) k good bad =
    subst (λ c. P (k (d, c))) (sym (append_assoc log l ((op, true) ∷ []))) (good d)
last_cases P op log l (some e, d) k good bad =
    subst (λ c. P (some e, (d, c))) (sym (append_assoc log l ((op, false) ∷ []))) (bad e d)

-- A call whose outcome is dropped.
pub dropped {ℓ} :
    {E D : Type 0} (P : D × Log → Type ℓ) (op : Op) (log l : Log) (x : Outcome E D)
    → puts_marker op ≡ false
    → before_marker l ≡ none
    → ((d : D) (l' : Log) → before_marker l' ≡ none → P (d, log ++ l'))
    → P (logged op (log ++ l) x).1
unfolding logged
dropped P op log l (none, d) h quiet keep =
    subst (λ c. P (d, c)) (sym (append_assoc log l ((op, true) ∷ [])))
      (keep d (l ++ ((op, true) ∷ [])) (still_quiet op true l h quiet))
dropped P op log l (some e, d) h quiet keep =
    subst (λ c. P (d, c)) (sym (append_assoc log l ((op, false) ∷ [])))
      (keep d (l ++ ((op, false) ∷ [])) (still_quiet op false l h quiet))
