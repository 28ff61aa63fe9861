-- ===== src/Checkpoint/Keys.antt =====
-- pkg/checkpoint/storage.go: the names of subtasks, and the shape of a job that a checkpoint records.
use text.Mathlib.Text.{◌==◌ as str_eq}
use text.Mathlib.TextEquality.{eq_iff}
use tidemark.Prelude.{
  ℕ, zero, suc, ◌≡◌, refl, ap, Bool-cases, ◌↔◌, inl, inr, ℤ, eqb_ℤ, String, Bool, true, false, ◌&&◌,
  ◌||◌, not, List, [], ◌∷◌, ◌++◌, Option, none, some, length, ◌==◌, ==_iff, if◌then◌else◌, arith,
}

pub record SubtaskKey : Type 0 where
  pub vertex_id : String
  pub index : ℕ

-- Equality of the keys of a Go map.
unfoldable pub key_eq : SubtaskKey → SubtaskKey → Bool
key_eq a b = str_eq a.vertex_id b.vertex_id && (a.index == b.index)

pub key_eq_iff : (a b : SubtaskKey) → (key_eq a b ≡ true) ↔ (a ≡ b)
unfolding key_eq
key_eq_iff a b = ground (arith, eq_iff a.vertex_id b.vertex_id)

unfoldable pub contains : List SubtaskKey → SubtaskKey → Bool
contains [] k = false
contains (x ∷ xs) k = key_eq x k || contains xs k

pub record VertexMeta : Type 0 where
  pub id : String
  pub parallelism : ℕ
  pub count : ℤ

pub record Metadata : Type 0 where
  pub vertices : List VertexMeta
  pub seed : ℕ

-- The indices from `i` on of a vertex with `n` subtasks still to name.
unfoldable pub keys_from : String → ℕ → ℕ → List SubtaskKey
keys_from id i zero = []
keys_from id i (suc n) = record { vertex_id = id; index = i } ∷ keys_from id (suc i) n

-- `Metadata.Subtasks`.
unfoldable pub subtasks : List VertexMeta → List SubtaskKey
unfolding keys_from
subtasks [] = []
subtasks (v ∷ vs) = keys_from v.id 0 v.parallelism ++ subtasks vs

pub data MetadataError : Type 0 where
  vertex_count : ℕ → ℕ → MetadataError
  vertex_mismatch : String → String → MetadataError
  parallelism_diff : String → ℕ → ℕ → MetadataError
  count_diff : String → ℤ → ℤ → MetadataError

check_vertices : List VertexMeta → List VertexMeta → Option MetadataError
check_vertices [] ws = none
check_vertices (v ∷ vs) [] = none
check_vertices (v ∷ vs) (w ∷ ws) =
    if not (str_eq v.id w.id)
    then some (vertex_mismatch v.id w.id)
    else if not (v.parallelism == w.parallelism)
    then some (parallelism_diff v.id v.parallelism w.parallelism)
    else if not (eqb_ℤ v.count w.count)
    then some (count_diff v.id v.count w.count)
    else check_vertices vs ws

-- `Metadata.CheckAgainst`; the seed is not compared.
pub check_against : Metadata → Metadata → Option MetadataError
unfolding check_vertices
check_against m want =
    if not (length m.vertices == length want.vertices)
    then some (vertex_count (length m.vertices) (length want.vertices))
    else check_vertices m.vertices want.vertices

check_vertices-none :
    (vs ws : List VertexMeta) → length vs ≡ length ws → (check_vertices vs ws ≡ none) ↔ (vs ≡ ws)
unfolding check_vertices
check_vertices-none [] [] h = (λ _. refl, λ _. refl)
check_vertices-none [] (w ∷ ws) h = absurd (omega arith)
check_vertices-none (v ∷ vs) [] h = absurd (omega arith)
check_vertices-none (v ∷ vs) (w ∷ ws) h =
    let ih = check_vertices-none vs ws (omega arith) in
    (λ e. ground (arith, e, ih, eq_iff v.id w.id), λ e. ground (arith, e, ih, eq_iff v.id w.id))

-- A checkpoint is accepted for a job exactly when the two have the same vertices in the same order,
-- each with the same ID, parallelism and count.
pub check_against_lem :
    (m want : Metadata) → (check_against m want ≡ none) ↔ (m.vertices ≡ want.vertices)
unfolding check_against
check_against_lem m want = elim (Bool-cases (length m.vertices == length want.vertices)) [
  | inl e ↦ rw e (check_vertices-none m.vertices want.vertices ((==_iff _ _).0 e))
  | inr e ↦ rw e (
    (λ h. absurd (ground arith)),
    (λ p. absurd (ground (arith, (==_iff _ _).1 (ap (λ vs. length vs) p), e))),
  )
]
