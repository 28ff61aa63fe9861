-- ===== src/Transport/Reach.antt =====
-- pkg/transport/writer.go: a broadcast and a close reach every output exactly once.
use tidemark.Prelude.{
  ℕ, zero, suc, ◌+◌, ◌≡◌, ◌<◌, refl, sym, ap, ◌∙◌, List, [], ◌∷◌, ◌++◌, if◌then◌else◌, ◌==◌, ◌&&◌,
  Bool, false, arith, ltb, leb,
}
use tidemark.Core.{StreamElement}
use tidemark.Transport.{Outputs, Writer, broadcast, close_all}
use tidemark.Transport.Routing.{
  Output, outputs_of, every_output, send_to, close_each, broadcast_groups-send_to,
  close_groups-close_each,
}

-- How often output `j` of group `i` stands in a list.
unfoldable pub occurrences : ℕ → ℕ → List Output → ℕ
occurrences i j [] = 0
occurrences i j ((a, b) ∷ os) =
    let n = occurrences i j os in if (a == i) && (b == j) then suc n else n

occurrences-append :
    (i j : ℕ) (os ps : List Output)
    → occurrences i j (os ++ ps) ≡ occurrences i j os + occurrences i j ps
unfolding occurrences
occurrences-append i j [] ps = omega arith
occurrences-append i j ((a, b) ∷ os) ps = ground (arith, occurrences-append i j os ps)

occurrences-outputs_of :
    (a l n i j : ℕ)
    → occurrences i j (outputs_of a l n) ≡ (if (a == i) && (leb l j && ltb j (l + n)) then 1 else 0)
unfolding occurrences outputs_of
occurrences-outputs_of a l zero i j = ground arith
occurrences-outputs_of a l (suc n) i j = ground (arith, occurrences-outputs_of a (suc l) n i j)

-- Whether a writer over these groups has an output `j` in its group `i`.
unfoldable pub has_output : List ℕ → ℕ → ℕ → Bool
has_output [] i j = false
has_output (n ∷ ns) zero j = ltb j n
has_output (n ∷ ns) (suc i) j = has_output ns i j

occurrences_before :
    (a : ℕ) (gs : List ℕ) (i j : ℕ) → i < a → occurrences i j (every_output a gs) ≡ 0
unfolding occurrences every_output
occurrences_before a [] i j lt = refl
occurrences_before a (n ∷ ns) i j lt =
    let e : (a == i) ≡ false = ground arith in
    occurrences-append i j (outputs_of a 0 n) (every_output (suc a) ns)
    ∙ omega (
      arith,
      rw e at (occurrences-outputs_of a 0 n i j),
      occurrences_before (suc a) ns i j (omega arith),
    )

occurrences-every_output :
    (a : ℕ) (gs : List ℕ) (i j : ℕ)
    → occurrences (a + i) j (every_output a gs) ≡ (if has_output gs i j then 1 else 0)
unfolding every_output has_output
occurrences-every_output a [] i j = unfold occurrences in refl
occurrences-every_output a (n ∷ ns) zero j =
    occurrences-append (a + 0) j (outputs_of a 0 n) (every_output (suc a) ns)
    ∙ ground (
      arith,
      occurrences-outputs_of a 0 n (a + 0) j,
      occurrences_before (suc a) ns (a + 0) j (omega arith),
    )
occurrences-every_output a (n ∷ ns) (suc i) j =
    let e : (a == (a + suc i)) ≡ false = ground arith in
    let move : suc a + i ≡ a + suc i = omega arith in
    occurrences-append (a + suc i) j (outputs_of a 0 n) (every_output (suc a) ns)
    ∙ omega (arith, rw e at (occurrences-outputs_of a 0 n (a + suc i) j))
    ∙ (ap (λ x. occurrences x j (every_output (suc a) ns)) (sym move)
        ∙ occurrences-every_output (suc a) ns i j)

-- `Broadcast` sends to the outputs of a writer, up to the first error, and `CloseAll` closes them:
-- each output of each group exactly once, and nothing else.
pub broadcast_lem :
    (O : Outputs) (w : Writer) (e : StreamElement) (s : O.State)
    → let os = every_output 0 w.groups in
      (broadcast O w e s ≡ send_to O os e s)
      × (close_all O w s ≡ close_each O os s)
      × ((i j : ℕ) → occurrences i j os ≡ (if has_output w.groups i j then 1 else 0))
unfolding broadcast close_all
broadcast_lem O w e s = (
  broadcast_groups-send_to O 0 w.groups e s,
  close_groups-close_each O 0 w.groups s,
  λ i j.
      ap (λ x. occurrences x j (every_output 0 w.groups)) (omega arith)
      ∙ occurrences-every_output 0 w.groups i j,
)
