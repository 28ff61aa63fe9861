-- ===== src/Graph/Edges.antt =====
-- pkg/graph/graph.go: what holds of every graph that AddVertex and Connect build.
use text.Mathlib.Text.{◌==◌ as str_eq}
use text.Mathlib.TextEquality.{eq_iff}
use tidemark.Prelude.{
  ℕ, suc, ◌+◌, ◌≡◌, ◌≤◌, ◌<◌, refl, sym, ap, ◌∙◌, subst, Bool, true, false, ◌&&◌, List, [], ◌∷◌,
  ◌++◌, String, if◌then◌else◌, Bool-cases, inl, inr, arith,
}
use tidemark.Graph.{
  Vertex, Graph, new_graph, has_vertex, contains_id, add_vertex, add_edge, connect,
}

-- One call on a graph, and any number of them.
pub data Change : Type 0 where
  adds : Vertex → Change
  connects : String → String → Change

unfoldable pub change : Graph → Change → Graph
change g (adds v) = (add_vertex v g).1
change g (connects a b) = (connect a b g).1

unfoldable pub build : Graph → List Change → Graph
build g [] = g
build g (c ∷ cs) = build (change g c) cs

unfoldable pub count_id : List String → String → ℕ
count_id [] id = 0
count_id (x ∷ xs) id = let n = count_id xs id in if str_eq x id then suc n else n

unfoldable pub count_vertex : List Vertex → String → ℕ
count_vertex [] id = 0
count_vertex (v ∷ vs) id = let n = count_vertex vs id in if str_eq v.id id then suc n else n

-- Edges join vertices, `out` and `in` agree, no edge is there twice, and IDs are unique and not empty.
pub record GraphInv (g : Graph) : Type 0 where
  pub joined :
      (a b : String)
      → 0 < count_id (g.out a) b
      → (has_vertex g.vertices a ≡ true) × (has_vertex g.vertices b ≡ true)
  pub mirrored : (a b : String) → count_id (g.out a) b ≡ count_id (g.in_edges b) a
  pub single : (a b : String) → count_id (g.out a) b ≤ 1
  pub unique : (id : String) → count_vertex g.vertices id ≤ 1
  pub named : has_vertex g.vertices "" ≡ false

count_id-append :
    (xs : List String) (x id : String)
    → count_id (xs ++ x ∷ []) id ≡ count_id xs id + (if str_eq x id then 1 else 0)
unfolding count_id
count_id-append [] x id = ground arith
count_id-append (y ∷ ys) x id = ground (arith, count_id-append ys x id)

count_id_absent : (xs : List String) (id : String) → contains_id xs id ≡ false → count_id xs id ≡ 0
unfolding count_id contains_id
count_id_absent [] id h = refl
count_id_absent (x ∷ xs) id h = ground (arith, h, count_id_absent xs id)

count_vertex_absent :
    (vs : List Vertex) (id : String) → has_vertex vs id ≡ false → count_vertex vs id ≡ 0
unfolding count_vertex has_vertex
count_vertex_absent [] id h = refl
count_vertex_absent (v ∷ vs) id h = ground (arith, h, count_vertex_absent vs id)

-- Whether two edges have the same ends.
abbrev same_edge : String → String → String → String → Bool
same_edge a b x y = str_eq a x && str_eq b y

add_edge-out :
    (a b : String) (g : Graph) (x y : String)
    → count_id ((add_edge a b g).out x) y
      ≡ count_id (g.out x) y + (if same_edge a b x y then 1 else 0)
add_edge-out a b g x y = ground (arith, count_id-append (g.out x) b y)

add_edge-in :
    (a b : String) (g : Graph) (x y : String)
    → count_id ((add_edge a b g).in_edges y) x
      ≡ count_id (g.in_edges y) x + (if same_edge a b x y then 1 else 0)
add_edge-in a b g x y = ground (arith, count_id-append (g.in_edges y) a x)

add_edge-GraphInv :
    (a b : String) (g : Graph)
    → has_vertex g.vertices a ≡ true
    → has_vertex g.vertices b ≡ true
    → contains_id (g.out a) b ≡ false
    → GraphInv g
    → GraphInv (add_edge a b g)
add_edge-GraphInv a b g ha hb new v = record {
  joined = λ x y lt. elim (Bool-cases (same_edge a b x y)) [
    | inl e ↦ (
      subst (λ z. has_vertex g.vertices z ≡ true) ((eq_iff a x).0 (ground (arith, e))) ha,
      subst (λ z. has_vertex g.vertices z ≡ true) ((eq_iff b y).0 (ground (arith, e))) hb,
    )
    | inr e ↦ v.joined x y (omega (arith, rw e at (add_edge-out a b g x y), lt))
  ];
  mirrored = λ x y.
      add_edge-out a b g x y
      ∙ ap (λ n. n + (if same_edge a b x y then 1 else 0)) (v.mirrored x y)
      ∙ sym (add_edge-in a b g x y);
  single = λ x y. elim (Bool-cases (same_edge a b x y)) [
    | inl e ↦
        let none_yet : count_id (g.out x) y ≡ 0 =
          subst (λ z. count_id (g.out z) y ≡ 0) ((eq_iff a x).0 (ground (arith, e)))
            (subst (λ z. count_id (g.out a) z ≡ 0) ((eq_iff b y).0 (ground (arith, e)))
              (count_id_absent (g.out a) b new)) in
        omega (arith, rw e at (add_edge-out a b g x y), none_yet)
    | inr e ↦ omega (arith, rw e at (add_edge-out a b g x y), v.single x y)
  ];
  unique = v.unique;
  named = v.named;
}

connect-GraphInv : (a b : String) (g : Graph) → GraphInv g → GraphInv (connect a b g).1
unfolding connect
connect-GraphInv a b g v = elim (Bool-cases (has_vertex g.vertices a)) [
  | inr e ↦ rw e v
  | inl ha ↦ elim (Bool-cases (has_vertex g.vertices b)) [
    | inr e ↦ rw (ha, e) v
    | inl hb ↦ elim (Bool-cases (contains_id (g.out a) b)) [
      | inl e ↦ rw (ha, hb, e) v
      | inr e ↦ rw (ha, hb, e) (add_edge-GraphInv a b g ha hb e v)
    ]
  ]
]

-- A vertex with a new ID that is not empty.
push_vertex-GraphInv :
    (x : Vertex) (g : Graph)
    → str_eq x.id "" ≡ false
    → has_vertex g.vertices x.id ≡ false
    → GraphInv g
    → GraphInv (record g { vertices = x ∷ g.vertices })
unfolding has_vertex count_vertex
push_vertex-GraphInv x g ne new v = record {
  joined = λ a b lt. let (p, q) = v.joined a b lt in (ground (arith, p), ground (arith, q));
  mirrored = v.mirrored;
  single = v.single;
  unique = λ id. elim (Bool-cases (str_eq x.id id)) [
    | inl e ↦
        let none_yet : count_vertex g.vertices id ≡ 0 =
          subst (λ z. count_vertex g.vertices z ≡ 0) ((eq_iff x.id id).0 e)
            (count_vertex_absent g.vertices x.id new) in
        rw e (omega (arith, none_yet))
    | inr e ↦ rw e (v.unique id)
  ];
  named = ground (arith, ne, v.named);
}

add_vertex-GraphInv : (x : Vertex) (g : Graph) → GraphInv g → GraphInv (add_vertex x g).1
unfolding add_vertex
add_vertex-GraphInv x g v = elim (Bool-cases (str_eq x.id "")) [
  | inl e ↦ rw e v
  | inr ne ↦ elim (Bool-cases (has_vertex g.vertices x.id)) [
    | inl e ↦ rw (ne, e) v
    | inr e ↦ rw (ne, e) (push_vertex-GraphInv x g ne e v)
  ]
]

change-GraphInv : (g : Graph) (c : Change) → GraphInv g → GraphInv (change g c)
unfolding change
change-GraphInv g (adds x) v = add_vertex-GraphInv x g v
change-GraphInv g (connects a b) v = connect-GraphInv a b g v

build_keeps : (g : Graph) (cs : List Change) → GraphInv g → GraphInv (build g cs)
unfolding build
build_keeps g [] v = v
build_keeps g (c ∷ cs) v = build_keeps (change g c) cs (change-GraphInv g c v)

-- Whatever calls of AddVertex and Connect build a graph, and whichever of them are refused: both ends
-- of every edge are vertices, the inbound and the outbound edges agree, no edge is there twice, no
-- two vertices have one ID and none has the empty ID.
pub build-GraphInv : (cs : List Change) → GraphInv (build new_graph cs)
build-GraphInv cs = build_keeps new_graph cs (
    unfold count_id count_vertex has_vertex in
    record {
      joined = λ a b lt. absurd (omega arith);
      mirrored = λ a b. refl;
      single = λ a b. omega arith;
      unique = λ id. omega arith;
      named = refl;
    })
