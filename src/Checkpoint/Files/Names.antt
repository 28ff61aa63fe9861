-- ===== src/Checkpoint/Files/Names.antt =====
-- pkg/checkpoint/storage.go: the names of a checkpoint's files, as text. `fileName` writes the name of
-- a state file. No two of the files that are written share a name.
use Prim.Native.Char.{code}
use text.Mathlib.TextEquality.{Char-path}
use mathlib.Core.List.{append_cancel_right}
use tidemark.Prelude.{
  ℕ, ◌≡◌, refl, sym, ap, ◌∙◌, String, List, [], ◌∷◌, ◌++◌, All, All-split, some, arith,
}
use tidemark.Checkpoint.Keys.{SubtaskKey}
use tidemark.Checkpoint.Framing.{bytes_of}
use tidemark.Checkpoint.Decimal.{format_nat, parse_nat}
use tidemark.Checkpoint.Decimal.RoundTrip.{IsDigit, format_nat-IsDigit, parse_nat-format_nat}
use tidemark.Checkpoint.Files.{FileName, state_file, metadata_name, complete_name, temp}

-- ".state", ".tmp", "_METADATA" and "_COMPLETE".
abbrev pub state_suffix : List ℕ
state_suffix = 46 ∷ 115 ∷ 116 ∷ 97 ∷ 116 ∷ 101 ∷ []

abbrev pub temp_suffix : List ℕ
temp_suffix = 46 ∷ 116 ∷ 109 ∷ 112 ∷ []

unfoldable pub file_name : SubtaskKey → List ℕ
file_name k = (bytes_of k.vertex_id ++ (45 ∷ format_nat k.index)) ++ state_suffix

unfoldable pub render : FileName → List ℕ
unfolding file_name
render (state_file k) = file_name k
render metadata_name = bytes_of "_METADATA"
render complete_name = bytes_of "_COMPLETE"
render (temp n) = render n ++ temp_suffix

bytes_of-injective : (s t : String) → bytes_of s ≡ bytes_of t → s ≡ t
unfolding bytes_of
bytes_of-injective String.[] String.[] e = refl
bytes_of-injective String.[] (String.◌∷◌ c t) e = absurd (cc)
bytes_of-injective (String.◌∷◌ c s) String.[] e = absurd (cc)
bytes_of-injective (String.◌∷◌ c s) (String.◌∷◌ d t) e =
    let same : code c ≡ code d = cc in
    let rest : bytes_of s ≡ bytes_of t = cc in
    rw (Char-path c d same, bytes_of-injective s t rest) refl

-- The last dash splits the name.
split_at_dash :
    (xs ys ds es : List ℕ)
    → All IsDigit ds
    → All IsDigit es
    → xs ++ (45 ∷ ds) ≡ ys ++ (45 ∷ es)
    → (xs ≡ ys) × (ds ≡ es)
split_at_dash [] [] ds es hd he e = (refl, cc)
split_at_dash [] (y ∷ ys) ds es hd he e =
    let f : ds ≡ ys ++ (45 ∷ es) = cc in
    absurd (omega (arith, (All-split IsDigit ys (45 ∷ es) (rw f at hd)).1.0))
split_at_dash (x ∷ xs) [] ds es hd he e =
    let f : es ≡ xs ++ (45 ∷ ds) = cc in
    absurd (omega (arith, (All-split IsDigit xs (45 ∷ ds) (rw f at he)).1.0))
split_at_dash (x ∷ xs) (y ∷ ys) ds es hd he e =
    let (p, q) = split_at_dash xs ys ds es hd he (cc) in
    let first : x ≡ y = cc in (rw (first, p) refl, q)

pub file_name-injective : (a b : SubtaskKey) → file_name a ≡ file_name b → a ≡ b
unfolding file_name
file_name-injective a b e =
    let (p, q) =
      split_at_dash (bytes_of a.vertex_id) (bytes_of b.vertex_id) (format_nat a.index)
        (format_nat b.index) (format_nat-IsDigit a.index) (format_nat-IsDigit b.index)
        (append_cancel_right _ _ state_suffix e) in
    let id : a.vertex_id ≡ b.vertex_id = bytes_of-injective a.vertex_id b.vertex_id p in
    let some_index : some a.index ≡ some b.index =
      sym (parse_nat-format_nat a.index) ∙ ap parse_nat q ∙ parse_nat-format_nat b.index in
    let index : a.index ≡ b.index = cc in λ i. record { vertex_id = id i; index = index i }

-- The last character.
last : ℕ → List ℕ → ℕ
last d [] = d
last d (x ∷ xs) = last x xs

last-append : (d : ℕ) (xs : List ℕ) (y : ℕ) (ys : List ℕ) → last d (xs ++ (y ∷ ys)) ≡ last y ys
unfolding last
last-append d [] y ys = refl
last-append d (x ∷ xs) y ys = last-append x xs y ys

-- What the names of each kind end in.
ending : FileName → ℕ
ending (state_file k) = 101
ending metadata_name = 65
ending complete_name = 69
ending (temp n) = 112

last-render : (n : FileName) → last 0 (render n) ≡ ending n
unfolding render ending last bytes_of
last-render (state_file k) = last-append 0 (bytes_of k.vertex_id ++ (45 ∷ format_nat k.index)) 46 _
last-render metadata_name = refl
last-render complete_name = refl
last-render (temp n) = last-append 0 (render n) 46 _

same_ending : (a b : FileName) → render a ≡ render b → ending a ≡ ending b
same_ending a b e = sym (last-render a) ∙ ap (last 0) e ∙ last-render b

-- Two names of files are written alike only if they are the same name: of two subtasks whose IDs may
-- hold dashes and digits, of the metadata, of the marker, or of a temporary file for any of these.
pub render-injective : (a b : FileName) → render a ≡ render b → a ≡ b
unfolding render ending
render-injective (state_file k) (state_file j) e = ap state_file (file_name-injective k j e)
render-injective (temp m) (temp n) e =
    ap temp (render-injective m n (append_cancel_right (render m) (render n) temp_suffix e))
render-injective metadata_name metadata_name e = refl
render-injective complete_name complete_name e = refl
render-injective a b e = absurd (omega (arith, same_ending a b e))
