-- ===== src/Checkpoint/Files/Latest.antt =====
-- pkg/checkpoint/storage.go: `Latest`, on a listing of the root directory.
use tidemark.Prelude.{
  ℕ, ◌≡◌, ◌⊎◌, inl, inr, refl, sym, ap, ◌∙◌, subst, ℤ, IsInt64, ltb_ℤ, ◌≤ℤ◌, Bool, true, false, not,
  Option, none, some, List, [], ◌∷◌, ◌++◌, ◌==◌, if◌then◌else◌, Bool-cases, arith,
}
use tidemark.Checkpoint.Decimal.{format_int, parse_int}
use tidemark.Checkpoint.Decimal.RoundTrip.{parse_int-format_int}

-- "chk-".
abbrev pub dir_prefix : List ℕ
dir_prefix = 99 ∷ 104 ∷ 107 ∷ 45 ∷ []

-- The name of a checkpoint's directory, the last part of `dir`.
unfoldable pub dir_name : ℤ → List ℕ
dir_name id = dir_prefix ++ format_int id

-- An entry of the root, with whether os.Stat finds a marker below it.
pub record DirEntry : Type 0 where
  pub is_dir : Bool
  pub name : List ℕ
  pub has_marker : Bool

-- What os.ReadDir returns of the root: it is not there, cannot be read, or has these entries.
pub data Listing : Type 0 where
  absent : Listing
  unreadable : Listing
  entries : List DirEntry → Listing

-- strings.HasPrefix and strings.TrimPrefix.
unfoldable pub strip_prefix : List ℕ → List ℕ → Option (List ℕ)
strip_prefix [] bs = some bs
strip_prefix (p ∷ ps) [] = none
strip_prefix (p ∷ ps) (b ∷ bs) = let rest = strip_prefix ps bs in if p == b then rest else none

parsed : Option (List ℕ) → Option ℤ
parsed none = none
parsed (some bs) = parse_int bs

-- The checkpoint that an entry counts for.
unfoldable pub checkpoint_of : DirEntry → Option ℤ
unfolding parsed
checkpoint_of e =
    if not e.is_dir
    then none
    else let n = parsed (strip_prefix dir_prefix e.name) in if e.has_marker then n else none

-- `best`, while `found`.
newer : Option ℤ → ℤ → Option ℤ
newer none n = some n
newer (some best) n = if ltb_ℤ best n then some n else some best

take_newer : Option ℤ → Option ℤ → Option ℤ
unfolding newer
take_newer best none = best
take_newer best (some n) = newer best n

unfoldable pub scan : Option ℤ → List DirEntry → Option ℤ
unfolding take_newer
scan best [] = best
scan best (e ∷ es) = scan (take_newer best (checkpoint_of e)) es

pub data LatestResult : Type 0 where
  latest_is : Option ℤ → LatestResult
  latest_failed : LatestResult

unfoldable pub latest : Listing → LatestResult
latest absent = latest_is none
latest unreadable = latest_failed
latest (entries es) = latest_is (scan none es)

-- The entry is in the list.
abbrev pub Has : DirEntry → List DirEntry → Type 0
Has e [] = ⊥
Has e (x ∷ xs) = (e ≡ x) ⊎ Has e xs

-- The second is at least the first, where there is a first.
abbrev AtLeast : Option ℤ → Option ℤ → Type 0
AtLeast none o = Unit
AtLeast (some a) none = ⊥
AtLeast (some a) (some b) = a ≤ℤ b

AtLeast-refl : (o : Option ℤ) → AtLeast o o
AtLeast-refl none = tt
AtLeast-refl (some n) = omega arith

AtLeast-trans : (a b c : Option ℤ) → AtLeast a b → AtLeast b c → AtLeast a c
AtLeast-trans none b c h k = tt
AtLeast-trans (some m) none c h k = elim h [ ]
AtLeast-trans (some m) (some l) none h k = elim k [ ]
AtLeast-trans (some m) (some l) (some n) h k = omega (arith, h, k)

take_newer-AtLeast :
    (best n : Option ℤ) → AtLeast best (take_newer best n) × AtLeast n (take_newer best n)
unfolding take_newer newer
take_newer-AtLeast best none = (AtLeast-refl best, tt)
take_newer-AtLeast none (some n) = (tt, omega arith)
take_newer-AtLeast (some b) (some n) = elim (Bool-cases (ltb_ℤ b n)) [
  | inl e ↦ rw e (ground (arith, e), omega arith)
  | inr e ↦ rw e (omega arith, ground (arith, e))
]

-- A step keeps what was best or takes what it is given.
take_newer_source : (best m : Option ℤ) → (take_newer best m ≡ best) ⊎ (take_newer best m ≡ m)
unfolding take_newer newer
take_newer_source best none = inl refl
take_newer_source none (some n) = inr refl
take_newer_source (some b) (some n) = elim (Bool-cases (ltb_ℤ b n)) [
  | inl e ↦ inr (rw e refl)
  | inr e ↦ inl (rw e refl)
]

scan-AtLeast : (best : Option ℤ) (es : List DirEntry) → AtLeast best (scan best es)
unfolding scan
scan-AtLeast best [] = AtLeast-refl best
scan-AtLeast best (e ∷ es) =
    let t = take_newer best (checkpoint_of e) in
    AtLeast-trans best t (scan t es) (take_newer-AtLeast best (checkpoint_of e)).0
      (scan-AtLeast t es)

scan-newest :
    (best : Option ℤ) (es : List DirEntry) (e : DirEntry)
    → Has e es
    → AtLeast (checkpoint_of e) (scan best es)
unfolding scan
scan-newest best [] e h = elim h [ ]
scan-newest best (x ∷ xs) e (inl same) =
    let t = take_newer best (checkpoint_of x) in
    rw same (
      AtLeast-trans (checkpoint_of x) t (scan t xs) (take_newer-AtLeast best (checkpoint_of x)).1
        (scan-AtLeast t xs))
scan-newest best (x ∷ xs) e (inr later) = scan-newest (take_newer best (checkpoint_of x)) xs e later

-- Where the best comes from.
scan-source :
    (best : Option ℤ) (es : List DirEntry) (n : ℤ)
    → scan best es ≡ some n
    → (best ≡ some n) ⊎ ((e : DirEntry) × Has e es × (checkpoint_of e ≡ some n))
unfolding scan
scan-source best [] n h = inl h
scan-source best (x ∷ xs) n h = elim (scan-source (take_newer best (checkpoint_of x)) xs n h) [
  | inr (e, later, c) ↦ inr (e, inr later, c)
  | inl t ↦ elim (take_newer_source best (checkpoint_of x)) [
    | inl kept ↦ inl (sym kept ∙ t)
    | inr taken ↦ inr (x, inl refl, sym taken ∙ t)
  ]
]

strip_own : (ps bs : List ℕ) → strip_prefix ps (ps ++ bs) ≡ some bs
unfolding strip_prefix
strip_own [] bs = refl
strip_own (p ∷ ps) bs = let same : (p == p) ≡ true = ground arith in rw (same, strip_own ps bs) refl

-- The directory of a checkpoint that has its marker.
abbrev pub completed_dir : ℤ → DirEntry
completed_dir id = record { is_dir = true; name = dir_name id; has_marker = true }

checkpoint_of_own : (id : ℤ) → IsInt64 id → checkpoint_of (completed_dir id) ≡ some id
unfolding checkpoint_of parsed dir_name
checkpoint_of_own id h =
    ap parsed (strip_own dir_prefix (format_int id)) ∙ parse_int-format_int id h

-- What may stand in the root: a file, a name that is no checkpoint's, or the directory that `dir`
-- names.
pub data IsExpected (e : DirEntry) : Type 0 where
  plain_file : e.is_dir ≡ false → IsExpected e
  foreign : strip_prefix dir_prefix e.name ≡ none → IsExpected e
  own : (id : ℤ) → IsInt64 id → e.name ≡ dir_name id → IsExpected e

own_dir :
    (b : Bool) (bs : List ℕ) (m : Bool) (n : ℤ)
    → b ≡ true
    → m ≡ true
    → bs ≡ dir_name n
    → ◌≡◌ {A = DirEntry} (record { is_dir = b; name = bs; has_marker = m }) (completed_dir n)
own_dir b bs m n d k e = rw (d, k, e) refl

counted_parts :
    (b : Bool) (bs : List ℕ) (m : Bool) (n : ℤ)
    → checkpoint_of (record { is_dir = b; name = bs; has_marker = m }) ≡ some n
    → (b ≡ true) × (m ≡ true) × (parsed (strip_prefix dir_prefix bs) ≡ some n)
unfolding checkpoint_of
counted_parts false bs m n h = absurd (cc (h))
counted_parts true bs false n h = absurd (cc (h))
counted_parts true bs true n h = (refl, refl, h)

-- An entry that counts for a checkpoint is its own directory.
counted_own :
    (e : DirEntry) (n : ℤ)
    → IsExpected e
    → checkpoint_of e ≡ some n
    → IsInt64 n × (e ≡ completed_dir n)
unfolding parsed dir_name
counted_own e n (plain_file f) h =
    absurd (cc (f, (counted_parts e.is_dir e.name e.has_marker n h).0))
counted_own e n (foreign f) h =
    let p = (counted_parts e.is_dir e.name e.has_marker n h).2 in absurd (cc (rw f at p))
counted_own e n (own id hi named) h =
    let (d, m, p) = counted_parts e.is_dir e.name e.has_marker n h in
    let ids : some id ≡ some n =
      sym (ap parsed (strip_own dir_prefix (format_int id)) ∙ parse_int-format_int id hi)
      ∙ sym (ap (λ bs. parsed (strip_prefix dir_prefix bs)) named)
      ∙ p in
    let same : id ≡ n = cc (ids) in
    (subst IsInt64 same hi, own_dir e.is_dir e.name e.has_marker n d m (named ∙ ap dir_name same))

-- What Latest may return of a listing: no checkpoint if none is complete, or else the newest that is.
pub data IsNewest (es : List DirEntry) : Option ℤ → Type 0 where
  none_complete : ((m : ℤ) → IsInt64 m → Has (completed_dir m) es → ⊥) → IsNewest es none
  newest :
      (n : ℤ)
      → IsInt64 n
      → Has (completed_dir n) es
      → ((m : ℤ) → IsInt64 m → Has (completed_dir m) es → m ≤ℤ n)
      → IsNewest es (some n)

scan_covers :
    (es : List DirEntry) (o : Option ℤ)
    → scan none es ≡ o
    → (m : ℤ) → IsInt64 m
    → Has (completed_dir m) es
    → AtLeast (some m) o
scan_covers es o e m hm h = subst (AtLeast (some m)) e (
    subst (λ x. AtLeast x (scan none es)) (checkpoint_of_own m hm)
      (scan-newest none es (completed_dir m) h))

from_entries :
    (es : List DirEntry) (n : ℤ)
    → (◌≡◌ {A = Option ℤ} none (some n)) ⊎ ((e : DirEntry) × Has e es × (checkpoint_of e ≡ some n))
    → (e : DirEntry) × Has e es × (checkpoint_of e ≡ some n)
from_entries es n (inl h) = absurd (cc)
from_entries es n (inr h) = h

scan-IsNewest :
    (es : List DirEntry)
    → ((e : DirEntry) → Has e es → IsExpected e)
    → (o : Option ℤ) → scan none es ≡ o
    → IsNewest es o
scan-IsNewest es ok none e = none_complete (scan_covers es none e)
scan-IsNewest es ok (some n) e =
    let (x, listed, c) = from_entries es n (scan-source none es n e) in
    let (hn, same) = counted_own x n (ok x listed) c in
    newest n hn (subst (λ y. Has y es) same listed) (scan_covers es (some n) e)

-- In a root where every directory with the prefix of a checkpoint's is named as the storage names
-- them, Latest returns the newest checkpoint whose own directory is listed with its marker, and none
-- if none is.
pub latest-IsNewest :
    (es : List DirEntry)
    → ((e : DirEntry) → Has e es → IsExpected e)
    → (o : Option ℤ) × (latest (entries es) ≡ latest_is o) × IsNewest es o
unfolding latest
latest-IsNewest es ok = (scan none es, refl, scan-IsNewest es ok (scan none es) refl)
