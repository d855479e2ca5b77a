-- ===== src/Meta/Valid.antt =====
-- The hosts of a block that a replace looks for: `blockParseValidServers`
-- (rpc/glfs-operations.c).
pub mod Hosts
use gluster_block.Prelude.{
  ℕ, zero, suc, ◌+◌, ◌<◌, ◌≡◌, ◌≢◌, ◌∙◌, refl, ap, sym, Bool, true, false, not, ◌&&◌, ◌||◌, Option,
  none, some, List, [], ◌∷◌, ◌++◌, arith, All, if◌then◌else◌, length, length-append, drop,
  drop-append, ◌==◌, Bool-cases, inl, inr,
}
use mathlib.Core.List.{append_assoc, append-nil}
use gluster_block.Text.{Text, str_eq}
use gluster_block.Text.Laws.{Lacks}
use gluster_block.Enums.Key
use gluster_block.Enums.Key.{MetaKey, key_parse}
use gluster_block.Meta.{Outcome, ok, fail, crash}
use gluster_block.Meta.Merge.{str_eq_sym}
use gluster_block.Meta.Read.{read_into, read_into-line, regroup_line, render, IsLine}
use gluster_block.Meta.Servers.{blockhost_is_valid}

-- `strchr(s, c)` and the NUL written there: the text in front of it and the bytes behind it; none for
-- NULL or a search past the array.
unfoldable pub cut : ℕ → Text → Option (Text × Text)
cut c [] = none
cut c (d ∷ s) =
    let rest = cut c s in
    if d == c
    then some ([], s)
    else if d == 0
    then none
    else elim rest [ none ↦ none | some (a, b) ↦ some (d ∷ a, b) ]

-- The keys that the switch passes over.
abbrev pub is_passed_over : Option MetaKey → Bool
is_passed_over (some Key.volume) = true
is_passed_over (some Key.gbid) = true
is_passed_over (some Key.size) = true
is_passed_over (some Key.ha) = true
is_passed_over (some Key.entrycreate) = true
is_passed_over (some Key.passwd) = true
is_passed_over _ = false

unfoldable pub skip_blanks : Text → Text
skip_blanks [] = []
skip_blanks (c ∷ s) = let rest = skip_blanks s in if c == b' ' then rest else c ∷ s

-- `match`
unfoldable pub is_member : Text → List Text → Bool
is_member h [] = false
is_member h (k ∷ ks) = str_eq k h || is_member h ks

abbrev pub is_skip_host : Option Text → Text → Bool
is_skip_host none h = false
is_skip_host (some k) h = str_eq h k

-- The body of the switch: `list` is none for NULL.
unfoldable pub valid_line :
    (skiphost : Option Text) → Text → Text → Option (List Text) → Option (List Text)
valid_line skiphost h s list =
    if is_passed_over (key_parse (some h)) || is_skip_host skiphost h
    then list
    else if not (blockhost_is_valid (skip_blanks s))
    then list
    else elim list [
      | none ↦ some (h ∷ [])
      | some hs ↦ some (if is_member h hs then hs else hs ++ h ∷ [])
    ]

-- The rest of the loop, after the next offset, array and list.
abbrev Loop : Type 0
Loop = ℕ → Text → Option (List Text) → Outcome (Option (List Text))

-- A read that returns 0 ends the loop; a line without a newline or a colon is a write through NULL.
valid_round :
    Option Text → Text → ℕ → Text → Option (List Text) → Loop → Outcome (Option (List Text))
valid_round skiphost [] count buf list next = ok list
valid_round skiphost (c ∷ rest) count buf list next = elim (cut 10 (read_into (c ∷ rest) buf)) [
  | none ↦ crash
  | some (l, after) ↦ elim (cut b':' l) [
    | none ↦ crash
    | some (h, s) ↦
        next (count + (length l + 1)) ((h ++ 0 ∷ s) ++ 0 ∷ after) (valid_line skiphost h s list)
  ]
]

valid_loop : (reads : ℕ) → Option Text → Text → Loop
unfolding valid_round
valid_loop zero skiphost content count buf list = fail
valid_loop (suc reads) skiphost content count buf list =
    valid_round skiphost (drop count content) count buf list (valid_loop reads skiphost content)

-- blockParseValidServers with an errCode that is not NULL; the file is none if glfs_open fails, `reads` is the number of reads that succeed.
unfoldable pub parse_valid_servers :
    Option Text
    → (reads : ℕ) → Text
    → (skiphost : Option Text) → Option (List Text)
    → Outcome (Option (List Text))
unfolding valid_loop
parse_valid_servers none reads buf skiphost list = fail
parse_valid_servers (some content) reads buf skiphost list =
    valid_loop reads skiphost content 0 buf list

-- The lines in turn, as a reader of whole lines takes them.
unfoldable pub valid_lines : Option Text → List Text → Option (List Text) → Option (List Text)
valid_lines skiphost [] list = list
valid_lines skiphost (l ∷ ls) list = elim (cut b':' l) [
  | none ↦ valid_lines skiphost ls list
  | some (h, s) ↦ valid_lines skiphost ls (valid_line skiphost h s list)
]

-- The line has a colon.
abbrev pub HasColon : Text → Type 0
HasColon l = (h : Text) × (s : Text) × (cut b':' l ≡ some (h, s))

cut-line : (l y : Text) → Lacks 10 l → Lacks 0 l → cut 10 (l ++ 10 ∷ y) ≡ some (l, y)
unfolding cut
cut-line [] y n z = refl
cut-line (c ∷ l) y n z = ground (arith, cut-line l y n.1 z.1, n.0, z.0)

round-valid :
    (skiphost : Option Text) (l r buf : Text) (count : ℕ) (list : Option (List Text)) (h s : Text)
    → IsLine l
    → cut b':' l ≡ some (h, s)
    → (buf' : Text) × ((next : Loop)
        → valid_round skiphost (l ++ 10 ∷ r) count buf list next
          ≡ next (count + (length l + 1)) buf' (valid_line skiphost h s list))
unfolding valid_round
round-valid skiphost [] r buf count list h s i e = absurd (i.nonempty refl)
round-valid skiphost (c ∷ l) r buf count list h s i e =
    let (y, k) = read_into-line (c ∷ l) r buf i.short in
    (
      (h ++ 0 ∷ s) ++ 0 ∷ y,
      λ next. rw (valid_round, k, cut-line (c ∷ l) y i.text.no_newline i.text.no_null, e) refl,
    )

pub valid_lines-cons :
    (skiphost : Option Text) (l : Text) (ls : List Text) (list : Option (List Text)) (h s : Text)
    → cut b':' l ≡ some (h, s)
    → valid_lines skiphost (l ∷ ls) list ≡ valid_lines skiphost ls (valid_line skiphost h s list)
unfolding valid_lines
valid_lines-cons skiphost l ls list h s e = rw (valid_lines, e) refl

valid_loop-render :
    (skiphost : Option Text) (ls : List Text) (pre buf : Text) (reads : ℕ)
    (list : Option (List Text))
    → All IsLine ls
    → All HasColon ls
    → length ls < reads
    → valid_loop reads skiphost (pre ++ render ls) (length pre) buf list
      ≡ ok (valid_lines skiphost ls list)
unfolding valid_loop render valid_lines
valid_loop-render skiphost ls pre buf zero list i c n = elim n [ ]
valid_loop-render skiphost [] pre buf (suc reads) list i c n =
    rw (drop-append pre [], valid_round) refl
valid_loop-render skiphost (l ∷ ls) pre buf (suc reads) list i c n =
    let (h, s, e) = c.0 in
    let (a, m) = regroup_line pre l (render ls) in
    let (buf', k) = round-valid skiphost l (render ls) buf (length pre) list h s i.0 e in
    rw (drop-append pre (l ++ 10 ∷ render ls)) (
      k (valid_loop reads skiphost (pre ++ (l ++ 10 ∷ render ls)))
      ∙ rw (a, m)
          (valid_loop-render skiphost ls (pre ++ (l ++ 10 ∷ [])) buf' reads
            (valid_line skiphost h s list) i.1 c.1 (omega (arith, n)))
      ∙ ap ok (sym (valid_lines-cons skiphost l ls list h s e)))

pub parse_valid_servers-lines :
    (skiphost : Option Text) (ls : List Text) (reads : ℕ) (buf : Text) (list : Option (List Text))
    → All IsLine ls
    → All HasColon ls
    → length ls < reads
    → parse_valid_servers (some (render ls)) reads buf skiphost list
      ≡ ok (valid_lines skiphost ls list)
unfolding parse_valid_servers
parse_valid_servers-lines skiphost ls reads buf list =
    valid_loop-render skiphost ls [] buf reads list
