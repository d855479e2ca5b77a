-- ===== src/Meta/Valid/Hosts.antt =====
-- The list that `blockParseValidServers` (rpc/glfs-operations.c) grows: no host stands in it twice.
use gluster_block.Prelude.{
  ℕ, ◌≡◌, false, ◌||◌, Option, none, some, List, [], ◌∷◌, ◌++◌, arith, All, if◌then◌else◌,
  Bool-cases, Option-cases, inl, inr, ◌<◌, length,
}
use gluster_block.Text.{Text, str_eq}
use gluster_block.Enums.Key.{key_parse}
use gluster_block.Meta.{ok}
use gluster_block.Meta.Merge.{str_eq_sym}
use gluster_block.Meta.Read.{render, IsLine}
use gluster_block.Meta.Servers.{blockhost_is_valid}
use gluster_block.Create.Count.{NoRepeat}
use gluster_block.Meta.Valid.{
  cut, is_passed_over, skip_blanks, is_member, is_skip_host, valid_line, valid_lines, HasColon,
  valid_lines-cons, parse_valid_servers, parse_valid_servers-lines,
}

is_member-All :
    (h : Text) (hs : List Text) → is_member h hs ≡ false → All (λ k. str_eq k h ≡ false) hs
unfolding is_member
is_member-All h [] e = tt
is_member-All h (k ∷ ks) e = elim (Bool-cases (str_eq k h)) [
  | inl t ↦ cc
  | inr f ↦ (f, is_member-All h ks (ground (arith, e, f)))
]

All-snoc :
    {A : Type 0} (P : A → Type 0) (x : A) (xs : List A) → All P xs → P x → All P (xs ++ x ∷ [])
All-snoc P x [] a p = (p, tt)
All-snoc P x (y ∷ ys) a p = (a.0, All-snoc P x ys a.1 p)

NoRepeat-snoc :
    (h : Text) (hs : List Text)
    → NoRepeat hs
    → All (λ k. str_eq k h ≡ false) hs
    → NoRepeat (hs ++ h ∷ [])
NoRepeat-snoc h [] r a = (tt, tt)
NoRepeat-snoc h (k ∷ ks) r a =
    (All-snoc (λ x. str_eq x k ≡ false) h ks r.0 (str_eq_sym k h a.0), NoRepeat-snoc h ks r.1 a.1)

-- No host twice, and none that the switch leaves out: its keys are VOLUME, GBID, SIZE, HA, ENTRYCREATE and
-- PASSWORD only.
abbrev pub IsServers : Option Text → Option (List Text) → Type 0
IsServers skiphost none = Unit
IsServers skiphost (some hs) =
    NoRepeat hs
    × All (λ h. is_passed_over (key_parse (some h)) || is_skip_host skiphost h ≡ false) hs

IsServers-snoc :
    (skiphost : Option Text) (h : Text) (hs : List Text)
    → IsServers skiphost (some hs)
    → is_passed_over (key_parse (some h)) || is_skip_host skiphost h ≡ false
    → IsServers skiphost (some (if is_member h hs then hs else hs ++ h ∷ []))
IsServers-snoc skiphost h hs i p = elim (Bool-cases (is_member h hs)) [
  | inl t ↦ rw t i
  | inr f ↦ rw f (NoRepeat-snoc h hs i.0 (is_member-All h hs f), All-snoc _ h hs i.1 p)
]

valid_line-IsServers :
    (skiphost : Option Text) (h s : Text) (list : Option (List Text))
    → IsServers skiphost list
    → IsServers skiphost (valid_line skiphost h s list)
unfolding valid_line
valid_line-IsServers skiphost h s none i =
    elim (Bool-cases (is_passed_over (key_parse (some h)) || is_skip_host skiphost h)) [
      | inl t ↦ rw (valid_line, t) i
      | inr f ↦ elim (Bool-cases (blockhost_is_valid (skip_blanks s))) [
        | inr v ↦ rw (valid_line, f, v) i
        | inl v ↦ rw (valid_line, f, v) ((tt, tt), (f, tt))
      ]
    ]
valid_line-IsServers skiphost h s (some hs) i =
    elim (Bool-cases (is_passed_over (key_parse (some h)) || is_skip_host skiphost h)) [
      | inl t ↦ rw (valid_line, t) i
      | inr f ↦ elim (Bool-cases (blockhost_is_valid (skip_blanks s))) [
        | inr v ↦ rw (valid_line, f, v) i
        | inl v ↦ rw (valid_line, f, v) (IsServers-snoc skiphost h hs i f)
      ]
    ]

valid_lines-IsServers :
    (skiphost : Option Text) (ls : List Text) (list : Option (List Text))
    → IsServers skiphost list
    → IsServers skiphost (valid_lines skiphost ls list)
unfolding valid_lines
valid_lines-IsServers skiphost [] list i = i
valid_lines-IsServers skiphost (l ∷ ls) list i = elim (Option-cases (cut b':' l)) [
  | inl e ↦ rw (valid_lines, e) (valid_lines-IsServers skiphost ls list i)
  | inr ((h, s), e) ↦ rw (valid_lines-cons skiphost l ls list h s e) (
      valid_lines-IsServers skiphost ls (valid_line skiphost h s list)
        (valid_line-IsServers skiphost h s list i))
]

-- On a file of whole lines, each with a colon and short enough for one read, as many reads as lines and
-- one more are enough: whatever the array held, the loop leaves in the list what the lines give when they
-- are taken in turn, and there no name stands twice, and none that is one of the six keys VOLUME, GBID, SIZE, HA, ENTRYCREATE
-- and PASSWORD, or the host to skip, if none did before.
pub parse_valid_servers-render :
    (skiphost : Option Text) (ls : List Text) (reads : ℕ) (buf : Text) (list : Option (List Text))
    → All IsLine ls
    → All HasColon ls
    → length ls < reads
    → IsServers skiphost list
    → (parse_valid_servers (some (render ls)) reads buf skiphost list
        ≡ ok (valid_lines skiphost ls list))
      × IsServers skiphost (valid_lines skiphost ls list)
parse_valid_servers-render skiphost ls reads buf list i c n s = (
  parse_valid_servers-lines skiphost ls reads buf list i c n,
  valid_lines-IsServers skiphost ls list s,
)
