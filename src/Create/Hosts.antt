-- ===== src/Create/Hosts.antt =====
-- The list of hosts on the command line: `blockServerParse` (rpc/block_create.c).
use mathlib.Core.List.{append-nil}
use gluster_block.Prelude.{
  ℕ, suc, ◌≡◌, ◌≢◌, ◌∙◌, refl, ap, ap₂, sym, false, List, [], ◌∷◌, ◌++◌, All, arith, if◌then◌else◌,
  ◌==◌, length, Bool-cases, inl, inr,
}
use gluster_block.Text.{Text}
use gluster_block.Text.Laws.{Lacks}

-- The loop that counts the commas.
unfoldable pub server_count : Text → ℕ
server_count [] = 1
server_count (c ∷ s) = let rest = server_count s in if c == b',' then suc rest else rest

-- A byte in front of the first token.
put_first : ℕ → List Text → List Text
put_first c [] = (c ∷ []) ∷ []
put_first c (t ∷ ts) = (c ∷ t) ∷ ts

-- The loop over strsep(&tmp, ","): empty tokens count.
unfoldable pub block_server_parse : Text → List Text
unfolding put_first
block_server_parse [] = [] ∷ []
block_server_parse (c ∷ s) =
    let rest = block_server_parse s in if c == b',' then [] ∷ rest else put_first c rest

-- The hosts with a comma between any two.
abbrev pub joined_hosts : List Text → Text
joined_hosts [] = []
joined_hosts (h ∷ []) = h
joined_hosts (h ∷ k ∷ hs) = h ++ b',' ∷ joined_hosts (k ∷ hs)

length-put_first : (c : ℕ) (ts : List Text) → ts ≢ [] → length (put_first c ts) ≡ length ts
unfolding put_first
length-put_first c [] n = absurd (n refl)
length-put_first c (t ∷ ts) n = refl

put_first-nonempty : (c : ℕ) (ts : List Text) → put_first c ts ≢ []
unfolding put_first
put_first-nonempty c [] p = cc
put_first-nonempty c (t ∷ ts) p = cc

parse-nonempty : (s : Text) → block_server_parse s ≢ []
unfolding block_server_parse
parse-nonempty [] p = cc
parse-nonempty (c ∷ s) p = elim (Bool-cases (c == b',')) [
  | inl e ↦ let p' : [] ∷ block_server_parse s ≡ [] = rw e at p in absurd (ground (arith, p'))
  | inr e ↦ put_first-nonempty c (block_server_parse s) (rw e at p)
]

-- As many tokens are written as slots were allocated.
length-parse : (s : Text) → length (block_server_parse s) ≡ server_count s
unfolding block_server_parse server_count
length-parse [] = refl
length-parse (c ∷ s) = elim (Bool-cases (c == b',')) [
  | inl e ↦ rw e (ap suc (length-parse s))
  | inr e ↦ rw e (length-put_first c (block_server_parse s) (parse-nonempty s) ∙ length-parse s)
]

put-append :
    (h : Text) (t : Text) (ts : List Text)
    → Lacks b',' h
    → (s : Text) → block_server_parse s ≡ t ∷ ts
    → block_server_parse (h ++ s) ≡ (h ++ t) ∷ ts
unfolding block_server_parse put_first
put-append [] t ts l s e = e
put-append (c ∷ h) t ts l s e =
    let n : c == b',' ≡ false = ground (arith, l.0) in rw (n, put-append h t ts l.1 s e) refl

parse-joined :
    (hosts : List Text)
    → hosts ≢ []
    → All (Lacks b',') hosts
    → block_server_parse (joined_hosts hosts) ≡ hosts
unfolding block_server_parse
parse-joined [] n l = absurd (n refl)
parse-joined (h ∷ []) n l = let e = put-append h [] [] l.0 [] refl in rw append-nil at e
parse-joined (h ∷ k ∷ hs) n l =
    put-append h [] (block_server_parse (joined_hosts (k ∷ hs))) l.0 (b',' ∷ joined_hosts (k ∷ hs))
      refl
    ∙ ap₂ (λ t ts. t ∷ ts) (append-nil h) (parse-joined (k ∷ hs) (λ p. cc) l.1)

-- A list of at least one host without commas, written with a comma between any two, is parsed back to the
-- list, and the array that the count allocates has one slot for each host.
pub block_server_parse_lem :
    (hosts : List Text)
    → hosts ≢ []
    → All (Lacks b',') hosts
    → (block_server_parse (joined_hosts hosts) ≡ hosts)
      × (length hosts ≡ server_count (joined_hosts hosts))
block_server_parse_lem hosts n l =
    let e = parse-joined hosts n l in (e, ap length (sym e) ∙ length-parse (joined_hosts hosts))
