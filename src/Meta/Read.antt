-- ===== src/Meta/Read.antt =====
-- `blockGetMetaInfo` (rpc/glfs-operations.c) over the bytes of the metadata file. The C array `line`
-- of 1024 bytes keeps what earlier reads left in it, and a read puts no NUL behind its data, so the
-- array is part of the state of the loop.
use gluster_block.Prelude.{
  refl, ap, arith, sym, length-append, ◌∙◌, All, drop-append, ◌-◌, ℕ, zero, suc, ◌+◌, ◌<◌, ◌≡◌, ◌≢◌,
  Option, none, some, List, [], ◌∷◌, ◌++◌, ◌||◌, ◌==◌, if◌then◌else◌, take, drop, length,
}
use mathlib.Core.List.{append-nil, append_assoc}
use mathlib.Core.Path.{fun_ext}
use gluster_block.Text.{Text}
use gluster_block.Text.Laws.{Lacks}
use gluster_block.Meta.Lines.{IsLineText, stuff_lines}
use gluster_block.Meta.{MetaInfo, Outcome, ok, fail, crash, ◌>>=◌, stuff_meta_info, parse_rs_status}

abbrev pub buffer_size : ℕ
buffer_size = 1024

-- glfs_read(tgmfd, line, sizeof(line), 0) at the offset where `rest` begins.
unfoldable pub read_into : Text → Text → Text
read_into rest buf = let chunk = take buffer_size rest in chunk ++ drop (length chunk) buf

-- What strtok(line, "\n") finds: a token with the bytes of the array as strtok leaves them, no token
-- in front of a NUL, or no NUL in the whole array.
pub data Token : Type 0 where
  token : Text → Text → Token
  no_token : Token
  overrun : Token

-- The token goes on to a newline, which becomes a NUL, or to a NUL. `pre` stands in front of it.
token_end : Text → Text → Text → Token
token_end pre tok [] = overrun
token_end pre tok (c ∷ s) =
    let rest = token_end pre (tok ++ c ∷ []) s in
    if c == 10 || c == 0 then token tok (pre ++ tok ++ 0 ∷ s) else rest

-- Leading newlines are skipped.
unfoldable pub line_token : Text → Text → Token
unfolding token_end
line_token pre [] = overrun
line_token pre (c ∷ s) =
    let rest = line_token (pre ++ c ∷ []) s in
    if c == 10 then rest else if c == 0 then no_token else token_end pre (c ∷ []) s

-- The rest of the loop, after the next offset, count and array.
abbrev Loop : Type 0
Loop = ℕ → ℕ → Text → MetaInfo → Outcome MetaInfo

-- The loop's body behind a read that returned data up to the offset `read_end`.
on_token : Token → (read_end count : ℕ) → Text → MetaInfo → Loop → Outcome MetaInfo
on_token overrun read_end count buf info next = crash
on_token no_token read_end count buf info next = next read_end count buf info
on_token (token tok buf') read_end count buf info next = do
  info' ← stuff_meta_info info tok
  next (count + (length tok + 1)) (count + (length tok + 1)) buf' info'

-- A read that returns 0 ends the loop.
round : Text → (offset count : ℕ) → Text → MetaInfo → Loop → Outcome MetaInfo
unfolding on_token
round [] offset count buf info next = ok info
round (c ∷ rest) offset count buf info next =
    let buf' = read_into (c ∷ rest) buf in
    on_token (line_token [] buf') (offset + length (take buffer_size (c ∷ rest))) count buf' info
      next

-- `reads` is the number of reads that succeed; the one after them returns an error.
get_loop : (reads : ℕ) → Text → Loop
unfolding round
get_loop zero content offset count buf info = fail
get_loop (suc reads) content offset count buf info =
    round (drop offset content) offset count buf info (get_loop reads content)

-- `file` is none if glfs_open fails; `buf` is what the array holds at first.
unfoldable pub get_meta_info : Option Text → (reads : ℕ) → Text → MetaInfo → Outcome MetaInfo
unfolding get_loop
get_meta_info none reads buf info = fail
get_meta_info (some content) reads buf info = do
  info' ← get_loop reads content 0 0 buf info
  ok (parse_rs_status info')

-- The bytes of a file with these lines.
unfoldable pub render : List Text → Text
render [] = []
render (l ∷ ls) = l ++ 10 ∷ render ls

-- A line that one read can hold.
pub record IsLine (l : Text) : Type 0 where
  pub nonempty : l ≢ []
  pub text : IsLineText l
  pub short : length l < buffer_size

take-append-cons :
    (n : ℕ) (l r : Text) (c : ℕ)
    → length l < n
    → take n (l ++ c ∷ r) ≡ l ++ c ∷ take (n - length l - 1) r
take-append-cons zero l r c h = elim h [ ]
take-append-cons (suc n) [] r c h = let e : suc n - 0 - 1 ≡ n = omega arith in rw e
take-append-cons (suc n) (d ∷ l) r c h =
    let e : suc n - suc (length l) - 1 ≡ n - length l - 1 = omega arith in
    rw e (ap (◌∷◌ d) (take-append-cons n l r c (omega arith)))

token_end-newline :
    (pre tok s y : Text)
    → Lacks 10 s
    → Lacks 0 s
    → token_end pre tok (s ++ 10 ∷ y) ≡ token (tok ++ s) (pre ++ (tok ++ s) ++ 0 ∷ y)
unfolding token_end
token_end-newline pre tok [] y n z = simp append-nil
token_end-newline pre tok (c ∷ s) y n z =
    let e : tok ++ c ∷ [] ++ s ≡ tok ++ c ∷ s = append_assoc tok (c ∷ []) s in
    ground (arith, token_end-newline pre (tok ++ c ∷ []) s y n.1 z.1, e, n.0, z.0)

line_token-line : (l y : Text) → IsLine l → line_token [] (l ++ 10 ∷ y) ≡ token l ([] ++ l ++ 0 ∷ y)
unfolding line_token
line_token-line [] y h = absurd (h.nonempty refl)
line_token-line (c ∷ s) y h = ground (
  arith,
  token_end-newline [] (c ∷ []) s y h.text.no_newline.1 h.text.no_null.1,
  h.text.no_newline.0,
  h.text.no_null.0,
)

-- A read that begins with a short line: the line, its newline, more data and stale bytes.
pub read_into-line :
    (l r buf : Text)
    → length l < buffer_size
    → (y : Text) × (read_into (l ++ 10 ∷ r) buf ≡ l ++ 10 ∷ y)
unfolding read_into
read_into-line l r buf h =
    let more = take (buffer_size - length l - 1) r in
    let stale = drop (length (take buffer_size (l ++ 10 ∷ r))) buf in
    (
      more ++ stale,
      ap (λ (t : Text). t ++ stale) (take-append-cons buffer_size l r 10 h)
          ∙ append_assoc l (10 ∷ more) stale,
    )

-- Whatever the array held, strtok finds the line.
line_token-read :
    (l r buf : Text)
    → IsLine l
    → (buf' : Text) × (line_token [] (read_into (l ++ 10 ∷ r) buf) ≡ token l buf')
line_token-read l r buf h =
    let (y, e) = read_into-line l r buf h.short in
    ([] ++ l ++ 0 ∷ y, ap (line_token []) e ∙ line_token-line l y h)

round-line :
    (l r buf : Text) (n : ℕ) (info : MetaInfo)
    → IsLine l
    → (buf' : Text) × ((next : Loop)
        → round (l ++ 10 ∷ r) n n buf info next ≡ (
            stuff_meta_info info l >>= λ info'.
            next (n + (length l + 1)) (n + (length l + 1)) buf' info'))
unfolding round
round-line [] r buf n info h = absurd (h.nonempty refl)
round-line (c ∷ s) r buf n info h =
    let (buf', e) = line_token-read (c ∷ s) r buf h in (buf', λ next. rw e)

pub regroup_line :
    (pre l r : Text)
    → (pre ++ (l ++ 10 ∷ r) ≡ pre ++ (l ++ 10 ∷ []) ++ r)
      × (length pre + (length l + 1) ≡ length (pre ++ (l ++ 10 ∷ [])))
regroup_line pre l r = (
  ap (◌++◌ pre) (sym (append_assoc l (10 ∷ []) r)) ∙ sym (append_assoc pre (l ++ 10 ∷ []) r),
  omega (arith, length-append {0} pre (l ++ 10 ∷ []), length-append {0} l (10 ∷ [])),
)

get_loop-render :
    (ls : List Text) (pre buf : Text) (reads : ℕ) (info : MetaInfo)
    → All IsLine ls
    → length ls < reads
    → get_loop reads (pre ++ render ls) (length pre) (length pre) buf info ≡ stuff_lines ls info
unfolding get_loop render stuff_lines
get_loop-render ls pre buf zero info h r = elim r [ ]
get_loop-render [] pre buf (suc reads) info h r = rw (drop-append pre [], round)
get_loop-render (l ∷ ls) pre buf (suc reads) info h r =
    let (buf', e) = round-line l (render ls) buf (length pre) info h.0 in
    let (a, n) = regroup_line pre l (render ls) in
    rw (drop-append pre (l ++ 10 ∷ render ls)) (
      e (get_loop reads (pre ++ (l ++ 10 ∷ render ls)))
      ∙ ap (λ k. stuff_meta_info info l >>= k)
          (fun_ext λ info'.
            rw (a, n)
              (get_loop-render ls (pre ++ (l ++ 10 ∷ [])) buf' reads info' h.1 (omega arith))))

-- The reader of a file of short lines hands each line over once, in order, whatever its array held
-- at first: given reads that succeed, one more than the lines, it returns what the lines say, with
-- the sizes split off the statuses, or fails or crashes where a line does.
pub get_meta_info-render :
    (ls : List Text) (reads : ℕ) (buf : Text) (info : MetaInfo)
    → All IsLine ls
    → length ls < reads
    → get_meta_info (some (render ls)) reads buf info
      ≡ (stuff_lines ls info >>= λ info'. ok (parse_rs_status info'))
unfolding get_meta_info
get_meta_info-render ls reads buf info h r =
    ap (λ (o : Outcome MetaInfo). o >>= λ info'. ok (parse_rs_status info'))
      (get_loop-render ls [] buf reads info h r)
