-- ===== src/Config/Buffer.antt =====
-- The reader of the configuration file: `gluserBlockIsBlankOrCommentLine` and `glusterBlockReadConfig`
-- (utils/dyn-config.c). The lines are what getline returns, line ends included; none has a NUL byte.
use gluster_block.Prelude.{
  ℕ, ◌+◌, ◌*◌, ◌/◌, ◌%◌, ◌≤◌, ◌≡◌, ◌≢◌, refl, ap, Bool, true, ◌||◌, Option, none, some, List, [],
  ◌∷◌, ◌++◌, arith, All, if◌then◌else◌, ◌==◌, leb, ltb, length, length-append, Bool-cases, inl, inr,
}
use mathlib.Core.List.{append_assoc, append-nil}
use gluster_block.Text.{Text}
use gluster_block.Meta.{Outcome, ok, fail, crash, ◌>>=◌}
use gluster_block.Config.{is_blank, is_eol}

-- `GB_BUF_LEN`
abbrev pub buf_step : ℕ
buf_step = 1024

unfoldable pub is_blank_or_comment : Text → Bool
is_blank_or_comment [] = true
is_blank_or_comment (c ∷ s) =
    let rest = is_blank_or_comment s in
    if is_blank c || (is_eol c || c == 0) then rest else c == b'#'

-- The text in the buffer, whose length is `*len`, and the size of the buffer.
pub record Buffer : Type 0 where
  pub text : Text
  pub size : ℕ

abbrev pub grow : (end size : ℕ) → ℕ
grow end size = if leb size end then size + buf_step else size

-- A line and its NUL are copied behind the text; a copy past the buffer is a crash.
unfoldable pub copy_line : Text → Buffer → Outcome Buffer
copy_line l b =
    let size = grow (length b.text + length l) b.size in
    if ltb (length b.text + length l) size
    then ok (record { text = b.text ++ l; size = size })
    else crash

-- `while ((m = getline(&line, &n, fp)) != -1)`
unfoldable pub read_lines : List Text → Buffer → Outcome Buffer
unfolding is_blank_or_comment copy_line
read_lines [] b = ok b
read_lines (l ∷ ls) b =
    if is_blank_or_comment l then read_lines ls b else do b' ← copy_line l b; read_lines ls b'

-- `buf[++(*len)] = '\0'`: the bytes that the parser goes through.
unfoldable pub close_buffer : Buffer → Outcome Text
close_buffer b = if ltb (length b.text + 1) b.size then ok (b.text ++ 0 ∷ []) else crash

-- What the file gives at one attempt after the other: its lines, or nothing if it could not be opened. An
-- empty file is read again, five times at most.
unfoldable pub read_config : (count : ℕ) → List (Option (List Text)) → Outcome Text
unfolding read_lines close_buffer
read_config count [] = fail
read_config count (none ∷ more) = fail
read_config count (some [] ∷ more) =
    if leb (count + 1) 5 then read_config (count + 1) more else fail
read_config count (some (l ∷ ls) ∷ more) = do
  b ← read_lines (l ∷ ls) (record { text = []; size = buf_step })
  close_buffer b

-- The lines that are not left out, one behind the other.
abbrev pub kept : List Text → Text
kept [] = []
kept (l ∷ ls) = if is_blank_or_comment l then kept ls else l ++ kept ls

-- The size that goes with a length.
abbrev size_for : ℕ → ℕ
size_for n = (n / 1024 + 1) * 1024

copy_line-fits :
    (l t : Text)
    → length l ≤ 1024
    → copy_line l (record { text = t; size = size_for (length t) })
      ≡ ok (record { text = t ++ l; size = size_for (length (t ++ l)) })
unfolding copy_line
copy_line-fits l t h = elim (Bool-cases (leb (size_for (length t)) (length t + length l))) [
  | inl e ↦
      let s : size_for (length t) + 1024 ≡ size_for (length (t ++ l)) =
        ground (arith, length-append {0} t l) in
      let r : ltb (length t + length l) (size_for (length t) + 1024) ≡ true = ground arith in
      rw (e, r) (ap (λ n. ok (record { text = t ++ l; size = n })) s)
  | inr e ↦
      let s : size_for (length t) ≡ size_for (length (t ++ l)) =
        ground (arith, length-append {0} t l) in
      let r : ltb (length t + length l) (size_for (length t)) ≡ true = ground arith in
      rw (e, r) (ap (λ n. ok (record { text = t ++ l; size = n })) s)
]

read_lines-kept :
    (ls : List Text) (t : Text)
    → All (λ l. length l ≤ 1024) ls
    → read_lines ls (record { text = t; size = size_for (length t) })
      ≡ ok (record { text = t ++ kept ls; size = size_for (length (t ++ kept ls)) })
unfolding read_lines
read_lines-kept [] t h = rw (append-nil {0} t) refl
read_lines-kept (l ∷ ls) t h = elim (Bool-cases (is_blank_or_comment l)) [
  | inl e ↦ rw (read_lines, e) (read_lines-kept ls t h.1)
  | inr e ↦
      rw (read_lines, e, copy_line-fits l t h.0)
        (rw (← append_assoc t l (kept ls)) (read_lines-kept ls (t ++ l) h.1))
]

close_lem :
    (t : Text)
    → close_buffer (record { text = t; size = size_for (length t) })
      ≡ (if (length t + 1) % 1024 == 0 then crash else ok (t ++ 0 ∷ []))
unfolding close_buffer
close_lem t = ground arith

-- If no line of the file is longer than 1024 bytes and the file has a line, then every line is copied into
-- the buffer, and the parser is given the lines that are neither blank nor comments, in order, and a NUL;
-- but if these make one byte less than a multiple of 1024, the second NUL is written past the buffer.
pub read_config_lem :
    (count : ℕ) (ls : List Text) (more : List (Option (List Text)))
    → ls ≢ []
    → All (λ l. length l ≤ 1024) ls
    → read_config count (some ls ∷ more)
      ≡ (if (length (kept ls) + 1) % 1024 == 0 then crash else ok (kept ls ++ 0 ∷ []))
unfolding read_config
read_config_lem count [] more n h = absurd (n refl)
read_config_lem count (l ∷ ls) more n h =
    rw (read_config, read_lines-kept (l ∷ ls) [] h) (close_lem (kept (l ∷ ls)))
