-- ===== src/Meta/File.antt =====
-- A metadata file that the reader accepts, and what lines about hosts at its end mean
-- (`blockGetMetaInfo`, rpc/glfs-operations.c).
use mathlib.Core.List.{append_assoc}
use mathlib.Core.Path.{fun_ext}
use gluster_block.Prelude.{
  suc, ℕ, ◌+◌, ◌<◌, ◌≡◌, ◌≢◌, ◌∙◌, refl, ap, sym, some, List, [], ◌∷◌, ◌++◌, map, arith, All,
  length, length-append,
}
use gluster_block.Text.{Text}
use gluster_block.Text.Laws.{Lacks-append}
use gluster_block.Enums.Status.{MetaStatus, status_name}
use gluster_block.Enums.Status
use gluster_block.Meta.{
  NodeInfo, MetaInfo, Outcome, ok, fail, crash, ◌>>=◌, blank_info, stuff_meta_info, parse_rs_status,
}
use gluster_block.Meta.Nodes.{Distinct}
use gluster_block.Meta.Lines.{host_line, IsHost, IsStatusText, stuff_lines}
use gluster_block.Meta.Journal.{Entry, IsEntry, entry_line, journal, stuff_lines-journal}
use gluster_block.Meta.Read.{render, IsLine, get_meta_info, get_meta_info-render}

-- The lines of a file, and what they say before the sizes are split off the statuses.
pub record IsFile (ls : List Text) (raw : MetaInfo) : Type 0 where
  pub lines : All IsLine ls
  pub parsed : stuff_lines ls blank_info ≡ ok raw
  pub distinct : Distinct raw.nodes
  pub hosts : All (λ n. IsHost n.addr) raw.nodes

pub get_meta_info-IsFile :
    {ls : List Text} {raw : MetaInfo} (reads : ℕ) (buf : Text)
    → IsFile ls raw
    → length ls < reads
    → get_meta_info (some (render ls)) reads buf blank_info ≡ ok (parse_rs_status raw)
get_meta_info-IsFile {ls} reads buf f r =
    get_meta_info-render ls reads buf blank_info f.lines r
    ∙ ap (λ (o : Outcome MetaInfo). o >>= λ i. ok (parse_rs_status i)) f.parsed

host_line-ne-nil : (h st : Text) → host_line h st ≢ []
host_line-ne-nil [] st p = cc
host_line-ne-nil (c ∷ h) st p = cc

pub entry_line-IsLine : (e : Entry) → IsEntry e → IsLine (entry_line e)
entry_line-IsLine e v = record {
  nonempty = λ p. host_line-ne-nil e.host e.status p;
  text = record {
    no_newline =
        Lacks-append 10 e.host (b':' ∷ b' ' ∷ e.status) v.host.text.no_newline
          (omega arith, (omega arith, v.status.text.no_newline));
    no_null =
        Lacks-append 0 e.host (b':' ∷ b' ' ∷ e.status) v.host.text.no_null
          (omega arith, (omega arith, v.status.text.no_null));
  };
  short =
      omega (arith, length-append {0} e.host (b':' ∷ b' ' ∷ e.status), v.host.fits, v.status.fits);
}

-- The names in `MetaStatusLookup` fit the array of a node and stand in one line.
pub status_name-IsStatusText : (st : MetaStatus) → IsStatusText (status_name st)
status_name-IsStatusText Status.config_success = omega arith
status_name-IsStatusText _ = omega arith

pub length-map : (es : List Entry) → length (map entry_line es) ≡ length es
length-map [] = refl
length-map (e ∷ es) = ap suc (length-map es)

pub render-append : (ls ks : List Text) → render (ls ++ ks) ≡ render ls ++ render ks
unfolding render
render-append [] ks = refl
render-append (l ∷ ls) ks =
    ap (λ t. l ++ 10 ∷ t) (render-append ls ks) ∙ sym (append_assoc l (10 ∷ render ls) (render ks))

bind_assoc :
    {A B C : Type 0} (o : Outcome A) (f : A → Outcome B) (g : B → Outcome C)
    → (o >>= f >>= g) ≡ (o >>= λ a. f a >>= g)
bind_assoc (ok a) f g = refl
bind_assoc fail f g = refl
bind_assoc crash f g = refl

pub stuff_lines-append :
    (ls ks : List Text) (info : MetaInfo)
    → stuff_lines (ls ++ ks) info ≡ (stuff_lines ls info >>= λ i. stuff_lines ks i)
unfolding stuff_lines
stuff_lines-append [] ks info = refl
stuff_lines-append (l ∷ ls) ks info =
    ap (λ k. stuff_meta_info info l >>= k) (fun_ext λ i. stuff_lines-append ls ks i)
    ∙ sym (bind_assoc (stuff_meta_info info l) (λ i. stuff_lines ls i) (λ i. stuff_lines ks i))

lines-IsLine :
    (ls : List Text) (es : List Entry)
    → All IsLine ls
    → All IsEntry es
    → All IsLine (ls ++ map entry_line es)
lines-IsLine [] [] h v = tt
lines-IsLine [] (e ∷ es) h v = (entry_line-IsLine e v.0, lines-IsLine [] es h v.1)
lines-IsLine (l ∷ ls) es h v = (h.0, lines-IsLine ls es h.1 v)

-- The file with lines about hosts appended, when what they leave is known to be in order.
pub IsFile-lines :
    {ls : List Text} {raw : MetaInfo} {ns : List NodeInfo} (es : List Entry)
    → IsFile ls raw
    → All IsEntry es
    → journal es raw.nodes ≡ ns
    → Distinct ns
    → All (λ n. IsHost n.addr) ns
    → IsFile (ls ++ map entry_line es) (record raw { nodes = ns })
IsFile-lines {ls} {raw} es f v e d h = record {
  lines = lines-IsLine ls es f.lines v;
  parsed =
      stuff_lines-append ls (map entry_line es) blank_info
      ∙ ap (λ (o : Outcome MetaInfo). o >>= λ i. stuff_lines (map entry_line es) i) f.parsed
      ∙ stuff_lines-journal es raw v
      ∙ ap (λ ns. ok (record raw { nodes = ns })) e;
  distinct = d;
  hosts = h;
}

snoc-IsLine : (ls : List Text) (l : Text) → All IsLine ls → IsLine l → All IsLine (ls ++ l ∷ [])
snoc-IsLine [] l h i = (i, tt)
snoc-IsLine (k ∷ ls) l h i = (h.0, snoc-IsLine ls l h.1 i)

-- The file with one more line that leaves the nodes alone.
pub IsFile-line :
    {ls : List Text} {raw raw' : MetaInfo} (l : Text)
    → IsFile ls raw
    → IsLine l
    → stuff_meta_info raw l ≡ ok raw'
    → raw'.nodes ≡ raw.nodes
    → IsFile (ls ++ l ∷ []) raw'
unfolding stuff_lines
IsFile-line {ls} {raw} {raw'} l f i e n = record {
  lines = snoc-IsLine ls l f.lines i;
  parsed =
      stuff_lines-append ls (l ∷ []) blank_info
      ∙ ap (λ (o : Outcome MetaInfo). o >>= λ i. stuff_lines (l ∷ []) i) f.parsed
      ∙ ap (λ (o : Outcome MetaInfo). o >>= λ i. ok i) e;
  distinct = rw n f.distinct;
  hosts = rw n f.hosts;
}

-- A file of short lines that parse, with lines about hosts appended to it, is read as the file with the
-- journal of those lines, given one successful read more than there are lines.
pub get_meta_info-appended :
    {ls : List Text} {raw : MetaInfo} (es : List Entry) (reads : ℕ) (buf : Text)
    → IsFile ls raw
    → All IsEntry es
    → length ls + length es < reads
    → get_meta_info (some (render ls ++ render (map entry_line es))) reads buf blank_info
      ≡ ok (parse_rs_status (record raw { nodes = journal es raw.nodes }))
get_meta_info-appended {ls} {raw} es reads buf f v r =
    let short : length (ls ++ map entry_line es) < reads =
      omega (arith, length-append {0} ls (map entry_line es), length-map es) in
    let said : stuff_lines (ls ++ map entry_line es) blank_info
        ≡ ok (record raw { nodes = journal es raw.nodes }) =
      stuff_lines-append ls (map entry_line es) blank_info
      ∙ ap (λ (o : Outcome MetaInfo). o >>= λ i. stuff_lines (map entry_line es) i) f.parsed
      ∙ stuff_lines-journal es raw v in
    rw (← render-append ls (map entry_line es)) (
      get_meta_info-render (ls ++ map entry_line es) reads buf blank_info
        (lines-IsLine ls es f.lines v) short
      ∙ ap (λ (o : Outcome MetaInfo). o >>= λ i. ok (parse_rs_status i)) said)
