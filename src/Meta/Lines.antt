-- ===== src/Meta/Lines.antt =====
-- What the lines that the daemon writes mean to `blockStuffMetaInfo` (rpc/glfs-operations.c).
use gluster_block.Prelude.{◌≤◌, ◌≡◌, ◌≢◌, refl, none, some, List, [], ◌∷◌, ◌++◌, arith, length}
use gluster_block.Text.{Text, after_char}
use gluster_block.Text.Laws.{Lacks, first_token-append}
use gluster_block.Enums.Key.{key_parse}
use gluster_block.Meta.{MetaInfo, Outcome, ok, ◌>>=◌, record_status, stuff_meta_info}
use gluster_block.Meta.Nodes.{Fits}

-- "%s: %s" without the newline, as in `"%s: CONFIGSUCCESS\n"`.
abbrev pub host_line : Text → Text → Text
host_line h st = h ++ b':' ∷ b' ' ∷ st

-- A text that can stand in a line of the file.
pub record IsLineText (s : Text) : Type 0 where
  pub no_newline : Lacks 10 s
  pub no_null : Lacks 0 s

-- A host as the daemon writes it: an address with no colon and no space, that is no key.
pub record IsHost (h : Text) : Type 0 where
  pub nonempty : h ≢ []
  pub no_colon : Lacks b':' h
  pub no_space : Lacks b' ' h
  pub no_key : key_parse (some h) ≡ none
  pub fits : length h ≤ 254
  pub text : IsLineText h

-- A status that fits its array.
pub record IsStatusText (st : Text) : Type 0 where
  pub fits : length st ≤ 31
  pub text : IsLineText st

pub IsHost-Fits : {h st : Text} → IsHost h → IsStatusText st → Fits h st
IsHost-Fits ih is = record { host = ih.fits; status = is.fits }

after_space : (h st : Text) → Lacks b' ' h → after_char b' ' (host_line h st) ≡ some st
unfolding after_char
after_space [] st l = refl
after_space (c ∷ h) st l = ground (arith, after_space h st l.1, l.0)

-- A line about a host records the status of that host and changes nothing else.
pub stuff-host_line :
    (info : MetaInfo) (h st : Text)
    → IsHost h
    → stuff_meta_info info (host_line h st)
      ≡ ok (record info { nodes = record_status h st info.nodes })
unfolding stuff_meta_info
stuff-host_line info h st ih = ground (
  arith,
  first_token-append b':' h (b' ' ∷ st) ih.nonempty ih.no_colon,
  after_space h st ih.no_space,
  ih.no_key,
)

-- All lines in order, as the reader hands them over.
unfoldable pub stuff_lines : List Text → MetaInfo → Outcome MetaInfo
stuff_lines [] info = ok info
stuff_lines (l ∷ ls) info = do info' ← stuff_meta_info info l; stuff_lines ls info'
